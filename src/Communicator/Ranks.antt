-- ===== src/Communicator/Ranks.antt =====
-- EMPI_COMM_WORLD after init_communicators.
use e_salsa_mpi.Prelude.{
  ℕ, zero, suc, ◌+◌, ◌<◌, leb, true, false, some, List, [], ◌∷◌, map, length, get_elem?, get_or,
  ◌≡◌, refl, ap, arith, pos,
}
use e_salsa_mpi.Codes.{ok}
use e_salsa_mpi.Communicator.Defs.{
  Communicator, Table, Member, add_communicator, fill_members, get_global_rank, get_local_rank,
  handle_to_communicator,
}
use e_salsa_mpi.Communicator.Init.{Start, Mallocs, world_members, comm_world, init_communicators}
use e_salsa_mpi.Communicator.World.{
  IsLayout, IsAt, AllAt, fill_members-AllAt, search_rank-AllAt, cluster_unique,
  cluster_offsets_mono,
}

length-fill_members : (f : ℕ → ℕ) (n i p c : ℕ) → length (fill_members f n i p c) ≡ n
unfolding fill_members
length-fill_members f zero i p c = refl
length-fill_members f (suc n) i p c = ap suc (length-fill_members f n (suc i) _ _)

AllAt-get_elem? :
    (f : ℕ → ℕ) (count i k g : ℕ) (ms : List Member)
    → AllAt f count i ms
    → k < length ms
    → i + k ≡ g
    → (m : Member) × (get_elem? ms k ≡ some m) × IsAt f count g m
AllAt-get_elem? f count i k g [] a h e = absurd (omega arith)
AllAt-get_elem? f count i zero g (m ∷ ms) ((c, o, u, p), a) h e =
    (m, refl, (c, omega arith, omega arith, p))
AllAt-get_elem? f count i (suc k) g (m ∷ ms) (at, a) h e =
    AllAt-get_elem? f count (suc i) k g ms a (omega arith) (omega arith)

get_or-map :
    (g : Member → ℕ) (ms : List Member) (k : ℕ) (m : Member)
    → get_elem? ms k ≡ some m
    → get_or (map g ms) k 0 ≡ g m
get_or-map g [] k m h = cc
get_or-map g (x ∷ ms) zero m h = cc
get_or-map g (x ∷ ms) (suc k) m h = get_or-map g ms k m h

module _ (a : Start) (lay : IsLayout a.cluster_offsets a.cluster_count)
    (some_cluster : 0 < a.cluster_count) where
  members-AllAt : AllAt a.cluster_offsets a.cluster_count 0 (world_members a)
  unfolding world_members
  members-AllAt =
      fill_members-AllAt a.cluster_offsets a.cluster_count lay _ 0 0 0 some_cluster
        (omega (arith, lay.0)) (omega arith) (omega arith)

  members-length : length (world_members a) ≡ a.cluster_offsets a.cluster_count
  unfolding world_members
  members-length = length-fill_members a.cluster_offsets (a.cluster_offsets a.cluster_count) 0 0 0

  -- For a layout of at least one cluster, each with a process, the entry of every global rank in
  -- the arrays of EMPI_COMM_WORLD names the cluster that has this rank, the rank within it and the
  -- pid of the two.
  pub world_members-IsAt :
      (g : ℕ)
      → g < a.cluster_offsets a.cluster_count
      → (m : Member) × (get_elem? (world_members a) g ≡ some m)
        × IsAt a.cluster_offsets a.cluster_count g m
  world_members-IsAt g h =
      AllAt-get_elem? a.cluster_offsets a.cluster_count 0 g g _ members-AllAt
        (omega (arith, members-length)) (omega arith)

  -- The entry of the process with rank `r` in the cluster `own`.
  world_entry :
      (own r : ℕ)
      → own < a.cluster_count
      → a.cluster_offsets own + r < a.cluster_offsets (suc own)
      → (m : Member) × (get_elem? (world_members a) (a.cluster_offsets own + r) ≡ some m)
        × (m.cluster ≡ own)
        × (m.process ≡ r)
  world_entry own r ho h =
      let g = a.cluster_offsets own + r in
      let (m, e, (c, o, u, p)) = world_members-IsAt g (
        omega (
          arith,
          cluster_offsets_mono a.cluster_offsets a.cluster_count lay (suc own) a.cluster_count
              (omega arith) (omega arith),
        )) in
      let same : m.cluster ≡ own =
        cluster_unique a.cluster_offsets a.cluster_count lay m.cluster own g c ho (omega arith) u
          (omega arith) h in
      (m, e, same, omega (arith, ap a.cluster_offsets same))

  -- The communicator that the table holds for EMPI_COMM_WORLD, whatever my_coordinator is.
  module _ (w : Communicator) (own rank : ℕ) (ho : own < a.cluster_count)
      (inside : a.cluster_offsets own + rank < a.cluster_offsets (suc own)) where
    abbrev HasRanks : Type 0
    HasRanks =
        (w.global_rank ≡ a.cluster_offsets own + rank)
        × (w.global_size ≡ a.cluster_offsets a.cluster_count)
        × (w.member_cluster_index ≡ map (λ (m : Member). m.cluster) (world_members a))
        × (w.local_ranks ≡ map (λ (m : Member). m.process) (world_members a))

    ranks_found :
        HasRanks
        → (cluster r : ℕ) → a.cluster_offsets own + r < a.cluster_offsets (suc own)
        → (get_global_rank w cluster r ≡ some (a.cluster_offsets own + r))
          × (get_local_rank w (pos (a.cluster_offsets own + r)) ≡ some r)
    unfolding get_global_rank get_local_rank
    ranks_found (gr, gs, mc, lr) cluster r h =
        let (me, e, c, p) = world_entry own rank ho inside in
        let (m, e', c', p') = world_entry own r ho h in
        let below : a.cluster_offsets own + r < a.cluster_offsets a.cluster_count = omega (
          arith,
          cluster_offsets_mono a.cluster_offsets a.cluster_count lay (suc own) a.cluster_count
              (omega arith) (omega arith),
        ) in
        (
          rw (gr, mc, lr, get_or-map (λ (x : Member). x.cluster) (world_members a) _ me e, c)
              (search_rank-AllAt a.cluster_offsets a.cluster_count lay own r 0 (world_members a)
                members-AllAt ho h (omega arith) (omega (arith, members-length))),
          rw
              (
                gs,
                lr,
                get_or-map (λ (x : Member). x.process) (world_members a) _ m e',
                p',
                not_above _ _ below,
              )
              refl,
        )
      where
        not_above : (x y : ℕ) → x < y → leb y x ≡ false
        not_above x y h' = ground arith

  -- For a layout of at least one cluster, each with a process, and a process of the cluster
  -- `cluster_rank` with the rank `rank` there: where malloc gives memory, init_communicators returns
  -- EMPI_SUCCESS, and in the communicator that handle_to_communicator finds for EMPI_COMM_WORLD
  -- get_global_rank and get_local_rank translate the rank `q` of a process of the own cluster into
  -- its global rank and back.
  pub init_communicators-get_global_rank :
      (garbage₀ garbage₁ garbage₂ : ℕ) (comms : Table)
      → a.cluster_rank < a.cluster_count
      → a.cluster_offsets a.cluster_rank + a.rank < a.cluster_offsets (suc a.cluster_rank)
      → let mem : Mallocs = record {
        coordinators = true;
        world_arrays = true;
        self_arrays = true;
        world = some garbage₀;
        self = some garbage₁;
        null = some garbage₂;
      } in
        let r = init_communicators mem a comms in
        (r.0 ≡ ok 2)
        × ((w : Communicator) × (handle_to_communicator (pos 0) r.1 ≡ some w)
            × ((cluster q : ℕ)
                → a.cluster_offsets a.cluster_rank + q < a.cluster_offsets (suc a.cluster_rank)
                → (get_global_rank w cluster q ≡ some (a.cluster_offsets a.cluster_rank + q))
                  × (get_local_rank w (pos (a.cluster_offsets a.cluster_rank + q)) ≡ some q)))
  unfolding init_communicators add_communicator handle_to_communicator comm_world
  init_communicators-get_global_rank garbage₀ garbage₁ garbage₂ comms ho inside = (
    refl,
    (
      _,
      refl,
      λ cluster q h.
          ranks_found _ a.cluster_rank a.rank ho inside (refl, refl, refl, refl) cluster q h,
    ),
  )

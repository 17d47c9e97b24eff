-- ===== src/Communicator/Locality.antt =====
-- src/backend/communicator.c: which kind of communicator it is, and in which cluster a rank lives.
--
-- The functions do not test the rank; `none` is a read behind the array members. `own` is the static
-- variable cluster_rank of this process.
use e_salsa_mpi.Prelude.{
  ℕ, zero, suc, ◌+◌, ◌^◌, ◌<◌, ◌≤◌, ◌==◌, if◌then◌else◌, Bool, not, ◌&&◌, List, [], ◌∷◌, map,
  get_elem?, get_elem?-map, Option, ap, some, ◌≡◌, refl, arith, ℤ, pos, negsuc,
}
use mathlib.Core.Option
use e_salsa_mpi.Pid.Defs.{get_cluster_rank, set_pid}
use e_salsa_mpi.Pid.Laws.{set_pid_roundtrip}
use e_salsa_mpi.Communicator.Defs.{Communicator, Member}
use e_salsa_mpi.Communicator.Init.{Start, world_members}
use e_salsa_mpi.Communicator.World.{IsLayout, IsAt}
use e_salsa_mpi.Communicator.Ranks.{world_members-IsAt}

unfoldable index_from : ℕ → ℕ → ℕ → List ℕ → ℤ
index_from cluster_rank zero i ranks = negsuc 0
index_from cluster_rank (suc n) i [] = negsuc 0
index_from cluster_rank (suc n) i (r ∷ ranks) =
    if r == cluster_rank then pos i else index_from cluster_rank n (suc i) ranks

unfoldable comm_cluster_rank_to_cluster_index : Communicator → ℕ → ℤ
comm_cluster_rank_to_cluster_index c cluster_rank =
    index_from cluster_rank c.cluster_count 0 c.cluster_ranks

unfoldable comm_is_world : Communicator → Bool
comm_is_world c = c.flags.world

unfoldable comm_is_self : Communicator → Bool
comm_is_self c = c.flags.self

unfoldable comm_is_local : Communicator → Bool
comm_is_local c = c.flags.local && not c.flags.remote

unfoldable comm_is_wa : Communicator → Bool
comm_is_wa c = not c.flags.local && c.flags.remote

unfoldable comm_is_mixed : Communicator → Bool
comm_is_mixed c = c.flags.local && c.flags.remote

-- On a rank that is not negative.
unfoldable pub get_pid : Communicator → ℕ → Option ℕ
get_pid c rank = get_elem? c.members rank

-- get_cluster_rank of the source, which has the name of the macro it calls.
unfoldable pub get_rank_cluster : Communicator → ℕ → Option ℕ
get_rank_cluster c rank = Option.map get_cluster_rank (get_elem? c.members rank)

unfoldable pub rank_is_local : ℕ → Communicator → ℕ → Option Bool
rank_is_local own c rank =
    Option.map (λ pid. get_cluster_rank pid == own) (get_elem? c.members rank)

unfoldable pub rank_is_remote : ℕ → Communicator → ℕ → Option Bool
rank_is_remote own c rank =
    Option.map (λ pid. not (get_cluster_rank pid == own)) (get_elem? c.members rank)

module _ (a : Start) (lay : IsLayout a.cluster_offsets a.cluster_count)
    (some_cluster : 0 < a.cluster_count) (few : a.cluster_count ≤ 256)
    (small : (c i : ℕ)
      → c < a.cluster_count
      → i < a.cluster_offsets (suc c)
      → i < a.cluster_offsets c + 2 ^ 24) where
  -- For a layout of at least one and at most 256 clusters, each with a process and with at most 2^24
  -- of them, and a communicator with the members of EMPI_COMM_WORLD: every global rank stands in one
  -- cluster of the layout, get_cluster_rank returns that cluster, get_pid the pid made of it and the
  -- rank within it, and rank_is_local and rank_is_remote compare it with the cluster `own`.
  pub rank_is_local-IsAt :
      (w : Communicator)
      → w.members ≡ map (λ (m : Member). m.pid) (world_members a)
      → (own g : ℕ) → g < a.cluster_offsets a.cluster_count
      → (m : Member) × IsAt a.cluster_offsets a.cluster_count g m
        × (get_rank_cluster w g ≡ some m.cluster)
        × (get_pid w g ≡ some (set_pid m.cluster m.process))
        × (rank_is_local own w g ≡ some (m.cluster == own))
        × (rank_is_remote own w g ≡ some (not (m.cluster == own)))
  unfolding get_rank_cluster get_pid rank_is_local rank_is_remote
  rank_is_local-IsAt w same own g h =
      let (m, e, at) = world_members-IsAt a lay some_cluster g h in
      let entry : get_elem? w.members g ≡ some m.pid =
        rw same (get_elem?-map (λ (x : Member). x.pid) (world_members a) g m e) in
      let inside = small m.cluster g at.0 at.2 in
      let cluster : get_cluster_rank m.pid ≡ m.cluster =
        rw at.3 (set_pid_roundtrip m.cluster m.process (omega arith) (omega arith)).0 in
      (
        m,
        at,
        rw (entry, cluster) refl,
        rw entry (ap some at.3),
        rw (entry, cluster) refl,
        rw (entry, cluster) refl,
      )

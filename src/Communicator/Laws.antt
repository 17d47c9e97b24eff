-- ===== src/Communicator/Laws.antt =====
-- The table of communicators.
use e_salsa_mpi.Prelude.{
  ℕ, zero, suc, ◌≤◌, ◌<◌, get_elem?, List, [], ◌∷◌, true, ◌==◌, eq→==, ne→==, ==→eq, ltb, leb,
  false, Option, none, some, ◌≡◌, ◌≢◌, ◌∙◌, refl, sym, ap, inl, inr, arith, ℤ, pos_part, pos,
  negsuc, Bool-cases,
}
use mathlib.Core.Option.{some-injective}
use mathlib.Core.Path.{fun_ext}
use e_salsa_mpi.Codes.{err_intern, Result, ok, err, max_communicators}
use e_salsa_mpi.Communicator.Defs.{
  Communicator, Table, put, set_fields, add_entry, add_communicator, create_communicator,
  find_coordinator, my_coordinator_of, free_communicator, handle_to_communicator,
  communicator_to_handle,
}

-- Where the process is in cluster `own`, `found` is the coordinator at the last place of the array at
-- which this cluster stands.
abbrev pub IsLastCoordinator : ℕ → List ℕ → List ℕ → ℕ → Type 0
IsLastCoordinator own ranks coordinators found =
    (i x : ℕ)
    → get_elem? ranks i ≡ some own
    → get_elem? coordinators i ≡ some x
    → ((j : ℕ) → i < j → get_elem? ranks j ≢ some own)
    → found ≡ x

-- The communicator `s` that is kept for the arguments `c` under the handle `k`.
pub record Stored (own k : ℕ) (c s : Communicator) : Type 0 where
  pub handle : s.handle ≡ pos k
  pub comm : s.comm ≡ c.comm
  pub flags : s.flags ≡ c.flags
  pub local_rank : s.local_rank ≡ c.local_rank
  pub local_size : s.local_size ≡ c.local_size
  pub global_rank : s.global_rank ≡ c.global_rank
  pub global_size : s.global_size ≡ c.global_size
  pub cluster_count : s.cluster_count ≡ c.cluster_count
  pub coordinators : s.coordinators ≡ c.coordinators
  pub cluster_sizes : s.cluster_sizes ≡ c.cluster_sizes
  pub members : s.members ≡ c.members
  pub cluster_ranks : s.cluster_ranks ≡ c.cluster_ranks
  pub member_cluster_index : s.member_cluster_index ≡ c.member_cluster_index
  pub local_ranks : s.local_ranks ≡ c.local_ranks
  pub no_coordinator : c.cluster_count ≡ 0 → s.my_coordinator ≡ 0
  pub my_coordinator :
      0 < c.cluster_count → IsLastCoordinator own c.cluster_ranks c.coordinators s.my_coordinator

-- What the search for the coordinator finds, if it does not find the cluster, and if it does.
find_coordinator-absent :
    (own : ℕ) (ranks coordinators : List ℕ) (found : ℕ)
    → ((j : ℕ) → get_elem? ranks j ≢ some own)
    → find_coordinator own ranks coordinators found ≡ found
unfolding find_coordinator
find_coordinator-absent own [] coordinators found h = refl
find_coordinator-absent own (r ∷ ranks) [] found h = refl
find_coordinator-absent own (r ∷ ranks) (c ∷ coordinators) found h =
    rw (ne→== r own (λ e. h 0 (ap some e)))
      (find_coordinator-absent own ranks coordinators found (λ j. h (suc j)))

find_coordinator-IsLast :
    (own : ℕ) (ranks coordinators : List ℕ) (found : ℕ)
    → IsLastCoordinator own ranks coordinators (find_coordinator own ranks coordinators found)
unfolding find_coordinator
find_coordinator-IsLast own [] coordinators found i x h k later = cc
find_coordinator-IsLast own (r ∷ ranks) [] found i x h k later = cc
find_coordinator-IsLast own (r ∷ ranks) (c ∷ coordinators) found zero x h k later =
    rw (eq→== r own (some-injective r own h)) (
      find_coordinator-absent own ranks coordinators c (λ j. later (suc j) (omega arith))
      ∙ some-injective c x k)
find_coordinator-IsLast own (r ∷ ranks) (c ∷ coordinators) found (suc i) x h k later =
    find_coordinator-IsLast own ranks coordinators _ i x h k (λ j lt. later (suc j) (omega arith))

pub set_fields-Stored :
    (own garbage k : ℕ) (c : Communicator) → Stored own k c (set_fields own garbage k c)
unfolding my_coordinator_of
set_fields-Stored own garbage k c = record {
  handle = refl;
  comm = refl;
  flags = refl;
  local_rank = refl;
  local_size = refl;
  global_rank = refl;
  global_size = refl;
  cluster_count = refl;
  coordinators = refl;
  cluster_sizes = refl;
  members = refl;
  cluster_ranks = refl;
  member_cluster_index = refl;
  local_ranks = refl;
  no_coordinator = λ e. rw e refl;
  my_coordinator =
      λ h. rw (positive h) (find_coordinator-IsLast own c.cluster_ranks c.coordinators garbage);
}
  where
    positive : 0 < c.cluster_count → ltb 0 c.cluster_count ≡ true
    positive h = ground arith

-- What create_communicator does. It refuses where the handle is not free, or malloc gives no memory.
abbrev pub Creates : ℕ → Option ℕ → ℤ → Communicator → Table → Result ℕ × Table → Type 0
Creates own malloc handle given comms (err e, comms') =
    (e ≡ err_intern)
    × (comms' ≡ comms)
    × ((k : ℕ) → handle ≡ pos k → 3 ≤ k → k < max_communicators → comms k ≡ none → malloc ≡ none)
Creates own malloc handle given comms (ok k, comms') =
    (handle ≡ pos k)
    × (3 ≤ k)
    × (k < max_communicators)
    × (comms k ≡ none)
    × ((c : Communicator) × (handle_to_communicator handle comms' ≡ some c)
        × Stored own k given c
        × (communicator_to_handle (some c) ≡ handle)
        × ((free_communicator c comms').1 ≡ comms))
    × ((j : ℕ) → j ≢ k → comms' j ≡ comms j)

-- create_communicator either returns EMPI_ERR_INTERN and leaves the table alone, which it does only
-- where the handle is negative, reserved, behind the table or in use, or malloc gives no memory. Or it
-- fills the entry of its handle, which was free, and leaves all others alone: handle_to_communicator
-- finds a communicator that holds the arguments, that handle, and as my_coordinator the coordinator at
-- the last place of the own cluster in cluster_ranks, if it stands there (0 without clusters).
-- free_communicator gives the table back as it was.
pub create_communicator-Creates :
    (cluster_rank : ℕ) (malloc : Option ℕ) (handle : ℤ) (c : Communicator) (comms : Table)
    → Creates cluster_rank malloc handle c comms
        (create_communicator cluster_rank malloc handle c comms)
unfolding create_communicator add_communicator free_communicator handle_to_communicator
    communicator_to_handle
create_communicator-Creates cluster_rank malloc (negsuc k) c comms = (refl, refl, λ j e. cc)
create_communicator-Creates cluster_rank malloc (pos k) c comms =
    elim (Bool-cases (leb max_communicators k)) [
      | inl beyond ↦
          rw beyond (refl, refl, λ j e p q f. absurd (ground (arith, beyond, q, ap pos_part e)))
      | inr within ↦ elim (Bool-cases (ltb k 3)) [
        | inl reserved ↦
            rw (within, reserved)
              (refl, refl, λ j e p q f. absurd (ground (arith, reserved, p, ap pos_part e)))
        | inr usual ↦ rw (within, usual) (entry malloc (comms k) refl within usual)
      ]
    ]
  where
    not_reserved : (n : ℕ) → ltb n 3 ≡ false → 3 ≤ n
    not_reserved n h = ground arith

    below : (n : ℕ) → leb max_communicators n ≡ false → n < max_communicators
    below n h = ground arith

    restored :
        (x : Option Communicator)
        → comms k ≡ none
        → (j : ℕ) → put (put comms k x) k none j ≡ comms j
    restored x h j = elim (Bool-cases (j == k)) [
      | inl same ↦ rw same (sym (ap comms (==→eq j k same) ∙ h))
      | inr other ↦ rw other refl
    ]

    entry :
        (m : Option ℕ) (o : Option Communicator)
        → comms k ≡ o
        → leb max_communicators k ≡ false
        → ltb k 3 ≡ false
        → Creates cluster_rank m (pos k) c comms (add_entry cluster_rank m k c comms o)
    entry m (some old) h within usual = (refl, refl, λ j e p q f. cc)
    entry none none h within usual = (refl, refl, λ j e p q f. refl)
    entry (some garbage) none h within usual = (
      refl,
      not_reserved k usual,
      below k within,
      h,
      (
        set_fields cluster_rank garbage k c,
        rw (within, eq→== k k refl) refl,
        set_fields-Stored cluster_rank garbage k c,
        refl,
        fun_ext (restored _ h),
      ),
      λ j ne. rw (ne→== j k ne) refl,
    )

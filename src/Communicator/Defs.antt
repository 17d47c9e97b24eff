-- ===== src/Communicator/Defs.antt =====
-- src/backend/communicator.c: the table of communicators and the ranks in a communicator.
--
-- A `communicator *` is the index of its entry in the table `comms`. Arrays are lists, MPI's own
-- communicators numbers that the code only passes on. Ranks and sizes are not negative. The queue
-- of pending messages of a communicator is in the module Messaging.
use e_salsa_mpi.Prelude.{
  ℕ, zero, suc, ◌==◌, ltb, leb, if◌then◌else◌, Bool, false, not, ◌&&◌, Option, none, some, List, [],
  ◌∷◌, get_or, ℤ, pos, negsuc,
}
use e_salsa_mpi.Codes.{err_intern, Result, ok, err, max_communicators}
use e_salsa_mpi.Pid.Defs.{set_pid}

-- The flags COMM_FLAG_WORLD, COMM_FLAG_SELF, COMM_FLAG_LOCAL and COMM_FLAG_REMOTE are Booleans.
pub record Flags : Type 0 where
  pub world : Bool
  pub self : Bool
  pub local : Bool
  pub remote : Bool

pub record Communicator : Type 0 where
  pub handle : ℤ
  pub comm : ℕ
  pub flags : Flags
  pub local_rank : ℕ
  pub local_size : ℕ
  pub global_rank : ℕ
  pub global_size : ℕ
  pub cluster_count : ℕ
  pub my_coordinator : ℕ
  pub coordinators : List ℕ
  pub cluster_sizes : List ℕ
  pub members : List ℕ
  pub cluster_ranks : List ℕ
  pub member_cluster_index : List ℕ
  pub local_ranks : List ℕ

abbrev pub Table : Type 0
Table = ℕ → Option Communicator

abbrev pub put : Table → ℕ → Option Communicator → Table
put comms k c j = if j == k then c else comms j

-- The loop that sets my_coordinator, over the clusters from the first on.
unfoldable pub find_coordinator : ℕ → List ℕ → List ℕ → ℕ → ℕ
find_coordinator cluster_rank (r ∷ ranks) (c ∷ coordinators) found =
    find_coordinator cluster_rank ranks coordinators (if r == cluster_rank then c else found)
find_coordinator cluster_rank [] coordinators found = found
find_coordinator cluster_rank (r ∷ ranks) [] found = found

-- `garbage` is what malloc finds in the place of my_coordinator.
unfoldable pub my_coordinator_of : ℕ → ℕ → Communicator → ℕ
my_coordinator_of cluster_rank garbage c =
    if ltb 0 c.cluster_count
    then find_coordinator cluster_rank c.cluster_ranks c.coordinators garbage
    else 0

-- The new communicator: its fields are those of `c` but for handle and my_coordinator.
abbrev pub set_fields : ℕ → ℕ → ℕ → Communicator → Communicator
set_fields cluster_rank garbage k c = record c {
  handle = pos k;
  my_coordinator = my_coordinator_of cluster_rank garbage c;
}

-- The entry at the handle, once the handle is in bounds; malloc gives a block with `garbage` or
-- none.
abbrev pub add_entry :
    ℕ → Option ℕ → ℕ → Communicator → Table → Option Communicator → Result ℕ × Table
add_entry cluster_rank malloc k c comms (some old) = (err err_intern, comms)
add_entry cluster_rank none k c comms none = (err err_intern, comms)
add_entry cluster_rank (some garbage) k c comms none =
    (ok k, put comms k (some (set_fields cluster_rank garbage k c)))

unfoldable pub add_communicator : ℕ → Option ℕ → ℤ → Bool → Communicator → Table → Result ℕ × Table
add_communicator cluster_rank malloc (negsuc k) initial c comms = (err err_intern, comms)
add_communicator cluster_rank malloc (pos k) initial c comms =
    if leb max_communicators k
    then (err err_intern, comms)
    else if not initial && ltb k 3
    then (err err_intern, comms)
    else add_entry cluster_rank malloc k c comms (comms k)

unfoldable pub create_communicator : ℕ → Option ℕ → ℤ → Communicator → Table → Result ℕ × Table
create_communicator cluster_rank malloc handle c comms =
    add_communicator cluster_rank malloc handle false c comms

-- The MPI communicator that PMPI_Comm_free is called on, and the table.
unfoldable pub free_communicator : Communicator → Table → ℕ × Table
free_communicator c comms = (c.comm, elim c.handle [ pos k ↦ put comms k none | negsuc k ↦ comms ])

unfoldable pub handle_to_communicator : ℤ → Table → Option Communicator
handle_to_communicator (pos k) comms = if leb max_communicators k then none else comms k
handle_to_communicator (negsuc k) comms = none

unfoldable pub communicator_to_handle : Option Communicator → ℤ
communicator_to_handle none = negsuc 0
communicator_to_handle (some c) = c.handle

-- One entry of members, member_cluster_index and local_ranks.
pub record Member : Type 0 where
  pub pid : ℕ
  pub cluster : ℕ
  pub process : ℕ

-- The loop of init_communicators that fills the three arrays of EMPI_COMM_WORLD, from index `i` on
-- for `n` rounds, at tmp_process_rank `p` and tmp_cluster_rank `c`.
unfoldable pub fill_members : (ℕ → ℕ) → ℕ → ℕ → ℕ → ℕ → List Member
fill_members cluster_offsets zero i p c = []
fill_members cluster_offsets (suc n) i p c =
    let moved = leb (cluster_offsets (suc c)) i in
    let p' = if moved then 0 else p in
    let c' = if moved then suc c else c in
    record { pid = set_pid c' p'; cluster = c'; process = p' }
    ∷ fill_members cluster_offsets n (suc i) (suc p') c'

-- The first index with this cluster and local rank, in get_global_rank.
unfoldable pub search_rank : ℕ → ℕ → ℕ → List ℕ → List ℕ → Option ℕ
search_rank cluster_index rank i (c ∷ clusters) (r ∷ ranks) =
    if (c == cluster_index) && (r == rank)
    then some i
    else search_rank cluster_index rank (suc i) clusters ranks
search_rank cluster_index rank i [] ranks = none
search_rank cluster_index rank i (c ∷ clusters) [] = none

-- `none` is the end of the program by FATAL.
unfoldable pub get_global_rank : Communicator → ℕ → ℕ → Option ℕ
get_global_rank c cluster rank =
    search_rank (get_or c.member_cluster_index c.global_rank 0) rank 0 c.member_cluster_index
      c.local_ranks

unfoldable pub get_local_rank : Communicator → ℤ → Option ℕ
get_local_rank c (negsuc k) = none
get_local_rank c (pos k) = if leb c.global_size k then none else some (get_or c.local_ranks k 0)

-- ===== src/Calls/Defs.antt =====
-- src/backend/empi.c: what EMPI_Comm_split, EMPI_Comm_create and EMPI_Comm_dup share, and EMPI_Comm_free.
--
-- What the calls of MPI and malloc give is an argument. `none` for an MPI communicator is MPI_COMM_NULL.
-- The counts and ranks of a reply that makes a communicator are not negative.
use e_salsa_mpi.Prelude.{
  ℕ, ◌/◌, ◌%◌, ◌==◌, if◌then◌else◌, Bool, Option, none, some, List, [], ℤ, pos, negsuc, ◌==ℤ◌,
  pos_part,
}
use e_salsa_mpi.Codes.{Result, ok, err, err_comm}
use e_salsa_mpi.Communicator.Defs.{
  Communicator, Flags, Table, create_communicator, handle_to_communicator,
}
use e_salsa_mpi.Wire.Words.{Access, value, failed, overrun, word_of}
use e_salsa_mpi.Wire.Replies.{Arrays}
use e_salsa_mpi.Wire.Requests.{Sent}

-- EMPI_COMM_WORLD and EMPI_COMM_NULL.
abbrev pub comm_world_handle : ℤ
comm_world_handle = pos 0

abbrev pub null_handle : ℤ
null_handle = pos 2

abbrev pub of_result : {A : Type 0} → Result A → Access A
of_result (ok a) = value a
of_result (err e) = failed e

-- Bit `n` of a word.
abbrev pub has_flag : ℕ → ℕ → Bool
has_flag place w = (w / place) % 2 == 1

-- COMM_FLAG_LOCAL, COMM_FLAG_REMOTE, COMM_FLAG_WORLD and COMM_FLAG_SELF are the lowest bits.
abbrev pub flags_of : ℤ → Flags
flags_of n = record {
  local = has_flag 1 (word_of n);
  remote = has_flag 2 (word_of n);
  world = has_flag 4 (word_of n);
  self = has_flag 8 (word_of n);
}

-- An array that is NULL has no entries.
abbrev pub entries : Option (List ℕ) → List ℕ
entries none = []
entries (some xs) = xs

-- The fields of a new communicator: those of the reply, and the MPI communicator with its rank and size.
abbrev pub communicator_of : ℕ → ℕ → ℕ → ℤ → ℤ → ℤ → ℤ → Arrays → Communicator
communicator_of comm local_rank local_size rank size count flags arrays = record {
  handle = negsuc 0;
  comm = comm;
  flags = flags_of flags;
  local_rank = local_rank;
  local_size = local_size;
  global_rank = pos_part rank;
  global_size = pos_part size;
  cluster_count = pos_part count;
  my_coordinator = 0;
  coordinators = entries arrays.coordinators;
  cluster_sizes = entries arrays.cluster_sizes;
  members = entries arrays.members;
  cluster_ranks = entries arrays.cluster_ranks;
  member_cluster_index = entries arrays.member_cluster_index;
  local_ranks = entries arrays.local_ranks;
}

-- A function's call of create_communicator and of malloc in it.
pub record Registry : Type 0 where
  pub cluster_rank : ℕ
  pub malloc : Option ℕ
  pub comms : Table

-- What a call leaves: `*newcomm` or an error, and the table.
abbrev pub Left : Type 0
Left = Access ℤ × Table

abbrev pub created : Result ℕ × Table → Left
created (ok k, comms) = (value (pos k), comms)
created (err e, comms) = (failed e, comms)

-- The end of a call: there is no new communicator for this process (`none`), or one with this handle.
unfoldable pub register : Registry → Access (Option (ℤ × Communicator)) → Left
register reg (value none) = (value null_handle, reg.comms)
register reg (value (some (handle, c))) =
    created (create_communicator reg.cluster_rank reg.malloc handle c reg.comms)
register reg (failed e) = (failed e, reg.comms)
register reg overrun = (overrun, reg.comms)

-- A request that is sent, and what follows it.
abbrev pub after_request : {A : Type 0} → Sent → Access A → Access A
after_request (buf, ok u) next = next
after_request (buf, err e) next = failed e

-- EMPI_Comm_free: the code and `*comm`; the table is left alone.
abbrev pub free_found : ℤ → Option Communicator → Result (Unit {0}) × ℤ
free_found comm none = (err err_comm, comm)
free_found comm (some c) = (ok tt, null_handle)

unfoldable pub comm_free : ℤ → Table → Result (Unit {0}) × ℤ
comm_free comm comms =
    if comm ==ℤ comm_world_handle
    then (ok tt, comm)
    else if comm ==ℤ null_handle
    then (err err_comm, comm)
    else free_found comm (handle_to_communicator comm comms)

-- EMPI_Comm_size and EMPI_Comm_rank.
abbrev pub asked : (Communicator → ℕ) → Option Communicator → Result ℕ
asked field none = err err_comm
asked field (some c) = ok (field c)

unfoldable pub comm_size : ℤ → Table → Result ℕ
comm_size comm comms = asked (λ c. c.global_size) (handle_to_communicator comm comms)

unfoldable pub comm_rank : ℤ → Table → Result ℕ
comm_rank comm comms = asked (λ c. c.global_rank) (handle_to_communicator comm comms)

-- ===== src/Communicator/Init.antt =====
-- init_communicators of src/backend/communicator.c.
use e_salsa_mpi.Prelude.{
  ℕ, zero, suc, ◌+◌, ltb, if◌then◌else◌, Bool, true, false, Option, none, List, [], ◌∷◌, map, pos,
}
use e_salsa_mpi.Codes.{err_intern, Result, ok, err}
use e_salsa_mpi.Communicator.Defs.{Communicator, Table, Member, add_communicator, fill_members}

-- The arguments of init_communicators, with the global variable my_pid, and what stands for
-- MPI_COMM_SELF and MPI_COMM_NULL.
pub record Start : Type 0 where
  pub rank : ℕ
  pub size : ℕ
  pub world : ℕ
  pub cluster_rank : ℕ
  pub cluster_count : ℕ
  pub cluster_sizes : List ℕ
  pub cluster_offsets : ℕ → ℕ
  pub my_pid : ℕ
  pub mpi_comm_self : ℕ
  pub mpi_comm_null : ℕ

-- What malloc gives: the array of coordinators, the other arrays of EMPI_COMM_WORLD, those of
-- EMPI_COMM_SELF, and the blocks for the three communicators. The code returns the same, and has
-- done the same, whichever of the arrays it gets no memory for.
pub record Mallocs : Type 0 where
  pub coordinators : Bool
  pub world_arrays : Bool
  pub self_arrays : Bool
  pub world : Option ℕ
  pub self : Option ℕ
  pub null : Option ℕ

-- f i, ..., f (i + n - 1)
abbrev pub tabulate : (ℕ → ℕ) → ℕ → ℕ → List ℕ
tabulate f zero i = []
tabulate f (suc n) i = f i ∷ tabulate f n (suc i)

unfoldable pub world_members : Start → List Member
world_members a = fill_members a.cluster_offsets (a.cluster_offsets a.cluster_count) 0 0 0

-- handle and my_coordinator are set in add_communicator.
unfoldable pub comm_world : Start → Communicator
comm_world a = record {
  handle = pos 0;
  comm = a.world;
  flags = record { world = true; self = false; local = true; remote = ltb 1 a.cluster_count };
  local_rank = a.rank;
  local_size = a.size;
  global_rank = a.cluster_offsets a.cluster_rank + a.rank;
  global_size = a.cluster_offsets a.cluster_count;
  cluster_count = a.cluster_count;
  my_coordinator = 0;
  coordinators = tabulate a.cluster_offsets a.cluster_count 0;
  cluster_sizes = a.cluster_sizes;
  members = map (λ (m : Member). m.pid) (world_members a);
  cluster_ranks = tabulate (λ i. i) a.cluster_count 0;
  member_cluster_index = map (λ (m : Member). m.cluster) (world_members a);
  local_ranks = map (λ (m : Member). m.process) (world_members a);
}

-- It keeps the array cluster_ranks of EMPI_COMM_WORLD, whose first entry is set to 0 and was 0.
unfoldable pub comm_self : Start → Communicator
comm_self a = record {
  handle = pos 1;
  comm = a.mpi_comm_self;
  flags = record { world = false; self = true; local = true; remote = false };
  local_rank = 0;
  local_size = 1;
  global_rank = 0;
  global_size = 1;
  cluster_count = 1;
  my_coordinator = 0;
  coordinators = 0 ∷ [];
  cluster_sizes = 1 ∷ [];
  members = a.my_pid ∷ [];
  cluster_ranks = tabulate (λ i. i) a.cluster_count 0;
  member_cluster_index = 0 ∷ [];
  local_ranks = 0 ∷ [];
}

unfoldable pub comm_null : Start → Communicator
comm_null a = record {
  handle = pos 2;
  comm = a.mpi_comm_null;
  flags = record { world = false; self = false; local = false; remote = false };
  local_rank = 0;
  local_size = 0;
  global_rank = 0;
  global_size = 0;
  cluster_count = 0;
  my_coordinator = 0;
  coordinators = [];
  cluster_sizes = [];
  members = [];
  cluster_ranks = [];
  member_cluster_index = [];
  local_ranks = [];
}

abbrev pub and_then : Result ℕ × Table → (Table → Result ℕ × Table) → Result ℕ × Table
and_then (ok k, comms) f = f comms
and_then (err e, comms) f = (err e, comms)

abbrev pub guarded : Bool → Table → Result ℕ × Table → Result ℕ × Table
guarded memory comms next = if memory then next else (err err_intern, comms)

unfoldable pub init_communicators : Mallocs → Start → Table → Result ℕ × Table
init_communicators mem a comms = guarded mem.coordinators comms (
    guarded mem.world_arrays (λ j. none)
      (and_then (add_communicator a.cluster_rank mem.world (pos 0) true (comm_world a) (λ j. none))
        (λ comms₁. guarded mem.self_arrays comms₁ (
          and_then (add_communicator a.cluster_rank mem.self (pos 1) true (comm_self a) comms₁)
            (add_communicator a.cluster_rank mem.null (pos 2) true (comm_null a))))))

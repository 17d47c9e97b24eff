-- ===== src/Calls/Create.antt =====
-- src/backend/empi.c: local_comm_create and EMPI_Comm_create.
use e_salsa_mpi.Prelude.{
  ℕ, ◌==◌, if◌then◌else◌, Bool, Option, none, some, List, [], ◌∷◌, ℤ, ◌==ℤ◌, take,
}
use e_salsa_mpi.Codes.{Result, err_comm, err_op, err_intern}
use e_salsa_mpi.Pid.Defs.{get_cluster_rank, get_process_rank}
use e_salsa_mpi.Communicator.Defs.{Communicator, handle_to_communicator}
use e_salsa_mpi.Groups.Defs.{Group, Groups, handle_to_group}
use e_salsa_mpi.Wire.Words.{Access, value, failed, overrun, ◌>>=◌}
use e_salsa_mpi.Wire.Replies.{
  VarlenCalls, ReceivedGroup, group_type_idle, messaging_comm_create_receive,
}
use e_salsa_mpi.Wire.Requests.{Pids, messaging_comm_create_send}
use e_salsa_mpi.Calls.Defs.{
  comm_world_handle, of_result, communicator_of, Registry, Left, register, after_request,
}

-- What the calls of MPI and malloc give in EMPI_Comm_create: the buffer of the request and PMPI_Send, the
-- calls of the receive, then the array of the local members, PMPI_Comm_group on a communicator,
-- PMPI_Group_incl on a group and ranks, PMPI_Comm_create on a communicator and a group, PMPI_Comm_rank
-- and PMPI_Comm_size.
pub record CreateCalls : Type 0 where
  pub ids : Pids
  pub mpi_err_intern : ℕ
  pub buffer : Bool
  pub send_error : ℕ
  pub receive : VarlenCalls
  pub memory : ℕ → Bool
  pub local_array : Bool
  pub comm_group : ℕ → Result ℕ
  pub group_incl : ℕ → List ℕ → Result (Option ℕ)
  pub comm_create : ℕ → ℕ → Result (Option ℕ)
  pub comm_rank : Result ℕ
  pub comm_size : Result ℕ

-- The process ranks of the members in this cluster.
unfoldable pub local_members : ℕ → List ℕ → List ℕ
local_members cluster_rank [] = []
local_members cluster_rank (m ∷ ms) =
    let rest = local_members cluster_rank ms in
    if get_cluster_rank m == cluster_rank then get_process_rank m ∷ rest else rest

-- A communicator for the new group; there is none for MPI_GROUP_NULL.
abbrev pub create_for : CreateCalls → Communicator → Option ℕ → Access (Option ℕ)
create_for calls c none = value none
create_for calls c (some new_group) = of_result (calls.comm_create c.comm new_group)

-- On EMPI_COMM_WORLD, which `overrun` stands for where it is NULL.
abbrev pub create_from :
    CreateCalls → Communicator → List ℕ → Option Communicator → Access (Option ℕ)
create_from calls c ranks none = overrun
create_from calls c ranks (some world) = do
  orig_group ← of_result (calls.comm_group world.comm)
  new_group ← of_result (calls.group_incl orig_group ranks)
  create_for calls c new_group

abbrev pub create_local : CreateCalls → Registry → Communicator → List ℕ → Access (Option ℕ)
create_local calls reg c [] = value none
create_local calls reg c (m ∷ ms) =
    create_from calls c (m ∷ ms) (handle_to_communicator comm_world_handle reg.comms)

unfoldable pub local_comm_create : CreateCalls → Registry → Communicator → Group → Access (Option ℕ)
local_comm_create calls reg c g =
    if calls.local_array
    then create_local calls reg c (local_members reg.cluster_rank (take g.size g.members))
    else failed err_intern

-- The new communicator, where there is a local one.
abbrev pub create_new : CreateCalls → ReceivedGroup → Option ℕ → Access (Option (ℤ × Communicator))
create_new calls reply none = value none
create_new calls reply (some tmp_comm) = do
  local_rank ← of_result calls.comm_rank
  local_size ← of_result calls.comm_size
  value (
      some (
        reply.new_comm,
        communicator_of tmp_comm local_rank local_size reply.rank reply.size reply.cluster_count
            reply.flags reply.arrays,
      ))

-- What follows the reply.
unfoldable pub create_behind :
    CreateCalls
    → Registry
    → Communicator
    → Group
    → ReceivedGroup
    → Access (Option (ℤ × Communicator))
create_behind calls reg c g reply =
    if reply.kind ==ℤ group_type_idle
    then value none
    else local_comm_create calls reg c g >>= create_new calls reply

-- H2G returns EMPI_ERR_OP for a group that is not found.
abbrev pub create_found : CreateCalls → Registry → Option Communicator → Option Group → Left
create_found calls reg none g = register reg (failed err_comm)
create_found calls reg (some c) none = register reg (failed err_op)
create_found calls reg (some c) (some g) = register reg (
    after_request (messaging_comm_create_send calls.buffer calls.send_error calls.ids c g) (
      messaging_comm_create_receive calls.mpi_err_intern calls.receive calls.memory
      >>= create_behind calls reg c g))

unfoldable pub comm_create : CreateCalls → Registry → Groups → ℤ → ℤ → Left
comm_create calls reg groups mc mg =
    create_found calls reg (handle_to_communicator mc reg.comms) (handle_to_group groups mg)

-- ===== src/Calls/Split.antt =====
-- src/backend/empi.c: EMPI_Comm_split and EMPI_Comm_dup.
use e_salsa_mpi.Prelude.{
  ℕ, if◌then◌else◌, Bool, ◌&&◌, Option, none, some, List, ℤ, pos, negsuc, ◌==ℤ◌, ltb_ℤ,
}
use e_salsa_mpi.Codes.{Result, ok, err, err_comm, undefined}
use e_salsa_mpi.Communicator.Defs.{Communicator, Table, handle_to_communicator, create_communicator}
use e_salsa_mpi.Wire.Words.{Access, value, failed, overrun, ◌>>=◌}
use e_salsa_mpi.Wire.Replies.{
  VarlenCalls, CommReply, messaging_comm_split_receive, messaging_comm_dup_receive,
}
use e_salsa_mpi.Wire.Requests.{Pids, messaging_comm_split_send, messaging_comm_dup_send}
use e_salsa_mpi.Calls.Defs.{
  of_result, communicator_of, Registry, Left, created, register, after_request,
}

-- What the calls of MPI and malloc give in EMPI_Comm_split: PMPI_Send, the calls of the receive, then
-- PMPI_Comm_split on a color and a key, PMPI_Comm_rank and PMPI_Comm_size.
pub record SplitCalls : Type 0 where
  pub ids : Pids
  pub mpi_undefined : ℤ
  pub mpi_err_intern : ℕ
  pub send_error : ℕ
  pub receive : VarlenCalls
  pub memory : ℕ → Bool
  pub comm_split : ℤ → ℤ → Result (Option ℕ)
  pub comm_rank : Result ℕ
  pub comm_size : Result ℕ

-- The new communicator, with the results of PMPI_Comm_rank and PMPI_Comm_size.
abbrev pub split_named : CommReply → ℕ → Result ℕ → Result ℕ → Access (Option (ℤ × Communicator))
split_named reply tmp (err e) size = failed e
split_named reply tmp (ok local_rank) (err e) = failed e
split_named reply tmp (ok local_rank) (ok local_size) = value (
    some (
      reply.new_comm,
      communicator_of tmp local_rank local_size reply.rank reply.size reply.cluster_count
          reply.flags reply.arrays,
    ))

-- There is one where PMPI_Comm_split gives one.
abbrev pub split_new : SplitCalls → CommReply → Option ℕ → Access (Option (ℤ × Communicator))
split_new calls reply none = value none
split_new calls reply (some tmp) = split_named reply tmp calls.comm_rank calls.comm_size

-- What follows the reply.
unfoldable pub split_locally : SplitCalls → CommReply → Access (Option (ℤ × Communicator))
split_locally calls reply = do
  let away = ltb_ℤ reply.color (pos 0)
  tmp ← of_result (
      calls.comm_split (if away then undefined else reply.color)
        (if away then pos 0 else reply.key))
  split_new calls reply tmp

abbrev pub split_found : SplitCalls → Registry → ℤ → ℤ → Option Communicator → Left
split_found calls reg color key none = (failed err_comm, reg.comms)
split_found calls reg color key (some c) =
    let outside = color ==ℤ calls.mpi_undefined in
    register reg (
      after_request
        (messaging_comm_split_send calls.send_error calls.ids c
          (if outside then negsuc 0 else color) (if outside then negsuc 0 else key))
        (messaging_comm_split_receive calls.mpi_err_intern calls.receive calls.memory
          >>= split_locally calls))

unfoldable pub comm_split : SplitCalls → Registry → ℤ → ℤ → ℤ → Left
comm_split calls reg comm color key =
    split_found calls reg color key (handle_to_communicator comm reg.comms)

-- What the calls of MPI and malloc give in EMPI_Comm_dup; `copies i` is malloc in the call `i` of
-- copy_int_array.
pub record DupCalls : Type 0 where
  pub ids : Pids
  pub send_error : ℕ
  pub recv_error : ℕ
  pub received : List ℕ
  pub comm_dup : Result ℕ
  pub copies : ℕ → Bool

abbrev pub all_copied : (ℕ → Bool) → Bool
all_copied copies = copies 0 && copies 1 && copies 2 && copies 3 && copies 4 && copies 5

-- What EMPI_Comm_dup leaves: `none` where it returns EMPI_SUCCESS and does not set `*newcomm`.
abbrev pub DupLeft : Type 0
DupLeft = Access (Option ℤ) × Table

abbrev pub set_newcomm : Left → DupLeft
set_newcomm (value h, comms) = (value (some h), comms)
set_newcomm (failed e, comms) = (failed e, comms)
set_newcomm (overrun, comms) = (overrun, comms)

-- The duplicate; where a copy fails, `error` is returned, which is EMPI_SUCCESS.
unfoldable pub duplicate : DupCalls → Registry → Communicator → Access (ℤ × ℕ) → DupLeft
duplicate calls reg c (value (new_comm, tmp_com)) =
    if all_copied calls.copies
    then set_newcomm (
        created (
          create_communicator reg.cluster_rank reg.malloc new_comm (record c { comm = tmp_com })
            reg.comms))
    else (value none, reg.comms)
duplicate calls reg c (failed e) = (failed e, reg.comms)
duplicate calls reg c overrun = (overrun, reg.comms)

abbrev pub dup_found : DupCalls → Registry → Option Communicator → DupLeft
dup_found calls reg none = (failed err_comm, reg.comms)
dup_found calls reg (some c) = duplicate calls reg c (
    after_request (messaging_comm_dup_send calls.send_error calls.ids c) (do
      new_comm ← messaging_comm_dup_receive calls.recv_error calls.received
      tmp_com ← of_result calls.comm_dup
      value (new_comm, tmp_com)))

unfoldable pub comm_dup : DupCalls → Registry → ℤ → DupLeft
comm_dup calls reg comm = dup_found calls reg (handle_to_communicator comm reg.comms)

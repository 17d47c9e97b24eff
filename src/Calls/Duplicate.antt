-- ===== src/Calls/Duplicate.antt =====
-- src/backend/empi.c: the communicator that EMPI_Comm_dup registers, and a call of EMPI_Comm_create by a
-- process outside of the group.
use e_salsa_mpi.Prelude.{ℕ, true, ◌≡◌}
use e_salsa_mpi.Codes.{ok}
use e_salsa_mpi.Communicator.Defs.{Communicator}
use e_salsa_mpi.Wire.Replies.{DupReply, write_dup_reply}
use e_salsa_mpi.Calls.Split.{DupCalls, all_copied, comm_dup}

-- The calls of MPI and malloc succeed in EMPI_Comm_dup, and the reply is the server's message.
pub record DupSucceeds (calls : DupCalls) (r : DupReply) (tmp : ℕ) : Type 0 where
  pub sent : calls.send_error ≡ 0
  pub received : calls.recv_error ≡ 0
  pub replied : calls.received ≡ write_dup_reply r
  pub made : calls.comm_dup ≡ ok tmp
  pub copied : all_copied calls.copies ≡ true

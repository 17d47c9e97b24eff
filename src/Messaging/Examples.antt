-- ===== src/Messaging/Examples.antt =====
-- A receive on communicator 0 that stores two messages before the one that it wants.
use e_salsa_mpi.Prelude.{◌==◌, if◌then◌else◌, none, some, List, [], ◌∷◌, ◌≡◌, refl, ℤ, pos, true}
use e_salsa_mpi.Queue.Spec.{take_first}
use e_salsa_mpi.Messaging.Defs.{
  DataMessage, ProbeCalls, Mail, got, match_message, messaging_receive, receive_loop, receive_round,
  probe_mpi_data_message, find_pending_message, store_message, put_mail,
}

abbrev message : ℤ → ℤ → ℤ → DataMessage
message comm source tag = record {
  header = record { opcode = 50; src_pid = 0x01000000; dst_pid = 0x02000000; length = 36 };
  comm = comm;
  source = source;
  dest = pos 0;
  tag = tag;
  count = pos 0;
  payload = [];
}

abbrev delivered : DataMessage → ProbeCalls
delivered m = record {
  probe_error = 0;
  flag = true;
  count_error = 0;
  buffer = true;
  recv_error = 0;
  received = m;
  node = true;
}

abbrev calls : List ProbeCalls
calls =
    delivered (message (pos 3) (pos 2) (pos 7))
    ∷ delivered (message (pos 0) (pos 2) (pos 8))
    ∷ delivered (message (pos 0) (pos 2) (pos 7))
    ∷ []

-- Communicators 0 and 3 exist.
abbrev mail : Mail
mail k =
    if k == 0 then some (message (pos 0) (pos 1) (pos 7) ∷ []) else if k == 3 then some [] else none

receive_skips :
    messaging_receive 0 (pos 2) (pos 7) mail calls
    ≡ got
        (message (pos 0) (pos 2) (pos 7))
        (put_mail
          (put_mail mail 3 (message (pos 3) (pos 2) (pos 7) ∷ []))
          0
          (message (pos 0) (pos 1) (pos 7) ∷ message (pos 0) (pos 2) (pos 8) ∷ []))
        []
unfolding messaging_receive find_pending_message take_first receive_loop receive_round
    probe_mpi_data_message store_message match_message put_mail
receive_skips = refl

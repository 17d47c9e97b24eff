-- ===== src/Requests/ReceiveExamples.antt =====
-- A request for a message of rank 2 on communicator 0, which arrives behind one of rank 1.
use e_salsa_mpi.Prelude.{◌==◌, if◌then◌else◌, true, false, none, some, [], ◌∷◌, ◌≡◌, refl, ℤ, pos}
use e_salsa_mpi.Codes.{ok}
use e_salsa_mpi.Queue.Spec.{take_first}
use e_salsa_mpi.Messaging.Defs.{
  DataMessage, ProbeCalls, Mail, messaging_receive, match_message, probe_mpi_data_message,
  store_message, find_pending_message, put_mail,
}
use e_salsa_mpi.Requests.Defs.{Request}
use e_salsa_mpi.Requests.Probe.{
  probed, complete_with, messaging_probe_receive, probe_loop, probe_round,
  messaging_finalize_receive,
}
use e_salsa_mpi.Requests.Receive.{
  WaitsAs, TestsAs, messaging_probe_receive-WaitsAs, messaging_probe_receive-TestsAs,
}

abbrev message_from : ℤ → DataMessage
message_from source = record {
  header = record { opcode = 50; src_pid = 0x01000000; dst_pid = 0; length = 36 };
  comm = pos 0;
  source = source;
  dest = pos 0;
  tag = pos 7;
  count = pos 0;
  payload = [];
}

abbrev arrives : DataMessage → ProbeCalls
arrives m = record {
  probe_error = 0;
  flag = true;
  count_error = 0;
  buffer = true;
  recv_error = 0;
  received = m;
  node = true;
}

abbrev mail : Mail
mail k = if k == 0 then some [] else none

abbrev from_two : Request
from_two = record {
  flags = record {
    active = true;
    persistent = false;
    completed = false;
    local = false;
    send = false;
    receive = true;
    unpacked = false;
  };
  buf = 4096;
  type = 1;
  count = pos 0;
  source_or_dest = pos 2;
  tag = pos 7;
  comm = pos 0;
  error = ok tt;
  handle = pos 0;
  req = none;
  message = none;
}

waits :
    messaging_probe_receive 0 from_two true mail
      (arrives (message_from (pos 1)) ∷ arrives (message_from (pos 2)) ∷ [])
    ≡ probed
        (ok tt)
        (complete_with (message_from (pos 2)) from_two)
        (put_mail mail 0 (message_from (pos 1) ∷ []))
        []
unfolding messaging_probe_receive probe_loop probe_round probe_mpi_data_message find_pending_message
    take_first match_message store_message put_mail
waits = refl

unpacked : (messaging_finalize_receive (λ _. ok tt) from_two).1 ≡ from_two
unfolding messaging_finalize_receive
unpacked = refl

messaging_probe_receive-WaitsAs_example :
    WaitsAs from_two
      (messaging_receive 0
        (pos 2)
        (pos 7)
        mail
        (arrives (message_from (pos 1)) ∷ arrives (message_from (pos 2)) ∷ []))
      (messaging_probe_receive 0 from_two true mail
        (arrives (message_from (pos 1)) ∷ arrives (message_from (pos 2)) ∷ []))
messaging_probe_receive-WaitsAs_example =
    messaging_probe_receive-WaitsAs 0 from_two refl mail
      (arrives (message_from (pos 1)) ∷ arrives (message_from (pos 2)) ∷ []) refl refl

messaging_probe_receive-TestsAs_example :
    TestsAs from_two []
      (messaging_receive 0 (pos 2) (pos 7) mail (arrives (message_from (pos 1)) ∷ []))
      (messaging_probe_receive 0 from_two false mail (arrives (message_from (pos 1)) ∷ []))
messaging_probe_receive-TestsAs_example =
    messaging_probe_receive-TestsAs 0 from_two refl mail (arrives (message_from (pos 1))) [] refl
      refl refl

-- ===== src/Completion/Examples.antt =====
-- A receive from rank 2, for which a message arrives, and sends to other clusters.
use e_salsa_mpi.Prelude.{
  ℕ, ◌<◌, ◌==◌, if◌then◌else◌, Bool, true, false, none, some, [], ◌∷◌, ◌≡◌, refl, pos, arith,
}
use e_salsa_mpi.Codes.{ok}
use e_salsa_mpi.Messaging.Defs.{DataMessage, ProbeCalls, messaging_receive}
use e_salsa_mpi.Communicator.Defs.{Communicator}
use e_salsa_mpi.Requests.Defs.{Request}
use e_salsa_mpi.Completion.Status.{Status}
use e_salsa_mpi.Completion.Defs.{Process, returned}
use e_salsa_mpi.Completion.Probe.{World}
use e_salsa_mpi.Completion.Wait.{probe_request, empi_wait}
use e_salsa_mpi.Completion.Ends.{Ends}
use e_salsa_mpi.Completion.Settles.{Settles, IsHandled, probe_request-Settles}
use e_salsa_mpi.Completion.Remote.{ReceivesAs, empi_wait-ReceivesAs}
use e_salsa_mpi.Completion.Arrays.{Waiting, Statuses, empi_waitall, waitall_code}
use e_salsa_mpi.Completion.All.{AllNull, empi_waitall-AllNull}
use e_salsa_mpi.Completion.Sends.{HasSend, empi_waitall-returns}

abbrev communicator : Communicator
communicator = record {
  handle = pos 0;
  comm = 7;
  flags = record { world = true; self = false; local = true; remote = true };
  local_rank = 0;
  local_size = 2;
  global_rank = 0;
  global_size = 3;
  cluster_count = 2;
  my_coordinator = 0;
  coordinators = 0 ∷ 2 ∷ [];
  cluster_sizes = 2 ∷ 1 ∷ [];
  members = 0 ∷ 1 ∷ 0x01000000 ∷ [];
  cluster_ranks = 0 ∷ 1 ∷ [];
  member_cluster_index = 0 ∷ 0 ∷ 1 ∷ [];
  local_ranks = 0 ∷ 1 ∷ 0 ∷ [];
}

abbrev process : Process
process = record {
  cluster_rank = 0;
  communicator = λ h. communicator;
  unpack = λ m. ok tt;
  mpi_any_tag = pos 1000;
}

abbrev message : DataMessage
message = record {
  header = record { opcode = 50; src_pid = 0x01000000; dst_pid = 0; length = 36 };
  comm = pos 0;
  source = pos 2;
  dest = pos 0;
  tag = pos 7;
  count = pos 0;
  payload = [];
}

abbrev arrival : ProbeCalls
arrival = record {
  probe_error = 0;
  flag = true;
  count_error = 0;
  buffer = true;
  recv_error = 0;
  received = message;
  node = true;
}

-- A request with the handle `k`, from or to rank 2.
abbrev request_with : ℕ → Bool → Request
request_with k send = record {
  flags = record {
    active = true;
    persistent = false;
    completed = false;
    local = false;
    send = send;
    receive = false;
    unpacked = false;
  };
  buf = 4096;
  type = 1;
  count = pos 4;
  source_or_dest = pos 2;
  tag = pos 7;
  comm = pos 0;
  error = ok tt;
  handle = pos k;
  req = none;
  message = none;
}

-- A receive with the handle 5, and sends with the others.
abbrev world : World
world = record {
  reqs = λ k. some (request_with k (if k == 5 then false else true));
  mail = λ k. if k == 0 then some [] else none;
  calls = arrival ∷ [];
  tests = [];
}

world-IsHandled : IsHandled world.reqs
world-IsHandled j r e = cc

status : Status
status = record {
  source = pos 0;
  tag = pos 0;
  error = ok tt;
  count = pos 0;
  cancelled = false;
  type = 0;
}

probe_request-Settles_example :
    Ends (Settles 5 world.reqs) (probe_request process false false (pos 5) (some status) world)
probe_request-Settles_example =
    probe_request-Settles process false false 5 (request_with 5 false) (some status) world
      (omega arith) world-IsHandled refl

empi_wait-ReceivesAs_example :
    ReceivesAs process 5
      (request_with 5 false)
      (some status)
      world
      (messaging_receive 0 (pos 2) (pos 7) world.mail world.calls)
      (empi_wait process (pos 5) (some status) world)
empi_wait-ReceivesAs_example =
    empi_wait-ReceivesAs process 5 0 (request_with 5 false) (some status) world (omega arith) refl
      refl
      (record {
        on_comm = refl;
        not_persistent = refl;
        not_local = refl;
        not_send = refl;
        not_completed = refl;
        not_unpacked = refl;
        no_error = refl;
        from_rank = refl;
      })

live : (k : ℕ) → k < 1024 → (if k == 5 then false else true) ≡ true → HasSend world.reqs k
live k below e = (
  request_with k true,
  record {
    below = below;
    entry = rw e refl;
    handle = refl;
    not_persistent = refl;
    not_local = refl;
    is_send = refl;
  },
)

abbrev statuses : Statuses
statuses = some (λ j. status)

empi_waitall-AllNull_example :
    Ends (AllNull 2) (empi_waitall process 3 (pos 1 ∷ pos 2 ∷ []) statuses world)
empi_waitall-AllNull_example = empi_waitall-AllNull process 3 (pos 1 ∷ pos 2 ∷ []) statuses world

empi_waitall-returns_example :
    (v : Waiting) × (empi_waitall process 2 (pos 1 ∷ pos 2 ∷ []) statuses world ≡ returned (some v))
    × (waitall_code v ≡ ok tt)
empi_waitall-returns_example =
    empi_waitall-returns process 0 (1 ∷ 2 ∷ []) (λ j. status) world ((omega arith, tt), (tt, tt))
      (live 1 (omega arith) refl, (live 2 (omega arith) refl, tt))

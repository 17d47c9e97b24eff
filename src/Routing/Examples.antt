-- ===== src/Routing/Examples.antt =====
-- A gateway of cluster 0 of two: one message to forward, one request and one message for cluster 1 to
-- come.
use e_salsa_mpi.Prelude.{ℕ, ◌==◌, ◌≡◌, if◌then◌else◌, true, false, none, some, [], ◌∷◌, refl, arith}
use e_salsa_mpi.Pid.Defs.{get_cluster_rank}
use e_salsa_mpi.Codes.{Result}
use e_salsa_mpi.Routing.Defs.{GenericMessage, Arrival, MpiMessage, State}
use e_salsa_mpi.Routing.Process.{
  TestCall, process_mpi_messages, forward_data_messages_to_mpi, poll_loop,
}
use e_salsa_mpi.Routing.Post.{Post}
use e_salsa_mpi.Routing.Routes.{IsRouted}
use e_salsa_mpi.Queue.Defs.{Heap}
use e_salsa_mpi.Queue.Chain.{Cells, head_ptr, messages, Chain}
use e_salsa_mpi.Routing.Polling.{poll_pointers, poll_pointers-Polls}
use e_salsa_mpi.Routing.Carried.{Carried, process_mpi_messages-Carries}
use e_salsa_mpi.Routing.Forward.{Forwards, forward_data_messages_to_mpi-Forwards, Polls}

-- To the process with this pid.
abbrev message_to : ℕ → GenericMessage
message_to pid = record {
  header = record { opcode = 50; src_pid = 16777216; dst_pid = pid; length = 40 };
  payload = 7 ∷ [];
}

abbrev arrives : GenericMessage → Arrival
arrives m = record {
  probe_error = 0;
  flag = true;
  count_error = 0;
  count = 40;
  buffer = true;
  recv_error = 0;
  received = m;
  node = true;
}

abbrev gateway : State
gateway = record {
  gateway_rank = 0;
  cluster_rank = 0;
  my_pid = 16777215;
  server_queue_out = [];
  server_queue_in = [];
  incoming_queue = message_to 3 ∷ [];
  out_queues = [] ∷ [] ∷ [];
  mpi_messages = record { request = 9; message = message_to 2 } ∷ [];
  pending = record { messages = 5; size = 200 };
  done = false;
  requests = arrives (message_to 0) ∷ [];
  replies = [];
  data_arrivals = arrives (message_to 16777217) ∷ [];
  sends = record { node = true; error = 0; request = 10 } ∷ [];
  sent = [];
}

-- Request 9 is done.
abbrev test : ℕ → TestCall
test r = record { error = 0; flag = if r == 9 then true else false }

gateway-IsRouted : IsRouted 128 gateway
unfolding get_cluster_rank
gateway-IsRouted = record {
  queues = (tt, (tt, tt));
  sends = tt;
  arrivals = (omega arith, tt);
  pending = omega arith;
}

process_mpi_messages-Carries_example :
    Post
      (IsRouted 128)
      (λ _ s'. IsRouted 128 s' × Carried gateway s')
      (process_mpi_messages 2 test gateway)
process_mpi_messages-Carries_example =
    process_mpi_messages-Carries 128 2 test gateway (omega arith) (omega arith) gateway-IsRouted

forward_data_messages_to_mpi-Forwards_example :
    Forwards [] (message_to 3 ∷ []) (forward_data_messages_to_mpi gateway)
forward_data_messages_to_mpi-Forwards_example = forward_data_messages_to_mpi-Forwards gateway

-- Two sends, of which the second is done.
abbrev two : Cells MpiMessage
two =
    (5, record { request = 8; message = message_to 2 })
    ∷ (6, record { request = 9; message = message_to 3 })
    ∷ []

abbrev nodes : Heap MpiMessage
nodes a =
    if a == 5
    then some (record { next = some 6; message = record { request = 8; message = message_to 2 } })
    else if a == 6
    then some (record { next = none; message = record { request = 9; message = message_to 3 } })
    else none

poll_pointers-Polls_example :
    (code : Result (Unit {0})) × (kept : Cells MpiMessage) × (h' : Heap MpiMessage) × (poll_pointers
        test 2 none
        (some 5)
        (some 5)
        nodes
      ≡ some (code, head_ptr kept, h'))
    × Chain h' kept
    × (poll_loop test (messages two) ≡ (code, messages kept))
    × Polls test (messages two) (code, messages kept)
poll_pointers-Polls_example =
    poll_pointers-Polls test 2 nodes two (refl, refl, (refl, refl, tt)) (omega arith)

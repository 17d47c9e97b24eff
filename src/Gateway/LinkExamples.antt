-- ===== src/Gateway/LinkExamples.antt =====
-- Two messages on a link, written in three pieces and read in two.
use e_salsa_mpi.Prelude.{ℕ, true, false, none, List, [], ◌∷◌, ◌++◌, ◌≡◌, refl, arith}
use e_salsa_mpi.Codes.{ok}
use e_salsa_mpi.Gateway.Socket.{ready, peer, header_size, init_socket_info, length_field}
use e_salsa_mpi.Gateway.Read.{
  Memory, nonblock_read_message, nonblock_read_messages, fill, fill_null, read_null, started,
  started_at, read_full, read_filled, grown, queue_message, read_again, read_rounds,
}
use e_salsa_mpi.Gateway.Read
use e_salsa_mpi.Gateway.Assembly.{IsMessage, joined}
use e_salsa_mpi.Gateway.Write.{
  Sender, Pending, takes, busy, init_sender, prepare_socket, prepare_message, prepare_next,
  ensure_state_ro, ensure_state_rw, drain, finished, write_drained, written_off,
  nonblock_write_message, nonblock_write_messages, write_again,
}
use e_salsa_mpi.Gateway.Write
use e_salsa_mpi.Gateway.Writes.{Sends, EndedBy, nonblock_write_messages-EndedBy}
use e_salsa_mpi.Gateway.Link.{Link, new_link, enqueue, prepare, write, read, Reach, here, next}
use e_salsa_mpi.Gateway.Messages.{init_socket_info-Assembles}
use e_salsa_mpi.Gateway.Event.{Endpoint, Serves, handle_socket_event, handle_socket_event-Serves}
use e_salsa_mpi.Gateway.Delivery.{Reach-prefix, Reach-delivered}

-- There is memory.
abbrev memory : Memory
memory = record { header = λ n. true; node = λ n. true; realloc = λ n. true }

abbrev short : List ℕ
short = 50 ∷ 0 ∷ 0 ∷ 0 ∷ 1 ∷ 0 ∷ 0 ∷ 0 ∷ 2 ∷ 0 ∷ 0 ∷ 0 ∷ 16 ∷ 0 ∷ 0 ∷ 0 ∷ []

abbrev long : List ℕ
long = 50 ∷ 0 ∷ 0 ∷ 0 ∷ 1 ∷ 0 ∷ 0 ∷ 0 ∷ 2 ∷ 0 ∷ 0 ∷ 0 ∷ 20 ∷ 0 ∷ 0 ∷ 0 ∷ 7 ∷ 8 ∷ 9 ∷ 10 ∷ []

long-IsMessage : IsMessage peer long
unfolding length_field
long-IsMessage = (omega arith, refl)

short-IsMessage : IsMessage peer short
unfolding length_field
short-IsMessage = (omega arith, refl)

abbrev full_sender : Sender
full_sender = record {
  type = peer;
  state = Write.read_only;
  out = none;
  outpos = 0;
  outcount = 0;
  out_bytes = 0;
  out_messages = 0;
  out_queue = long ∷ short ∷ [];
}

abbrev counts : Pending
counts = record { messages = 2; size = 36 }

full_sender-Sends : Sends (joined (long ∷ short ∷ [])) full_sender []
full_sender-Sends = record {
  bytes = refl;
  queue = (long-IsMessage, (short-IsMessage, tt));
  current = tt;
}

-- It is to send the two messages, and to receive them from the other side.
abbrev both : Endpoint
both = record {
  sender = full_sender;
  pending = counts;
  events = takes 3 ∷ takes 99 ∷ busy ∷ [];
  sent = [];
  receiver = init_socket_info peer;
  socket = record { events = ready 99 ∷ ready 2 ∷ []; stream = joined (long ∷ short ∷ []) };
}

handle_socket_event-Serves_example : Serves (joined (long ∷ short ∷ [])) (long ∷ short ∷ []) (
    handle_socket_event memory 3 2
      (record { broken = false; writable = true; readable = true })
      both)
handle_socket_event-Serves_example =
    handle_socket_event-Serves memory (λ k. refl) 0 (joined (long ∷ short ∷ [])) (long ∷ short ∷ [])
      3 (record { broken = false; writable = true; readable = true }) both full_sender-Sends
      (init_socket_info-Assembles peer (long ∷ short ∷ []) (long-IsMessage, (short-IsMessage, tt)))
      (omega arith)

nonblock_write_messages-EndedBy_example :
    EndedBy
      (joined (long ∷ short ∷ []))
      (nonblock_write_messages 3 full_sender counts (takes 3 ∷ takes 99 ∷ busy ∷ []) [])
nonblock_write_messages-EndedBy_example =
    nonblock_write_messages-EndedBy (joined (long ∷ short ∷ [])) 3 full_sender counts
      (takes 3 ∷ takes 99 ∷ busy ∷ []) [] full_sender-Sends (omega arith)

-- What the calls return on the link below.
abbrev all_written : Write.Return
all_written = record {
  code = ok tt;
  more = false;
  info = record full_sender { out_queue = []; out_bytes = 36; out_messages = 2 };
  pending = record { messages = 0; size = 0 };
  events = [];
  sent = joined (long ∷ short ∷ []);
}

abbrev all_read : Read.Return
all_read = record {
  code = ok tt;
  more = true;
  info = record (init_socket_info peer) {
    incount = header_size;
    in_bytes = 36;
    in_messages = 2;
    in_queue = long ∷ short ∷ [];
  };
  socket = record { events = []; stream = [] };
}

abbrev filled_link : Link
filled_link = record {
  sender = full_sender;
  wire = [];
  receiver = init_socket_info peer;
  queued = long ∷ short ∷ [];
}

abbrev drained_link : Link
drained_link = record {
  sender = all_written.info;
  wire = [];
  receiver = all_read.info;
  queued = long ∷ short ∷ [];
}

run : Reach memory (new_link peer) drained_link
unfolding init_sender init_socket_info length_field prepare_socket prepare_message prepare_next
    ensure_state_ro ensure_state_rw drain finished write_drained written_off nonblock_write_message
    write_again nonblock_write_messages nonblock_read_message nonblock_read_messages fill started
    fill_null read_null started_at read_full read_filled grown queue_message read_again read_rounds
run =
    next
      (next
        (next
          (next (next here (enqueue _ long long-IsMessage long-IsMessage))
            (enqueue _ short short-IsMessage short-IsMessage))
          (prepare _))
        (write _ counts (takes 3 ∷ takes 99 ∷ takes 99 ∷ []) all_written refl refl))
      (read _ (ready 99 ∷ ready 2 ∷ ready 99 ∷ ready 99 ∷ []) all_read [] refl refl refl)

Reach-prefix_example : (rest : List (List ℕ)) × (long ∷ short ∷ [] ++ rest ≡ long ∷ short ∷ [])
Reach-prefix_example = Reach-prefix memory (λ k. refl) peer drained_link run

Reach-delivered_example : drained_link.receiver.in_queue ≡ long ∷ short ∷ []
Reach-delivered_example =
    Reach-delivered memory (λ k. refl) peer drained_link run (refl, refl, refl) refl

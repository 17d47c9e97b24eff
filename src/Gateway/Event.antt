-- ===== src/Gateway/Event.antt =====
-- handle_socket_event of src/backend/gateway.c: a socket that epoll reports.
use e_salsa_mpi.Prelude.{ℕ, suc, ◌<◌, if◌then◌else◌, Bool, true, false, List, ◌≡◌, refl, subst}
use e_salsa_mpi.Codes.{err_intern, Result, ok, err}
use e_salsa_mpi.Gateway.Socket.{SocketInfo}
use e_salsa_mpi.Gateway.Read
use e_salsa_mpi.Gateway.Read.{Memory, HasNodes, Socket, nonblock_read_messages}
use e_salsa_mpi.Gateway.Assembly.{Assembles}
use e_salsa_mpi.Gateway.Messages.{Keeps, KeptBy, nonblock_read_messages-Keeps}
use e_salsa_mpi.Gateway.Write
use e_salsa_mpi.Gateway.Write.{Sender, Pending, WriteEvent, nonblock_write_messages}
use e_salsa_mpi.Gateway.Writes.{Sends, work, Ended, EndedBy, nonblock_write_messages-EndedBy}

-- EPOLLERR or EPOLLHUP, EPOLLOUT, EPOLLIN
pub record PollEvents : Type 0 where
  pub broken : Bool
  pub writable : Bool
  pub readable : Bool

-- Both halves of the socket_info with what the kernel has for them, and the bytes written so far.
pub record Endpoint : Type 0 where
  pub sender : Sender
  pub pending : Pending
  pub events : List WriteEvent
  pub sent : List ℕ
  pub receiver : SocketInfo
  pub socket : Socket

-- `stuck` is an access behind a buffer, or too little fuel.
pub data Handled : Type 0 where
  handled : Result (Unit {0}) → Endpoint → Handled
  stuck : Handled

-- The test on the result of a read or of a write.
abbrev pub internal : Result (Unit {0}) → Result (Unit {0})
internal (ok u) = ok u
internal (err e) = err err_intern

abbrev pub read_ended : Endpoint → Read.Outcome → Handled
read_ended e (Read.returned r) =
    handled (internal r.code) (record e { receiver = r.info; socket = r.socket })
read_ended e Read.invalid = stuck
read_ended e Read.out_of_fuel = stuck

-- The second half, if epoll reports that there is something to read.
unfoldable pub handle_read : Memory → ℕ → Bool → Endpoint → Handled
handle_read mem fuel readable e =
    if readable
    then read_ended e (nonblock_read_messages mem fuel e.receiver e.socket)
    else handled (ok tt) e

abbrev pub and_read : (Endpoint → Handled) → Result (Unit {0}) → Endpoint → Handled
and_read next (ok _) e = next e
and_read next (err c) e = handled (err err_intern) e

abbrev pub write_ended : (Endpoint → Handled) → Endpoint → Write.Outcome → Handled
write_ended next e (Write.returned r) =
    and_read next r.code
      (record e { sender = r.info; pending = r.pending; events = r.events; sent = r.sent })
write_ended next e Write.overrun = stuck
write_ended next e Write.out_of_fuel = stuck

-- The fuel is for the writes and for the reads.
unfoldable pub handle_socket_event : Memory → ℕ → ℕ → PollEvents → Endpoint → Handled
handle_socket_event mem write_fuel read_fuel events e =
    let next = handle_read mem read_fuel events.readable in
    if events.broken
    then handled (err err_intern) e
    else if events.writable
    then write_ended next e (nonblock_write_messages write_fuel e.sender e.pending e.events e.sent)
    else next e

-- What a call keeps where it succeeds: what was sent and what is to be sent make up `total`, and what
-- was received and what is to come the messages `msgs`. It fails with EMPI_ERR_INTERN.
abbrev pub Serves : List ℕ → List (List ℕ) → Handled → Type 0
Serves total msgs (handled (ok _) e) =
    Sends total e.sender e.sent × Assembles msgs e.receiver e.socket.stream
Serves total msgs (handled (err c) e) = c ≡ err_intern
Serves total msgs stuck = ⊥

module _ (mem : Memory) (nodes : HasNodes mem) (fuel : ℕ) (total : List ℕ)
    (msgs : List (List ℕ)) where
  handle_read-Serves :
      (readable : Bool) (e : Endpoint)
      → Sends total e.sender e.sent
      → Assembles msgs e.receiver e.socket.stream
      → Serves total msgs (handle_read mem (suc (suc fuel)) readable e)
  unfolding handle_read
  handle_read-Serves false e s a = (s, a)
  handle_read-Serves true e s a =
      of_outcome _ (nonblock_read_messages-Keeps mem nodes fuel msgs e.receiver e.socket a)
    where
      of_code :
          (r : Read.Return) (c : Result (Unit {0}))
          → r.code ≡ c
          → KeptBy msgs (Read.returned r)
          → Serves total msgs
              (handled (internal c) (record e { receiver = r.info; socket = r.socket }))
      of_code r (ok u) q k = (s, subst (λ x. Keeps msgs x r) q k)
      of_code r (err c) q k = refl

      of_outcome : (o : Read.Outcome) → KeptBy msgs o → Serves total msgs (read_ended e o)
      of_outcome (Read.returned r) k = of_code r r.code refl k
      of_outcome Read.invalid k = k
      of_outcome Read.out_of_fuel k = k

  -- Where malloc gives memory for the nodes of the queue of messages that arrive, every message to
  -- be sent has its size in its length field, what was sent and what is to be sent make up the
  -- bytes `total`, and what was received and the bytes to come the messages `msgs`:
  -- handle_socket_event ends, with fuel for a write of each unfinished message and one more, and
  -- of at least 2 for the reads. It does not go behind a buffer; if it returns EMPI_SUCCESS, both
  -- still hold, and it fails with EMPI_ERR_INTERN alone.
  pub handle_socket_event-Serves :
      (write_fuel : ℕ) (events : PollEvents) (e : Endpoint)
      → Sends total e.sender e.sent
      → Assembles msgs e.receiver e.socket.stream
      → work e.sender < write_fuel
      → Serves total msgs (handle_socket_event mem write_fuel (suc (suc fuel)) events e)
  unfolding handle_socket_event
  handle_socket_event-Serves write_fuel events e s a h = by_broken events.broken events.writable
    where
      of_code :
          (r : Write.Return) (c : Result (Unit {0}))
          → r.code ≡ c
          → EndedBy total (Write.returned r)
          → Serves total msgs (
              and_read (handle_read mem (suc (suc fuel)) events.readable) c (record e {
                sender = r.info;
                pending = r.pending;
                events = r.events;
                sent = r.sent;
              }))
      of_code r (ok u) q k =
          handle_read-Serves events.readable
            (record e { sender = r.info; pending = r.pending; events = r.events; sent = r.sent })
            (subst (λ x. Ended total x r) q k).0 a
      of_code r (err c) q k = refl

      of_outcome :
          (o : Write.Outcome)
          → EndedBy total o
          → Serves total msgs (write_ended (handle_read mem (suc (suc fuel)) events.readable) e o)
      of_outcome (Write.returned r) k = of_code r r.code refl k
      of_outcome Write.overrun k = k
      of_outcome Write.out_of_fuel k = k

      by_broken :
          (b w : Bool)
          → Serves total msgs (
              if b
              then handled (err err_intern) e
              else if w
              then write_ended
                  (handle_read mem (suc (suc fuel)) events.readable)
                  e
                  (nonblock_write_messages write_fuel e.sender e.pending e.events e.sent)
              else handle_read mem (suc (suc fuel)) events.readable e)
      by_broken true w = refl
      by_broken false true =
          of_outcome _ (
            nonblock_write_messages-EndedBy total write_fuel e.sender e.pending e.events e.sent s h)
      by_broken false false = handle_read-Serves events.readable e s a

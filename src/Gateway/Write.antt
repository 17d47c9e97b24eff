-- ===== src/Gateway/Write.antt =====
-- prepare_message, nonblock_write_message and nonblock_write_messages of src/backend/gateway.c.
--
-- The kernel is a list of events, one for each call of write. The bytes that it takes are the
-- result; the queue that a socket writes from is the list of its messages, as bytes.
use e_salsa_mpi.Prelude.{
  ℕ, zero, suc, ◌+◌, ◌-◌, ◌%◌, ◌^◌, ltb, if◌then◌else◌, Bool, true, false, ◌&&◌, Option, none, some,
  List, [], ◌∷◌, ◌++◌, length, take, drop,
}
use Prim.Native.Nat.{min}
use e_salsa_mpi.Codes.{Result, ok, err, err_intern}
use e_salsa_mpi.Gateway.Socket.{SocketType, server, peer, length_field}
use e_salsa_mpi.Gateway.Read.{succeeded}

-- STATE_RO, STATE_RW: does epoll also wait until the socket can be written?
pub data Mode : Type 0 where
  read_only read_write : Mode

-- The fields of `socket_info` that concern writing.
pub record Sender : Type 0 where
  pub type : SocketType
  pub state : Mode
  pub out : Option (List ℕ)
  pub outpos : ℕ
  pub outcount : ℕ
  pub out_bytes : ℕ
  pub out_messages : ℕ
  pub out_queue : List (List ℕ)

-- pending_data_messages and pending_data_size
pub record Pending : Type 0 where
  pub messages : ℕ
  pub size : ℕ

-- What the kernel does at a call of write: it takes at most `k + 1` bytes, or none (EAGAIN), or
-- reports another error.
pub data WriteEvent : Type 0 where
  takes : ℕ → WriteEvent
  busy broken : WriteEvent

-- How the `while` loop of writes ends: with `count` at `outcount`, with a full socket, in an error,
-- or in a write from behind the end of the message's block. The number is `count`, the events are
-- those that are left, the last list is the bytes that the kernel took.
pub data Drain : Type 0 where
  emptied : ℕ → List WriteEvent → List ℕ → Drain
  stuffed : ℕ → List WriteEvent → List ℕ → Drain
  lost : List WriteEvent → List ℕ → Drain
  overrun : Drain

-- The bytes of a write that the kernel serves with at most `k + 1` bytes.
abbrev pub chunk : ℕ → List ℕ → ℕ → ℕ → List ℕ
chunk outcount out count k = take (min (outcount - count) (suc k)) (drop count out)

-- When no event is left, write gives EAGAIN.
unfoldable pub drain : List WriteEvent → ℕ → List ℕ → ℕ → List ℕ → Drain
drain [] outcount out count sent =
    if ltb count outcount then stuffed count [] sent else emptied count [] sent
drain (takes k ∷ es) outcount out count sent =
    let n = min (outcount - count) (suc k) in
    let rest = drain es outcount out (count + n) (sent ++ chunk outcount out count k) in
    if ltb count outcount
    then (if ltb (length out) (count + n) then overrun else rest)
    else emptied count (takes k ∷ es) sent
drain (busy ∷ es) outcount out count sent =
    if ltb count outcount then stuffed count es sent else emptied count (busy ∷ es) sent
drain (broken ∷ es) outcount out count sent =
    if ltb count outcount then lost es sent else emptied count (broken ∷ es) sent

unfoldable pub prepare_next : Sender → List (List ℕ) → Bool × Sender
prepare_next info [] = (false, info)
prepare_next info (m ∷ queue) = (
  true,
  record info { out = some m; outpos = 0; outcount = length_field info.type m; out_queue = queue },
)

abbrev pub prepare_out : Sender → Option (List ℕ) → Bool × Sender
prepare_out info (some m) = (true, info)
prepare_out info none = prepare_next info info.out_queue

-- The result is whether there is a message to write.
unfoldable pub prepare_message : Sender → Bool × Sender
prepare_message info = prepare_out info info.out

unfoldable pub ensure_state_ro : Sender → Sender
ensure_state_ro info = record info { state = read_only }

unfoldable pub ensure_state_rw : Sender → Sender
ensure_state_rw info = record info { state = read_write }

-- init_socket_info
unfoldable pub init_sender : SocketType → Sender
init_sender type = record {
  type = type;
  state = read_only;
  out = none;
  outpos = 0;
  outcount = 0;
  out_bytes = 0;
  out_messages = 0;
  out_queue = [];
}

abbrev pub ensure_state : Bool × Sender → Sender
ensure_state (false, info) = ensure_state_ro info
ensure_state (true, info) = ensure_state_rw info

-- What prepare_messages does for one socket.
unfoldable pub prepare_socket : Sender → Sender
prepare_socket info = ensure_state (prepare_message info)

-- What a call returns: the code, `*more`, the socket_info, the counts of pending data, the events
-- that are left and the bytes that the kernel took.
pub record Return : Type 0 where
  pub code : Result (Unit {0})
  pub more : Bool
  pub info : Sender
  pub pending : Pending
  pub events : List WriteEvent
  pub sent : List ℕ

pub data Outcome : Type 0 where
  returned : Return → Outcome
  overrun : Outcome
  out_of_fuel : Outcome

-- The counts after a message of `count` bytes was written; they are uint64_t.
unfoldable pub written_off : SocketType → ℕ → Pending → Pending
written_off server count p = p
written_off peer count p = record {
  messages = (p.messages + 2 ^ 64 - 1) % 2 ^ 64;
  size = (p.size + 2 ^ 64 - count) % 2 ^ 64;
}

-- The message is written: there is none in progress.
unfoldable pub finished : Sender → ℕ → Sender
finished info count = record info {
  out = none;
  outpos = 0;
  outcount = 0;
  out_bytes = (info.out_bytes + count) % 2 ^ 64;
  out_messages = (info.out_messages + 1) % 2 ^ 64;
}

-- What follows the loop.
unfoldable pub write_drained : Sender → Pending → Drain → Outcome
write_drained info p (emptied count es sent) = returned (record {
  code = ok tt;
  more = true;
  info = finished info count;
  pending = written_off info.type count p;
  events = es;
  sent = sent;
})
write_drained info p (stuffed count es sent) = returned (record {
  code = ok tt;
  more = false;
  info = record info { outpos = count };
  pending = p;
  events = es;
  sent = sent;
})
write_drained info p (lost es sent) = returned (record {
  code = err err_intern;
  more = false;
  info = info;
  pending = p;
  events = es;
  sent = sent;
})
write_drained info p overrun = Outcome.overrun

abbrev pub message_of : Option (List ℕ) → List ℕ
message_of none = []
message_of (some m) = m

abbrev pub write_prepared : Pending → List WriteEvent → List ℕ → Bool × Sender → Outcome
write_prepared p es sent (false, info) = returned (record {
  code = ok tt;
  more = false;
  info = ensure_state_ro info;
  pending = p;
  events = es;
  sent = sent;
})
write_prepared p es sent (true, info) =
    write_drained info p (drain es info.outcount (message_of info.out) info.outpos sent)

-- The last list holds the bytes that the kernel took before.
unfoldable pub nonblock_write_message : Sender → Pending → List WriteEvent → List ℕ → Outcome
nonblock_write_message info p es sent = write_prepared p es sent (prepare_message info)

-- The test at the end of the `do` loop.
unfoldable pub write_again :
    (Sender → Pending → List WriteEvent → List ℕ → Outcome) → Outcome → Outcome
write_again recall (returned r) =
    if r.more && succeeded r.code then recall r.info r.pending r.events r.sent else returned r
write_again recall overrun = overrun
write_again recall out_of_fuel = out_of_fuel

-- The fuel bounds the rounds of the `do` loop.
unfoldable pub nonblock_write_messages : ℕ → Sender → Pending → List WriteEvent → List ℕ → Outcome
nonblock_write_messages zero info p es sent = out_of_fuel
nonblock_write_messages (suc fuel) info p es sent =
    write_again (nonblock_write_messages fuel) (nonblock_write_message info p es sent)

-- ===== src/Gateway/Read.antt =====
-- nonblock_read_message and nonblock_read_messages of src/backend/gateway.c.
--
-- `socket` is what the kernel will do at the next calls of read and the bytes that it will give.
-- Where malloc and realloc give memory is a parameter. A read into a header that malloc did not give
-- fails with EFAULT, once there is something to read.
use e_salsa_mpi.Prelude.{
  ℕ, zero, suc, ◌+◌, ◌-◌, ◌%◌, ◌^◌, ◌==◌, ltb, if◌then◌else◌, Bool, true, false, not, ◌&&◌, Option,
  none, some, List, [], ◌∷◌, ◌++◌, length, take, drop, ◌≡◌,
}
use Prim.Native.Nat.{min}
use e_salsa_mpi.Codes.{Result, ok, err, err_intern}
use e_salsa_mpi.Gateway.Socket.{
  SocketInfo, ReadEvent, ready, again, eof, broken, header_size, length_field,
}

pub record Socket : Type 0 where
  pub events : List ReadEvent
  pub stream : List ℕ

-- Whether malloc gives memory for the header of a message and for its node in the queue, where the
-- argument is the number of messages before it (in_messages), and whether realloc gives a block of a
-- length.
pub record Memory : Type 0 where
  pub header : ℕ → Bool
  pub node : ℕ → Bool
  pub realloc : ℕ → Bool

-- There is memory for every node of the queue.
abbrev pub HasNodes : Memory → Type 0
HasNodes mem = (k : ℕ) → mem.node k ≡ true

-- How the `while` loop of reads ends: with `count` at `incount`, without more data, or in an error.
-- The number is `count`, the list what stands in the buffer.
pub data Fill : Type 0 where
  full : ℕ → List ℕ → Socket → Fill
  blocked : ℕ → List ℕ → Socket → Fill
  lost : Fill

-- A read that the kernel serves with at most `k + 1` bytes; without a byte it gives EAGAIN.
abbrev pub read_ready :
    (ℕ → List ℕ → List ℕ → Fill) → List ReadEvent → ℕ → ℕ → List ℕ → ℕ → List ℕ → Fill
read_ready further es incount count buf k [] =
    blocked count buf (record { events = es; stream = [] })
read_ready further es incount count buf k (x ∷ xs) =
    let n = min (incount - count) (suc k) in
    let got = take n (x ∷ xs) in further (count + length got) (buf ++ got) (drop n (x ∷ xs))

-- When no event is left, read gives EAGAIN.
unfoldable pub fill : List ReadEvent → ℕ → ℕ → List ℕ → List ℕ → Fill
fill [] incount count buf stream =
    if ltb count incount
    then blocked count buf (record { events = []; stream = stream })
    else full count buf (record { events = []; stream = stream })
fill (ready k ∷ es) incount count buf stream =
    let rest = read_ready (fill es incount) es incount count buf k stream in
    if ltb count incount
    then rest
    else full count buf (record { events = ready k ∷ es; stream = stream })
fill (again ∷ es) incount count buf stream =
    if ltb count incount
    then blocked count buf (record { events = es; stream = stream })
    else full count buf (record { events = again ∷ es; stream = stream })
fill (eof ∷ es) incount count buf stream =
    if ltb count incount
    then lost
    else full count buf (record { events = eof ∷ es; stream = stream })
fill (broken ∷ es) incount count buf stream =
    if ltb count incount
    then lost
    else full count buf (record { events = broken ∷ es; stream = stream })

-- The same loop where the header is NULL: it needs at least one byte, and a byte that arrives cannot be
-- stored.
unfoldable pub fill_null : List ReadEvent → List ℕ → Fill
fill_null [] stream = blocked 0 [] (record { events = []; stream = stream })
fill_null (ready k ∷ es) [] = blocked 0 [] (record { events = es; stream = [] })
fill_null (ready k ∷ es) (x ∷ stream) = lost
fill_null (again ∷ es) stream = blocked 0 [] (record { events = es; stream = stream })
fill_null (eof ∷ es) stream = lost
fill_null (broken ∷ es) stream = lost

-- MAX_SOCKETS_READ_SEQUENCE
abbrev pub max_sockets_read_sequence : ℕ
max_sockets_read_sequence = 2

-- What a call returns: the code, `*more`, the socket_info and the socket.
pub record Return : Type 0 where
  pub code : Result (Unit {0})
  pub more : Bool
  pub info : SocketInfo
  pub socket : Socket

-- `invalid` is a read of the header behind the end of its buffer.
pub data Outcome : Type 0 where
  returned : Return → Outcome
  invalid : Outcome
  out_of_fuel : Outcome

abbrev pub returns : Result (Unit {0}) → Bool → SocketInfo → Socket → Outcome
returns c m i s = returned (record { code = c; more = m; info = i; socket = s })

-- The message in the buffer goes to the queue, and no message is in progress. message_enqueue fails
-- without memory for the node; its result is ignored, and the message is lost.
unfoldable pub queue_message : Bool → SocketInfo → ℕ → List ℕ → ℕ → SocketInfo
queue_message node info count buf incount = record info {
  inbuf = none;
  inpos = 0;
  incount = incount;
  in_bytes = (info.in_bytes + count) % 2 ^ 64;
  in_messages = (info.in_messages + 1) % 2 ^ 64;
  in_queue = if node then info.in_queue ++ buf ∷ [] else info.in_queue;
}

-- After `info->in = realloc(info->in, len)` and the lines behind it; a smaller block keeps the first
-- `len` bytes only.
unfoldable pub grown : SocketInfo → ℕ → List ℕ → ℕ → SocketInfo
grown info count buf len = record info { inbuf = some (take len buf); inpos = count; incount = len }

unfoldable pub started_at : SocketInfo → Option (List ℕ) → SocketInfo
started_at info none = record info { inbuf = some []; inpos = 0; incount = header_size }
started_at info (some buf) = info

-- The first lines: an empty header is allocated when no message is in progress.
unfoldable pub started : SocketInfo → SocketInfo
unfolding started_at
started info = started_at info info.inbuf

-- `error == MPI_SUCCESS`
abbrev pub succeeded : Result (Unit {0}) → Bool
succeeded (ok _) = true
succeeded (err e) = false

abbrev pub buffer : Option (List ℕ) → List ℕ
buffer none = []
buffer (some buf) = buf

module _ (mem : Memory) where
  -- What follows the loop when `count` has reached `incount`; `recall` is the recursive call.
  unfoldable pub read_full :
      (SocketInfo → Socket → Outcome) → SocketInfo → ℕ → List ℕ → Socket → Outcome
  read_full recall info count buf socket =
      if ltb count header_size
      then returns (err err_intern) false info socket
      else if ltb header_size count
      then returns (ok tt) true (queue_message (mem.node info.in_messages) info count buf 0) socket
      else if ltb (length buf) header_size
      then invalid
      else let len = length_field info.type buf in
        if len == header_size
        then returns (ok tt) true
            (queue_message (mem.node info.in_messages) info count buf header_size) socket
        else if mem.realloc len
        then recall (grown info count buf len) socket
        else returns (err err_intern) false
            (record info { inbuf = none; inpos = count; incount = len }) socket

  unfoldable pub read_filled :
      (SocketInfo → Socket → Outcome) → SocketInfo → Socket → Fill → Outcome
  read_filled recall info socket (full count buf rest) = read_full recall info count buf rest
  read_filled recall info socket (blocked count buf rest) =
      returns (ok tt) false (record info { inbuf = some buf; inpos = count }) rest
  read_filled recall info socket lost = returns (err err_intern) false info socket

  -- A call that finds no message in progress, and for which malloc gives no header: `info` has been set
  -- for one.
  unfoldable pub read_null : SocketInfo → Socket → Fill → Outcome
  read_null info socket (full count buf rest) = invalid
  read_null info socket (blocked count buf rest) =
      returns (ok tt) false (record info { inbuf = none; inpos = 0; incount = header_size }) rest
  read_null info socket lost =
      returns (err err_intern) false
        (record info { inbuf = none; inpos = 0; incount = header_size }) socket

  -- Is a header needed, and not given?
  abbrev pub no_header : SocketInfo → Option (List ℕ) → Bool
  no_header info none = not (mem.header info.in_messages)
  no_header info (some buf) = false

  -- The fuel is for the recursive call that reads the rest of a message.
  unfoldable pub nonblock_read_message : ℕ → SocketInfo → Socket → Outcome
  nonblock_read_message zero info socket = out_of_fuel
  nonblock_read_message (suc fuel) info socket =
      let begun = started info in
      let result =
        read_filled (nonblock_read_message fuel) begun socket
          (fill socket.events begun.incount begun.inpos (buffer begun.inbuf) socket.stream) in
      if no_header info info.inbuf
      then read_null info socket (fill_null socket.events socket.stream)
      else result

  -- The test at the end of the `do` loop, and what it leads to.
  unfoldable pub read_again : (SocketInfo → Socket → Outcome) → Bool → Outcome → Outcome
  read_again recall last (returned r) =
      if r.more && succeeded r.code && not last then recall r.info r.socket else returned r
  read_again recall last invalid = invalid
  read_again recall last out_of_fuel = out_of_fuel

  -- The `do` loop with the number of rounds that `count` still allows.
  unfoldable pub read_rounds : ℕ → ℕ → SocketInfo → Socket → Outcome
  read_rounds fuel zero info socket = out_of_fuel
  read_rounds fuel (suc n) info socket =
      read_again (read_rounds fuel n) (n == 0) (nonblock_read_message fuel info socket)

  unfoldable pub nonblock_read_messages : ℕ → SocketInfo → Socket → Outcome
  nonblock_read_messages fuel info socket = read_rounds fuel max_sockets_read_sequence info socket

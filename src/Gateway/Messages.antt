-- ===== src/Gateway/Messages.antt =====
-- nonblock_read_messages, and a socket from its initialization on.
use e_salsa_mpi.Prelude.{
  ℕ, zero, suc, ◌==◌, if◌then◌else◌, Bool, true, false, not, ◌&&◌, List, ◌≡◌, refl, sym, arith,
}
use mathlib.Core.Bool.{false≢true}
use e_salsa_mpi.Codes.{Result, ok, err}
use e_salsa_mpi.Gateway.Socket.{SocketType, SocketInfo, init_socket_info}
use e_salsa_mpi.Gateway.Read.{
  Memory, HasNodes, Socket, Return, Outcome, returned, invalid, out_of_fuel, succeeded, read_again,
  read_rounds, nonblock_read_messages,
}
use e_salsa_mpi.Gateway.Assembly.{joined, AllMessages, Assembles, Assembled, AssembledBy}
use e_salsa_mpi.Gateway.Message.{nonblock_read_message-Assembles}

-- The call returns, and where it succeeds the messages are still taken over whole and in order.
abbrev pub Keeps : List (List ℕ) → Result (Unit {0}) → Return → Type 0
Keeps msgs (ok _) r = Assembles msgs r.info r.socket.stream
Keeps msgs (err e) r = Unit {0}

abbrev pub KeptBy : List (List ℕ) → Outcome → Type 0
KeptBy msgs (returned r) = Keeps msgs r.code r
KeptBy msgs invalid = ⊥
KeptBy msgs out_of_fuel = ⊥

-- A socket_info from init_socket_info, and a stream that is the bytes of a list of messages, each
-- of at least a header and with its own size in the length field: the empty queue and the stream
-- make up these messages.
pub init_socket_info-Assembles :
    (type : SocketType) (msgs : List (List ℕ))
    → AllMessages type msgs
    → Assembles msgs (init_socket_info type) (joined msgs)
unfolding init_socket_info
init_socket_info-Assembles type msgs wf = record {
  rest = msgs;
  queued = refl;
  bytes = refl;
  messages = wf;
  phase = tt;
}

module _ (mem : Memory) (nodes : HasNodes mem) (fuel : ℕ) (msgs : List (List ℕ)) where
  Keeps-Assembled :
      (info : SocketInfo) (c : Result (Unit {0})) (r : Return)
      → Assembled msgs info c r
      → Keeps msgs c r
  Keeps-Assembled info (ok _) r a = a.0
  Keeps-Assembled info (err e) r a = tt

  succeeded-Assembles :
      (info : SocketInfo) (c : Result (Unit {0})) (r : Return)
      → succeeded c ≡ true
      → Assembled msgs info c r
      → Assembles msgs r.info r.socket.stream
  succeeded-Assembles info (ok _) r h a = a.0
  succeeded-Assembles info (err e) r h a = absurd (false≢true h)

  KeptBy-if :
      (b : Bool) (x y : Outcome)
      → (b ≡ true → KeptBy msgs x)
      → KeptBy msgs y
      → KeptBy msgs (if b then x else y)
  KeptBy-if true x y h k = h refl
  KeptBy-if false x y h k = k

  and_left : (a b c : Bool) → (a && b && c) ≡ true → b ≡ true
  and_left a b c h = ground arith

  not_last : (a b c : Bool) → (a && b && not c) ≡ true → c ≡ false
  not_last a b c h = ground arith

  round-Keeps :
      (n : ℕ) (info : SocketInfo) (o : Outcome)
      → AssembledBy msgs info o
      → ((i : SocketInfo) (s : Socket)
          → Assembles msgs i s.stream
          → (n == 0) ≡ false
          → KeptBy msgs (read_rounds mem (suc (suc fuel)) n i s))
      → KeptBy msgs (read_again mem (read_rounds mem (suc (suc fuel)) n) (n == 0) o)
  unfolding read_again
  round-Keeps n info (returned r) a further =
      KeptBy-if (r.more && succeeded r.code && not (n == 0)) _ (returned r)
        (λ h.
          further r.info r.socket (succeeded-Assembles info r.code r (and_left r.more _ _ h) a)
            (not_last r.more _ _ h))
        (Keeps-Assembled info r.code r a)
  round-Keeps n info invalid a further = a
  round-Keeps n info out_of_fuel a further = a

  rounds-Keeps :
      (n : ℕ) (info : SocketInfo) (socket : Socket)
      → Assembles msgs info socket.stream
      → (n == 0) ≡ false
      → KeptBy msgs (read_rounds mem (suc (suc fuel)) n info socket)
  unfolding read_rounds
  rounds-Keeps zero info socket a h = absurd (false≢true (sym h))
  rounds-Keeps (suc n) info socket a h =
      round-Keeps n info _ (nonblock_read_message-Assembles mem nodes fuel msgs info socket a)
        (rounds-Keeps n)

  -- Where malloc gives memory for the nodes of the queue, and the queue and the bytes still to
  -- come make up the messages `msgs`: nonblock_read_messages returns, with fuel of at least 2 for
  -- each message, and no read goes behind a buffer. If it returns EMPI_SUCCESS, the queue and the
  -- bytes still to come again make up `msgs`.
  pub nonblock_read_messages-Keeps :
      (info : SocketInfo) (socket : Socket)
      → Assembles msgs info socket.stream
      → KeptBy msgs (nonblock_read_messages mem (suc (suc fuel)) info socket)
  unfolding nonblock_read_messages
  nonblock_read_messages-Keeps info socket a = rounds-Keeps 2 info socket a refl

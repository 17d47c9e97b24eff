-- ===== src/Gateway/Assembly.antt =====
-- nonblock_read_message puts exactly the messages of the byte stream into the queue, whole and in
-- order, wherever the reads cut the stream.
use e_salsa_mpi.Prelude.{
  ℕ, ◌+◌, ◌≤◌, ◌<◌, if◌then◌else◌, true, false, Option, none, some, List, [], ◌∷◌, ◌++◌, length,
  length-append, append_assoc, append-nil, ◌≡◌, ◌⊎◌, ◌∙◌, refl, sym, ap, arith,
}
use e_salsa_mpi.Codes.{Result, ok, err}
use e_salsa_mpi.Gateway.Socket.{SocketType, SocketInfo, header_size, length_field}
use e_salsa_mpi.Gateway.Read.{
  Socket, Return, Outcome, returned, invalid, out_of_fuel, buffer, queue_message,
}
use e_salsa_mpi.Gateway.Framing.{append-split, length_field-append}

abbrev pub joined : List (List ℕ) → List ℕ
joined [] = []
joined (m ∷ ms) = m ++ joined ms

-- The header is there, and its length field is the size of the message.
abbrev pub IsMessage : SocketType → List ℕ → Type 0
IsMessage type m = (header_size ≤ length m) × (length_field type m ≡ length m)

abbrev pub AllMessages : SocketType → List (List ℕ) → Type 0
AllMessages type [] = Unit {0}
AllMessages type (m ∷ ms) = IsMessage type m × AllMessages type ms

-- How far the message in progress is: in its header, or behind it with the length known.
abbrev pub Phase : SocketType → ℕ → ℕ → Option (List ℕ) → Type 0
Phase type inpos incount none = Unit {0}
Phase type inpos incount (some buf) =
    (inpos ≡ length buf)
    × (((incount ≡ header_size) × (inpos < header_size))
        ⊎ ((header_size ≤ inpos) × (inpos < incount) × (incount ≡ length_field type buf)))

-- The queue holds the first of the messages `msgs`; the buffer and the bytes to come make up the
-- others, `rest`.
pub record Assembles (msgs : List (List ℕ)) (info : SocketInfo) (stream : List ℕ) : Type 0 where
  pub rest : List (List ℕ)
  pub queued : info.in_queue ++ rest ≡ msgs
  pub bytes : buffer info.inbuf ++ stream ≡ joined rest
  pub messages : AllMessages info.type rest
  pub phase : Phase info.type info.inpos info.incount info.inbuf

-- A call that succeeds keeps this, and queues one message if it sets `*more`, else none.
abbrev pub Assembled : List (List ℕ) → SocketInfo → Result (Unit {0}) → Return → Type 0
Assembled msgs info (ok _) r =
    Assembles msgs r.info r.socket.stream
    × (length r.info.in_queue ≡ length info.in_queue + (if r.more then 1 else 0))
    × (r.info.type ≡ info.type)
Assembled msgs info (err e) r = r.more ≡ false

abbrev pub AssembledBy : List (List ℕ) → SocketInfo → Outcome → Type 0
AssembledBy msgs info (returned r) = Assembled msgs info r.code r
AssembledBy msgs info invalid = ⊥
AssembledBy msgs info out_of_fuel = ⊥

-- The message at the front of the bytes, from its own length.
pub front :
    (type : SocketType) (m xs buf ys : List ℕ)
    → IsMessage type m
    → m ++ xs ≡ buf ++ ys
    → header_size ≤ length buf
    → length m ≡ length_field type buf
front type m xs buf ys (long, len) e h =
    sym len
    ∙ sym (length_field-append type m xs long)
    ∙ ap (length_field type) e
    ∙ length_field-append type buf ys h

pub front_whole :
    (m xs buf ys : List ℕ) → m ++ xs ≡ buf ++ ys → length m ≡ length buf → (m ≡ buf) × (ys ≡ xs)
front_whole m xs buf ys e h =
    let (us, p, q) = append-split m xs buf ys e (omega arith) in no_more us p q
  where
    no_more : (us : List ℕ) → m ≡ buf ++ us → ys ≡ us ++ xs → (m ≡ buf) × (ys ≡ xs)
    no_more [] p q = (p ∙ append-nil buf, q)
    no_more (u ∷ us) p q =
        absurd (omega (arith, ap (length {A = ℕ}) p, length-append {0} buf (u ∷ us)))

-- Queueing the whole first message, with memory for its node.
pub queue_message-Assembles :
    (b : SocketInfo) (count : ℕ) (buf : List ℕ) (incount : ℕ) (msgs : List (List ℕ)) (m : List ℕ)
    (rest : List (List ℕ)) (socket : Socket)
    → b.in_queue ++ m ∷ rest ≡ msgs
    → AllMessages b.type (m ∷ rest)
    → m ≡ buf
    → socket.stream ≡ joined rest
    → Assembled msgs b (ok tt) (record {
      code = ok tt;
      more = true;
      info = queue_message true b count buf incount;
      socket = socket;
    })
unfolding queue_message
queue_message-Assembles b count buf incount msgs m rest socket q (_, wf) same e = (
  record {
    rest = rest;
    queued =
        append_assoc b.in_queue (buf ∷ []) rest ∙ ap (λ x. b.in_queue ++ x ∷ rest) (sym same) ∙ q;
    bytes = e;
    messages = wf;
    phase = tt;
  },
  length-append b.in_queue (buf ∷ []),
  refl,
)

-- ===== src/Gateway/Link.antt =====
-- A socket between two gateways: what nonblock_write_messages writes on one side is what
-- nonblock_read_messages reads on the other.
use e_salsa_mpi.Prelude.{
  ℕ, suc, Option, none, some, List, [], ◌∷◌, ◌++◌, drop, append_assoc, append-nil, ◌≡◌, ◌∙◌, refl,
  sym, ap, subst, arith,
}
use e_salsa_mpi.Codes.{ok}
use e_salsa_mpi.Gateway.Socket.{SocketType, SocketInfo, ReadEvent, init_socket_info}
use e_salsa_mpi.Gateway.Read.{Memory, nonblock_read_messages, buffer}
use e_salsa_mpi.Gateway.Assembly.{joined, IsMessage, AllMessages, Assembles}
use e_salsa_mpi.Gateway.Write.{
  Sender, Pending, WriteEvent, prepare_message, prepare_next, prepare_out, prepare_socket,
  init_sender, ensure_state_ro, ensure_state_rw, ensure_state, nonblock_write_messages,
}
use e_salsa_mpi.Gateway.Writes.{unsent, unwritten, Sends, work}
use e_salsa_mpi.Gateway.Read
use e_salsa_mpi.Gateway.Write

-- The two ends of a socket, the bytes that are written and not yet read, and all messages that were
-- queued for it from the start.
pub record Link : Type 0 where
  pub sender : Sender
  pub wire : List ℕ
  pub receiver : SocketInfo
  pub queued : List (List ℕ)

-- A socket after init_socket_info on both sides.
abbrev pub new_link : SocketType → Link
new_link type = record {
  sender = init_sender type;
  wire = [];
  receiver = init_socket_info type;
  queued = [];
}

-- What happens on a link, in any order: a message is queued, the socket is prepared for writing, and
-- calls of nonblock_write_messages and nonblock_read_messages that succeed. The kernel gives no byte
-- that was not written before.
pub data Step (mem : Memory) : Link → Link → Type 0 where
  enqueue :
      (l : Link) (m : List ℕ)
      → IsMessage l.sender.type m
      → IsMessage l.receiver.type m
      → Step mem l (record l {
        sender = record l.sender { out_queue = l.sender.out_queue ++ m ∷ [] };
        queued = l.queued ++ m ∷ [];
      })
  prepare : (l : Link) → Step mem l (record l { sender = prepare_socket l.sender })
  write :
      (l : Link) (p : Pending) (es : List WriteEvent) (r : Write.Return)
      → nonblock_write_messages (suc (work l.sender)) l.sender p es l.wire
        ≡ Write.Outcome.returned r
      → r.code ≡ ok tt
      → Step mem l (record l { sender = r.info; wire = r.sent })
  read :
      (l : Link) (es : List ReadEvent) (r : Read.Return) (wire : List ℕ)
      → nonblock_read_messages mem 2 l.receiver
          (record { events = es; stream = l.wire ++ unwritten l.sender })
        ≡ Read.Outcome.returned r
      → r.code ≡ ok tt
      → r.socket.stream ≡ wire ++ unwritten l.sender
      → Step mem l (record l { receiver = r.info; wire = wire })

pub data Reach (mem : Memory) (start : Link) : Link → Type 0 where
  here : Reach mem start start
  next : {l k : Link} → Reach mem start l → Step mem l k → Reach mem start k

-- The receiver's queue, its buffer, the wire and what the sender has make up the queued messages.
pub record Carries (l : Link) : Type 0 where
  pub sends : Sends (l.wire ++ unwritten l.sender) l.sender l.wire
  pub assembles : Assembles l.queued l.receiver (l.wire ++ unwritten l.sender)

joined-append : (ms : List (List ℕ)) (m : List ℕ) → joined (ms ++ m ∷ []) ≡ joined ms ++ m
joined-append [] m = append-nil m
joined-append (x ∷ ms) m = ap (◌++◌ x) (joined-append ms m) ∙ sym (append_assoc x (joined ms) m)

pub AllMessages-append :
    (type : SocketType) (ms : List (List ℕ)) (m : List ℕ)
    → AllMessages type ms
    → IsMessage type m
    → AllMessages type (ms ++ m ∷ [])
AllMessages-append type [] m a h = (h, tt)
AllMessages-append type (x ∷ ms) m (hx, a) h = (hx, AllMessages-append type ms m a h)

pub unsent-append :
    (queue : List (List ℕ)) (outpos : ℕ) (out : Option (List ℕ)) (m : List ℕ)
    → unsent (queue ++ m ∷ []) outpos out ≡ unsent queue outpos out ++ m
unsent-append queue outpos none m = joined-append queue m
unsent-append queue outpos (some o) m =
    ap (◌++◌ (drop outpos o)) (joined-append queue m)
    ∙ sym (append_assoc (drop outpos o) (joined queue) m)

-- Bytes of one more message at the end of the stream.
pub Assembles-append :
    (msgs : List (List ℕ)) (m : List ℕ) (info : SocketInfo) (stream : List ℕ)
    → Assembles msgs info stream
    → IsMessage info.type m
    → Assembles (msgs ++ m ∷ []) info (stream ++ m)
Assembles-append msgs m info stream a h = record {
  rest = a.rest ++ m ∷ [];
  queued = sym (append_assoc info.in_queue a.rest (m ∷ [])) ∙ ap (λ l. l ++ m ∷ []) a.queued;
  bytes =
      sym (append_assoc (buffer info.inbuf) stream m)
      ∙ ap (λ l. l ++ m) a.bytes
      ∙ sym (joined-append a.rest m);
  messages = AllMessages-append info.type a.rest m a.messages h;
  phase = a.phase;
}

-- prepare_message only moves the next message.
pub prepare_socket-Sends :
    (total : List ℕ) (info : Sender) (sent : List ℕ)
    → Sends total info sent
    → Sends total (prepare_socket info) sent × (unwritten (prepare_socket info) ≡ unwritten info)
unfolding prepare_socket prepare_message prepare_next ensure_state_ro ensure_state_rw
prepare_socket-Sends total info sent h = by_out info.out refl
  where
    Prepared : Sender → Type 0
    Prepared x = Sends total x sent × (unwritten x ≡ unwritten info)

    by_queue :
        (q : List (List ℕ))
        → info.out ≡ none
        → info.out_queue ≡ q
        → Prepared (ensure_state (prepare_next info q))
    by_queue [] o q = (record { bytes = h.bytes; queue = h.queue; current = h.current }, refl)
    by_queue (m ∷ queue) o q =
        let (wf, rest) = subst (AllMessages info.type) q h.queue in
        let same : joined (m ∷ queue) ≡ unwritten info =
          ap joined (sym q) ∙ ap (unsent info.out_queue info.outpos) (sym o) in
        (
          record {
            bytes = ap (◌++◌ sent) same ∙ h.bytes;
            queue = rest;
            current = (wf.1, omega arith);
          },
          same,
        )

    by_out : (x : Option (List ℕ)) → info.out ≡ x → Prepared (ensure_state (prepare_out info x))
    by_out none o = by_queue info.out_queue o refl
    by_out (some m) o = (record { bytes = h.bytes; queue = h.queue; current = h.current }, refl)

-- ===== src/Gateway/Delivery.antt =====
-- A link between two gateways delivers the queued messages whole, in order and without loss.
use e_salsa_mpi.Prelude.{
  ℕ, suc, Option, none, some, List, [], ◌∷◌, ◌++◌, length, length-append, append_assoc, append-nil,
  ◌≡◌, ◌∙◌, refl, sym, ap, ap₂, subst, inl, inr, arith,
}
use e_salsa_mpi.Gateway.Socket.{SocketType}
use e_salsa_mpi.Gateway.Read.{Memory, HasNodes, buffer}
use e_salsa_mpi.Gateway.Assembly.{joined, AllMessages, Assembles, Phase, front}
use e_salsa_mpi.Gateway.Messages.{
  Keeps, KeptBy, init_socket_info-Assembles, nonblock_read_messages-Keeps,
}
use e_salsa_mpi.Gateway.Write.{init_sender}
use e_salsa_mpi.Gateway.Writes.{
  unsent, unwritten, IsIdle, work, Ended, EndedBy, nonblock_write_messages-EndedBy,
}
use e_salsa_mpi.Gateway.Link.{
  Link, new_link, Step, enqueue, prepare, write, read, Reach, here, next, Carries, Assembles-append,
  AllMessages-append, unsent-append, prepare_socket-Sends,
}

module _ (mem : Memory) (nodes : HasNodes mem) where
  Step-Carries : {l k : Link} → Step mem l k → Carries l → Carries k
  Step-Carries (enqueue l m sent received) c =
      let more : l.wire ++ (unwritten l.sender ++ m) ≡ (l.wire ++ unwritten l.sender) ++ m =
        sym (append_assoc l.wire (unwritten l.sender) m) in
      let tail = unsent-append l.sender.out_queue l.sender.outpos l.sender.out m in
      record {
        sends = record {
          bytes = refl;
          queue = AllMessages-append l.sender.type l.sender.out_queue m c.sends.queue sent;
          current = c.sends.current;
        };
        assembles =
            subst (Assembles (l.queued ++ m ∷ []) l.receiver) (sym (ap (◌++◌ l.wire) tail ∙ more)) (
              Assembles-append l.queued m l.receiver (l.wire ++ unwritten l.sender) c.assembles
                received);
      }
  Step-Carries (prepare l) c =
      let (h, same) = prepare_socket-Sends (l.wire ++ unwritten l.sender) l.sender l.wire c.sends in
      record {
        sends = record { bytes = refl; queue = h.queue; current = h.current };
        assembles = subst (Assembles l.queued l.receiver) (sym h.bytes) c.assembles;
      }
  Step-Carries (write l p es r e code) c =
      let ended = subst (EndedBy (l.wire ++ unwritten l.sender)) e (
        nonblock_write_messages-EndedBy (l.wire ++ unwritten l.sender) (suc (work l.sender))
          l.sender p es l.wire c.sends (omega arith)) in
      let (h, _) = subst (λ x. Ended (l.wire ++ unwritten l.sender) x r) code ended in
      record {
        sends = record { bytes = refl; queue = h.queue; current = h.current };
        assembles = subst (Assembles l.queued l.receiver) (sym h.bytes) c.assembles;
      }
  Step-Carries (read l es r wire e code stream) c =
      let kept =
        subst (KeptBy l.queued) e
          (nonblock_read_messages-Keeps mem nodes 0 l.queued l.receiver _ c.assembles) in
      let a = subst (λ x. Keeps l.queued x r) code kept in
      record {
        sends = record { bytes = refl; queue = c.sends.queue; current = c.sends.current };
        assembles = subst (Assembles l.queued r.info) stream a;
      }

  new_link-Carries : (type : SocketType) → Carries (new_link type)
  unfolding init_sender
  new_link-Carries type = record {
    sends = record { bytes = refl; queue = tt; current = tt };
    assembles = init_socket_info-Assembles type [] tt;
  }

  Reach-Carries : {start l : Link} → Carries start → Reach mem start l → Carries l
  Reach-Carries h here = h
  Reach-Carries h (next r step) = Step-Carries step (Reach-Carries h r)

  -- Whatever happens on a new link, where malloc gives memory for the nodes of the receiver's
  -- queue: the messages in this queue are the first ones of those that were queued on the other
  -- side, whole and in their order.
  pub Reach-prefix :
      (type : SocketType) (l : Link)
      → Reach mem (new_link type) l
      → (rest : List (List ℕ)) × (l.receiver.in_queue ++ rest ≡ l.queued)
  Reach-prefix type l r =
      let c = Reach-Carries (new_link-Carries type) r in (c.assembles.rest, c.assembles.queued)

  -- No message is complete in the buffer.
  no_rest :
      (msgs : List (List ℕ)) (type : SocketType) (inpos incount : ℕ) (o : Option (List ℕ))
      → Phase type inpos incount o
      → AllMessages type msgs
      → buffer o ++ [] ≡ joined msgs
      → msgs ≡ []
  no_rest [] type inpos incount o p a e = refl
  no_rest (m ∷ ms) type inpos incount none p ((h, _), a) e =
      absurd (omega (arith, ap (length {A = ℕ}) e, length-append {0} m (joined ms)))
  no_rest (m ∷ ms) type inpos incount (some buf) (at, inl (ic, lt)) ((h, _), a) e = absurd (
      omega (
        arith,
        at,
        ap (length {A = ℕ}) e,
        length-append {0} m (joined ms),
        length-append {0} buf [],
      ))
  no_rest (m ∷ ms) type inpos incount (some buf) (at, inr (ge, lt, ic)) (wf, a) e = absurd (
      omega (
        arith,
        at,
        ic,
        front type m (joined ms) buf [] wf (sym e) (omega (arith, at)),
        ap (length {A = ℕ}) e,
        length-append {0} m (joined ms),
        length-append {0} buf [],
      ))

  -- Whatever happened on a new link, where malloc gives memory for the nodes of the receiver's
  -- queue: once the sender has nothing to write and all bytes are read, this queue holds all
  -- messages that were queued on the other side, whole and in their order.
  pub Reach-delivered :
      (type : SocketType) (l : Link)
      → Reach mem (new_link type) l
      → IsIdle l.sender
      → l.wire ≡ []
      → l.receiver.in_queue ≡ l.queued
  Reach-delivered type l r (o, q, _) w =
      let a = (Reach-Carries (new_link-Carries type) r).assembles in
      let gone : l.wire ++ unwritten l.sender ≡ [] =
        ap₂ ◌++◌ w (ap (λ x. unsent l.sender.out_queue l.sender.outpos x) o ∙ ap joined q) in
      let none_left : a.rest ≡ [] =
        no_rest a.rest l.receiver.type l.receiver.inpos l.receiver.incount l.receiver.inbuf a.phase
          a.messages (ap (◌++◌ (buffer l.receiver.inbuf)) (sym gone) ∙ a.bytes) in
      sym (append-nil l.receiver.in_queue)
      ∙ ap (◌++◌ l.receiver.in_queue) (sym none_left)
      ∙ a.queued

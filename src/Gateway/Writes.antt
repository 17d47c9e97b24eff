-- ===== src/Gateway/Writes.antt =====
-- nonblock_write_message and nonblock_write_messages give the bytes of the queued messages to the
-- kernel, in order, and the loop ends.
use e_salsa_mpi.Prelude.{
  ℕ, zero, suc, ◌+◌, ◌≤◌, ◌<◌, if◌then◌else◌, Bool, true, false, ◌&&◌, Option, none, some, List, [],
  ◌∷◌, ◌++◌, length, drop, append_assoc, ◌≡◌, ◌⊎◌, ◌∙◌, refl, sym, ap, subst, inl, inr, arith,
}
use e_salsa_mpi.Codes.{Result, ok, err}
use e_salsa_mpi.Gateway.Socket.{length_field}
use e_salsa_mpi.Gateway.Read.{succeeded}
use e_salsa_mpi.Gateway.Assembly.{joined, AllMessages}
use e_salsa_mpi.Gateway.Write.{
  read_only, Sender, Pending, WriteEvent, Drain, emptied, stuffed, lost, overrun, drain,
  prepare_message, prepare_next, prepare_out, ensure_state_ro, finished, write_drained,
  write_prepared, message_of, Return, Outcome, returned, out_of_fuel, nonblock_write_message,
  write_again, nonblock_write_messages,
}
use e_salsa_mpi.Gateway.Sent.{Drained, drain-Drained}

-- The bytes that a sender has yet to write.
abbrev pub unsent : List (List ℕ) → ℕ → Option (List ℕ) → List ℕ
unsent queue outpos none = joined queue
unsent queue outpos (some m) = drop outpos m ++ joined queue

abbrev pub unwritten : Sender → List ℕ
unwritten info = unsent info.out_queue info.outpos info.out

abbrev pub InProgress : ℕ → ℕ → Option (List ℕ) → Type 0
InProgress outpos outcount none = Unit {0}
InProgress outpos outcount (some m) = (outcount ≡ length m) × (outpos ≤ outcount)

-- What was sent and what is to be written make up the bytes `total`.
pub record Sends (total : List ℕ) (info : Sender) (sent : List ℕ) : Type 0 where
  pub bytes : sent ++ unwritten info ≡ total
  pub queue : AllMessages info.type info.out_queue
  pub current : InProgress info.outpos info.outcount info.out

abbrev pub in_hand : Option (List ℕ) → ℕ
in_hand none = 0
in_hand (some m) = 1

-- The messages that a sender has yet to finish.
abbrev pub work : Sender → ℕ
work info = in_hand info.out + length info.out_queue

-- There is nothing to write, and epoll does not wait to write.
abbrev pub IsIdle : Sender → Type 0
IsIdle info = (info.out ≡ none) × (info.out_queue ≡ []) × (info.state ≡ read_only)

abbrev pub Progress : Sender → Sender → Bool → Type 0
Progress before info true = suc (work info) ≡ work before
Progress before info false = IsIdle info ⊎ (info.outpos < info.outcount)

-- A call that succeeds keeps the bytes, and has finished a message if it sets `*more`; else there is
-- nothing to write or the socket is full.
abbrev pub Wrote : List ℕ → Sender → Result (Unit {0}) → Return → Type 0
Wrote total info (ok _) r =
    Sends total r.info r.sent × Progress info r.info r.more × (r.info.type ≡ info.type)
Wrote total info (err e) r = r.more ≡ false

abbrev pub WrittenBy : List ℕ → Sender → Outcome → Type 0
WrittenBy total info (returned r) = Wrote total info r.code r
WrittenBy total info Outcome.overrun = ⊥
WrittenBy total info out_of_fuel = ⊥

module _ (total : List ℕ) where
  write_drained-WrittenBy :
      (before info : Sender) (m : List ℕ) (p : Pending) (sent : List ℕ) (d : Drain)
      → info.out ≡ some m
      → work info ≡ work before
      → info.type ≡ before.type
      → Sends total info sent
      → Drained info.outcount m info.outpos sent d
      → WrittenBy total before (write_drained info p d)
  unfolding write_drained finished
  write_drained-WrittenBy before info m p sent (emptied c es s) o w ty h (e, b) = (
    record {
      bytes =
          ap (λ l. l ++ joined info.out_queue) b
          ∙ append_assoc sent (drop info.outpos m) (joined info.out_queue)
          ∙ ap (λ x. sent ++ unsent info.out_queue info.outpos x) (sym o)
          ∙ h.bytes;
      queue = h.queue;
      current = tt;
    },
    omega (arith, w, ap in_hand o),
    ty,
  )
  write_drained-WrittenBy before info m p sent (stuffed c es s) o w ty h (l, b) = (
    record {
      bytes =
          ap (λ x. s ++ unsent info.out_queue c x) o
          ∙ sym (append_assoc s (drop c m) (joined info.out_queue))
          ∙ ap (λ x. x ++ joined info.out_queue) b
          ∙ append_assoc sent (drop info.outpos m) (joined info.out_queue)
          ∙ ap (λ x. sent ++ unsent info.out_queue info.outpos x) (sym o)
          ∙ h.bytes;
      queue = h.queue;
      current =
          subst (InProgress c info.outcount) (sym o)
            (current_size (subst (InProgress info.outpos info.outcount) o h.current) l);
    },
    inr l,
    ty,
  )
    where
      current_size :
          (info.outcount ≡ length m) × (info.outpos ≤ info.outcount)
          → c < info.outcount
          → (info.outcount ≡ length m) × (c ≤ info.outcount)
      current_size (e, _) l' = (e, omega arith)
  write_drained-WrittenBy before info m p sent (lost es s) o w ty h d = refl
  write_drained-WrittenBy before info m p sent overrun o w ty h d = d

  -- Writing the message in hand.
  write_prepared-WrittenBy :
      (before info : Sender) (m : List ℕ) (p : Pending) (es : List WriteEvent) (sent : List ℕ)
      → info.out ≡ some m
      → work info ≡ work before
      → info.type ≡ before.type
      → Sends total info sent
      → WrittenBy total before (write_prepared p es sent (true, info))
  write_prepared-WrittenBy before info m p es sent o w ty h =
      let (size, le) = subst (InProgress info.outpos info.outcount) o h.current in
      subst
        (λ x.
          WrittenBy total before
            (write_drained info p (drain es info.outcount (message_of x) info.outpos sent)))
        (sym o)
        (write_drained-WrittenBy before info m p sent (drain es info.outcount m info.outpos sent) o
          w ty h (drain-Drained info.outcount m size es info.outpos sent le))

  prepare_next-WrittenBy :
      (info : Sender) (queue : List (List ℕ)) (p : Pending) (es : List WriteEvent) (sent : List ℕ)
      → info.out ≡ none
      → info.out_queue ≡ queue
      → Sends total info sent
      → WrittenBy total info (write_prepared p es sent (prepare_next info queue))
  unfolding prepare_next ensure_state_ro
  prepare_next-WrittenBy info [] p es sent o q h =
      (record { bytes = h.bytes; queue = h.queue; current = h.current }, inl (o, q, refl), refl)
  prepare_next-WrittenBy info (m ∷ queue) p es sent o q h =
      let (wf, rest) = subst (AllMessages info.type) q h.queue in
      write_prepared-WrittenBy info
        (record info {
          out = some m;
          outpos = 0;
          outcount = length_field info.type m;
          out_queue = queue;
        })
        m p es sent refl (omega (arith, ap in_hand o, ap (length {A = List ℕ}) q)) refl
        (record {
          bytes =
              sym (
                ap (λ x. sent ++ unsent info.out_queue info.outpos x) o
                ∙ ap (λ x. sent ++ joined x) q)
              ∙ h.bytes;
          queue = rest;
          current = (wf.1, omega arith);
        })

  -- Where what was sent and what is to be written make up the bytes `total`,
  -- nonblock_write_message returns and writes from within the message. If it returns EMPI_SUCCESS,
  -- both again make up `total`, and it has finished one message if `*more` is set; if it is not, there
  -- is nothing left to write or the socket is full. If it returns an error, `*more` is not set.
  pub nonblock_write_message-WrittenBy :
      (info : Sender) (p : Pending) (es : List WriteEvent) (sent : List ℕ)
      → Sends total info sent
      → WrittenBy total info (nonblock_write_message info p es sent)
  unfolding nonblock_write_message prepare_message
  nonblock_write_message-WrittenBy info p es sent h = hand info.out refl
    where
      hand :
          (o : Option (List ℕ))
          → info.out ≡ o
          → WrittenBy total info (write_prepared p es sent (prepare_out info o))
      hand none o = prepare_next-WrittenBy info info.out_queue p es sent o refl h
      hand (some m) o = write_prepared-WrittenBy info info m p es sent o refl refl h

  -- The loop ends where there is nothing to write, at a full socket, or in an error.
  abbrev pub Ended : Result (Unit {0}) → Return → Type 0
  Ended (ok _) r = Sends total r.info r.sent × (IsIdle r.info ⊎ (r.info.outpos < r.info.outcount))
  Ended (err e) r = Unit {0}

  abbrev pub EndedBy : Outcome → Type 0
  EndedBy (returned r) = Ended r.code r
  EndedBy Outcome.overrun = ⊥
  EndedBy out_of_fuel = ⊥

  write_again-Ended :
      (info : Sender) (o : Outcome) (recall : Sender → Pending → List WriteEvent → List ℕ → Outcome)
      → WrittenBy total info o
      → ((i : Sender) (p : Pending) (es : List WriteEvent) (s : List ℕ)
          → Sends total i s
          → work i < work info
          → EndedBy (recall i p es s))
      → EndedBy (write_again recall o)
  unfolding write_again
  write_again-Ended info (returned r) recall w further = by_code r.code r.more refl refl w
    where
      by_code :
          (c : Result (Unit {0})) (b : Bool)
          → r.code ≡ c
          → r.more ≡ b
          → Wrote total info r.code r
          → EndedBy
              (if b && succeeded c then recall r.info r.pending r.events r.sent else returned r)
      by_code (ok _) true e m w' =
          let (h, pr, ty) = subst (λ x. Wrote total info x r) e w' in
          further r.info r.pending r.events r.sent h
            (omega (arith, subst (Progress info r.info) m pr))
      by_code (ok _) false e m w' =
          let (h, pr, ty) = subst (λ x. Wrote total info x r) e w' in
          subst (λ x. Ended x r) (sym e) (h, subst (Progress info r.info) m pr)
      by_code (err c) true e m w' = subst (λ x. Ended x r) (sym e) tt
      by_code (err c) false e m w' = subst (λ x. Ended x r) (sym e) tt
  write_again-Ended info Outcome.overrun recall w further = w
  write_again-Ended info out_of_fuel recall w further = w

  -- Where every queued message has its size in its length field, and what was sent and what is to
  -- be written make up the bytes `total`: nonblock_write_messages ends, after at most one round
  -- for each unfinished message and one more, and writes from within the messages. If it returns
  -- EMPI_SUCCESS, both again make up `total`, and there is nothing left to write or the socket is
  -- full.
  pub nonblock_write_messages-EndedBy :
      (fuel : ℕ) (info : Sender) (p : Pending) (es : List WriteEvent) (sent : List ℕ)
      → Sends total info sent
      → work info < fuel
      → EndedBy (nonblock_write_messages fuel info p es sent)
  unfolding nonblock_write_messages
  nonblock_write_messages-EndedBy zero info p es sent h lt = absurd (omega arith)
  nonblock_write_messages-EndedBy (suc fuel) info p es sent h lt =
      write_again-Ended info (nonblock_write_message info p es sent) (nonblock_write_messages fuel)
        (nonblock_write_message-WrittenBy info p es sent h)
        (λ i p' es' s h' less. nonblock_write_messages-EndedBy fuel i p' es' s h' (omega arith))

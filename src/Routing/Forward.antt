-- ===== src/Routing/Forward.antt =====
-- What is handed to MPI, in which order, and which sends poll_loop takes out of a list once they are
-- done.
use e_salsa_mpi.Prelude.{
  ℕ, ◌==◌, ==→eq, if◌then◌else◌, Bool, true, false, not, List, [], ◌∷◌, ◌++◌, map, append-nil,
  append_assoc, ◌≡◌, ◌∙◌, refl, sym, ap,
}
use e_salsa_mpi.Codes.{Code, mpi, err_intern, Result, ok, err}
use e_salsa_mpi.Pid.Defs.{get_cluster_rank, get_process_rank}
use e_salsa_mpi.Routing.Defs.{
  GenericMessage, SendCalls, Isent, MpiMessage, State, Outcome, returned, failed, fault,
  out_of_fuel, and_then, tag_forwarded_data_msg, isend, forward_mpi_message,
}
use e_salsa_mpi.Routing.Process.{
  forward_data_loop, forward_data_messages_to_mpi, TestCall, keep, poll_loop,
}

-- The send that a data message asks for.
abbrev pub data_send : GenericMessage → Isent
data_send m = record {
  message = m;
  len = m.header.length;
  rank = get_process_rank m.header.dst_pid;
  tag = tag_forwarded_data_msg;
}

-- All messages `q` were handed to MPI, after `before`; or those that stand before one message, which
-- is lost, and those behind it stay in the queue.
abbrev pub Forwards : List Isent → List GenericMessage → Outcome (Unit {0}) → Type 0
Forwards before q (returned _ s) = (s.sent ≡ before ++ map data_send q) × (s.incoming_queue ≡ [])
Forwards before q (failed e s) =
    (front : List GenericMessage) × (m : GenericMessage) × (q ≡ front ++ m ∷ s.incoming_queue)
    × (s.sent ≡ before ++ map data_send front)
Forwards before q fault = ⊥
Forwards before q out_of_fuel = ⊥

-- One more message is sent before.
Forwards-cons :
    (before : List Isent) (m : GenericMessage) (q : List GenericMessage) (o : Outcome (Unit {0}))
    → Forwards (before ++ data_send m ∷ []) q o
    → Forwards before (m ∷ q) o
Forwards-cons before m q (returned _ s) (e, i) =
    (e ∙ append_assoc before (data_send m ∷ []) (map data_send q), i)
Forwards-cons before m q (failed c s) (front, x, e, f) =
    (m ∷ front, x, ap (◌∷◌ m) e, f ∙ append_assoc before (data_send m ∷ []) (map data_send front))
Forwards-cons before m q fault h = absurd h
Forwards-cons before m q out_of_fuel h = absurd h

-- The first message fails.
Forwards-fails :
    (e : Code) (m : GenericMessage) (q : List GenericMessage) (s : State)
    → s.incoming_queue ≡ q
    → Forwards s.sent (m ∷ q) (failed e s)
Forwards-fails e m q s i = ([], m, ap (◌∷◌ m) (sym i), sym (append-nil s.sent))

module _ (m : GenericMessage) (q : List GenericMessage) where
  -- The call for `m`, when the loop does what it should on the others.
  isend-Forwards :
      (calls : List SendCalls) (s : State)
      → s.incoming_queue ≡ q
      → ((s' : State) → s'.incoming_queue ≡ q → Forwards s'.sent q (forward_data_loop q s'))
      → Forwards s.sent (m ∷ q) (
          and_then
            (isend m
              (get_process_rank m.header.dst_pid)
              m.header.length
              tag_forwarded_data_msg
              calls
              s)
            (λ _ s'. forward_data_loop q s'))
  isend-Forwards [] s i k = Forwards-fails err_intern m q s i
  isend-Forwards (call ∷ calls) s i k = by_node call.node (call.error == 0)
    where
      by_node :
          (b c : Bool)
          → Forwards s.sent (m ∷ q) (
              and_then
                (if not b
                  then failed err_intern (record s { sends = calls })
                  else if not c
                  then failed (mpi call.error) (record s { sends = calls })
                  else returned tt (record s {
                    sends = calls;
                    sent = s.sent ++ data_send m ∷ [];
                    mpi_messages = record { request = call.request; message = m } ∷ s.mpi_messages;
                  }))
                (λ _ s'. forward_data_loop q s'))
      by_node false c = Forwards-fails err_intern m q (record s { sends = calls }) i
      by_node true false = Forwards-fails (mpi call.error) m q (record s { sends = calls }) i
      by_node true true =
          Forwards-cons s.sent m q
            (forward_data_loop q (record s {
              sends = calls;
              sent = s.sent ++ data_send m ∷ [];
              mpi_messages = record { request = call.request; message = m } ∷ s.mpi_messages;
            }))
            (k
              (record s {
                sends = calls;
                sent = s.sent ++ data_send m ∷ [];
                mpi_messages = record { request = call.request; message = m } ∷ s.mpi_messages;
              })
              i)

forward_data_loop-Forwards :
    (q : List GenericMessage) (s : State)
    → s.incoming_queue ≡ q
    → Forwards s.sent q (forward_data_loop q s)
unfolding forward_data_loop forward_mpi_message
forward_data_loop-Forwards [] s i = (sym (append-nil s.sent), i)
forward_data_loop-Forwards (m ∷ q) s i =
    by_cluster (get_cluster_rank m.header.dst_pid == s.cluster_rank) (forward_data_loop-Forwards q)
  where
    by_cluster :
        (b : Bool)
        → ((s' : State) → s'.incoming_queue ≡ q → Forwards s'.sent q (forward_data_loop q s'))
        → Forwards s.sent (m ∷ q) (
            and_then
              (if not b
                then failed err_intern (record s { incoming_queue = q })
                else isend m
                    (get_process_rank m.header.dst_pid)
                    m.header.length
                    tag_forwarded_data_msg
                    s.sends
                    (record s { incoming_queue = q }))
              (λ _ s'. forward_data_loop q s'))
    by_cluster false k = Forwards-fails err_intern m q (record s { incoming_queue = q }) refl
    by_cluster true k = isend-Forwards m q s.sends (record s { incoming_queue = q }) refl k

-- forward_data_messages_to_mpi hands all messages of incoming_queue to MPI, in their order, each
-- with its length and the rank of the process that it is for, and empties the queue. If it fails, it
-- has done so up to one message, which is lost, and those behind it stay in the queue.
pub forward_data_messages_to_mpi-Forwards :
    (s : State) → Forwards s.sent s.incoming_queue (forward_data_messages_to_mpi s)
unfolding forward_data_messages_to_mpi
forward_data_messages_to_mpi-Forwards s = forward_data_loop-Forwards s.incoming_queue s refl

-- The messages whose send is not done.
abbrev pub unfinished : (ℕ → TestCall) → List MpiMessage → List MpiMessage
unfinished test [] = []
unfinished test (x ∷ xs) =
    if (test x.request).flag then unfinished test xs else x ∷ unfinished test xs

-- PMPI_Test succeeds for all.
abbrev pub AllTested : (ℕ → TestCall) → List MpiMessage → Type 0
AllTested test [] = Unit {0}
AllTested test (x ∷ xs) = ((test x.request).error ≡ 0) × AllTested test xs

abbrev pub Polls : (ℕ → TestCall) → List MpiMessage → Result (Unit {0}) × List MpiMessage → Type 0
Polls test ms (ok _, rest) = AllTested test ms × (rest ≡ unfinished test ms)
Polls test ms (err e, rest) =
    (front : List MpiMessage) × (x : MpiMessage) × (back : List MpiMessage) × (ms
      ≡ front ++ x ∷ back)
    × AllTested test front
    × (((test x.request).error == 0) ≡ false)
    × (e ≡ mpi (test x.request).error)
    × (rest ≡ unfinished test front ++ x ∷ back)

Polls-cons :
    (test : ℕ → TestCall) (x : MpiMessage) (ms : List MpiMessage)
    (p : Result (Unit {0}) × List MpiMessage)
    → (test x.request).error ≡ 0
    → Polls test ms p
    → Polls test (x ∷ ms) (if (test x.request).flag then p else keep x p)
Polls-cons test x ms p e h = by_flag (test x.request).flag p refl h
  where
    step :
        (xs : List MpiMessage) (b : Bool)
        → (test x.request).flag ≡ b
        → unfinished test (x ∷ xs) ≡ (if b then unfinished test xs else x ∷ unfinished test xs)
    step xs b f = ap (λ c. if c then unfinished test xs else x ∷ unfinished test xs) f

    by_flag :
        (b : Bool) (p' : Result (Unit {0}) × List MpiMessage)
        → (test x.request).flag ≡ b
        → Polls test ms p'
        → Polls test (x ∷ ms) (if b then p' else keep x p')
    by_flag true (ok u, rest) f (a, r) = ((e, a), r ∙ sym (step ms true f))
    by_flag false (ok u, rest) f (a, r) = ((e, a), ap (◌∷◌ x) r ∙ sym (step ms false f))
    by_flag true (err c, rest) f (front, y, back, m, a, n, d, r) = (
      x ∷ front,
      y,
      back,
      ap (◌∷◌ x) m,
      (e, a),
      n,
      d,
      r ∙ ap (λ l. l ++ y ∷ back) (sym (step front true f)),
    )
    by_flag false (err c, rest) f (front, y, back, m, a, n, d, r) = (
      x ∷ front,
      y,
      back,
      ap (◌∷◌ x) m,
      (e, a),
      n,
      d,
      ap (◌∷◌ x) r ∙ ap (λ l. l ++ y ∷ back) (sym (step front false f)),
    )

pub poll_loop-Polls :
    (test : ℕ → TestCall) (ms : List MpiMessage) → Polls test ms (poll_loop test ms)
unfolding poll_loop
poll_loop-Polls test [] = (tt, refl)
poll_loop-Polls test (x ∷ ms) =
    by_error ((test x.request).error == 0) refl (poll_loop-Polls test ms)
  where
    by_error :
        (b : Bool)
        → ((test x.request).error == 0) ≡ b
        → Polls test ms (poll_loop test ms)
        → Polls test (x ∷ ms) (
            if not b
            then (err (mpi (test x.request).error), x ∷ ms)
            else if (test x.request).flag
            then poll_loop test ms
            else keep x (poll_loop test ms))
    by_error true q h =
        Polls-cons test x ms (poll_loop test ms) (==→eq (test x.request).error 0 q) h
    by_error false q h = ([], x, ms, refl, tt, q, refl, refl)

-- ===== src/Routing/Carried.antt =====
-- src/backend/gateway.c: where the messages of a gateway are behind a call of process_mpi_messages that
-- succeeds.
use e_salsa_mpi.Prelude.{
  ℕ, zero, suc, ◌+◌, ◌<◌, ◌==◌, ltb, ◌≤◌, Bool-cases, inl, inr, if◌then◌else◌, Bool, true, false,
  not, ◌&&◌, Option, none, some, List, [], ◌∷◌, ◌++◌, map, length, length-append, append-nil,
  append_assoc, get_elem?, ◌≡◌, refl, sym, ap, ◌∙◌, subst, arith,
}
use e_salsa_mpi.Codes.{Code, Result, ok, err}
use e_salsa_mpi.Pid.Defs.{get_cluster_rank, get_process_rank}
use e_salsa_mpi.Wire.Words.{ntohl}
use e_salsa_mpi.Wire.Requests.{opcode_finalize_reply}
use e_salsa_mpi.Gateway.Write.{Pending}
use e_salsa_mpi.Routing.Defs.{
  max_mpi_receive_sequence, GenericMessage, Arrival, SendCalls, Isent, MpiMessage, State, Outcome,
  returned, failed, fault, out_of_fuel, Gateway, and_then, max_pending_data_msg,
  max_pending_data_size, set_elem, enqueue_out, enqueue_data_message, count_pending,
  enqueue_server_request, process_gateway_message, receive_arrival, accept_request, accept_reply,
  accept_data, request_from, reply_from, data_from, receive_mpi_server_request,
  receive_mpi_server_reply, receive_mpi_data_message, isend, forward_mpi_message, tag_server_reply,
  tag_forwarded_data_msg,
}
use e_salsa_mpi.Routing.Process.{
  forward_data_loop, forward_data_messages_to_mpi, forward_server_message, forward_server_loop,
  forward_server_messages_to_mpi, TestCall, poll_loop, polled, poll_mpi_requests, server_round,
  server_loop, data_loop, process_mpi_messages,
}
use e_salsa_mpi.Routing.Forward.{data_send}
use e_salsa_mpi.Routing.Post.{Post, holds, excepts}
use e_salsa_mpi.Routing.Routes.{IsRouted, waiting}
use e_salsa_mpi.Routing.Rounds.{process_mpi_messages-IsRouted}
use mathlib.Core.Option.{some-injective}

-- The property `Q` of the value and the state of a function that succeeds.
pub data Yields {A : Type 0} (Q : A → State → Type 0) : Outcome A → Type 0 where
  yields : {a : A} {s : State} → Q a s → Yields Q (returned a s)
  fails : {e : Code} {s : State} → Yields Q (failed e s)
  faults : Yields Q fault
  stops : Yields Q out_of_fuel

and_then-Yields :
    {A B : Type 0} {Q : A → State → Type 0} {R : B → State → Type 0} {o : Outcome A}
    {f : A → Gateway B}
    → Yields Q o
    → ((a : A) (s : State) → Q a s → Yields R (f a s))
    → Yields R (and_then o f)
and_then-Yields (yields {a} {s} h) k = k a s h
and_then-Yields fails k = fails
and_then-Yields faults k = faults
and_then-Yields stops k = stops

if-Yields :
    {A : Type 0} {Q : A → State → Type 0} (b : Bool) {x y : Outcome A}
    → (b ≡ true → Yields Q x)
    → (b ≡ false → Yields Q y)
    → Yields Q (if b then x else y)
if-Yields true p q = p refl
if-Yields false p q = q refl

-- The fields that say where the messages are.
pub record Held : Type 0 where
  pub sent : List Isent
  pub server_queue_in : List GenericMessage
  pub incoming_queue : List GenericMessage
  pub out_queues : List (List GenericMessage)
  pub pending : Pending
  pub my_pid : ℕ

abbrev pub held : State → Held
held s = record {
  sent = s.sent;
  server_queue_in = s.server_queue_in;
  incoming_queue = s.incoming_queue;
  out_queues = s.out_queues;
  pending = s.pending;
  my_pid = s.my_pid;
}

abbrev Keeps : {A : Type 0} → Held → A → State → Type 0
Keeps h a s = held s ≡ h

receive_arrival-Yields :
    {Q : Bool → State → Type 0} (accept : Arrival → Gateway (Unit {0})) (a : Arrival) (s : State)
    → Q false s
    → Yields (λ _. Q true) (accept a s)
    → Yields Q (receive_arrival accept a s)
receive_arrival-Yields accept a s q p =
    if-Yields (not (a.probe_error == 0)) (λ _. fails)
      (λ _.
        if-Yields (not a.flag) (λ _. yields q)
          (λ _.
            if-Yields (not (a.count_error == 0)) (λ _. fails)
              (λ _.
                if-Yields (not a.buffer) (λ _. fails)
                  (λ _.
                    if-Yields (not (a.recv_error == 0)) (λ _. fails)
                      (λ _. and_then-Yields p (λ _ s' h. yields h))))))

request_from-Keeps :
    (arrivals : List Arrival) (s : State) → Yields (Keeps (held s)) (request_from arrivals s)
unfolding enqueue_server_request
request_from-Keeps [] s = yields refl
request_from-Keeps (a ∷ arrivals) s =
    receive_arrival-Yields accept_request a (record s { requests = arrivals }) refl
      (if-Yields (not (s.gateway_rank == 0)) (λ _. fails)
        (λ _. if-Yields a.node (λ _. yields refl) (λ _. fails)))

process_gateway_message-Keeps :
    (m : GenericMessage) (s : State) → Yields (Keeps (held s)) (process_gateway_message m s)
unfolding process_gateway_message
process_gateway_message-Keeps m s =
    if-Yields (not (ntohl m.header.opcode == opcode_finalize_reply)) (λ _. fails) (λ _. yields refl)

reply_from-Keeps :
    (arrivals : List Arrival) (s : State) → Yields (Keeps (held s)) (reply_from arrivals s)
reply_from-Keeps [] s = yields refl
reply_from-Keeps (a ∷ arrivals) s =
    receive_arrival-Yields accept_reply a (record s { replies = arrivals }) refl
      (process_gateway_message-Keeps a.received (record s { replies = arrivals }))

-- One message for MPI.
forward_mpi_message-Sends :
    (m : GenericMessage) (pid len tag : ℕ) (s : State)
    → Yields
        (Keeps (record (held s) {
          sent =
              s.sent
              ++ record { message = m; len = len; rank = get_process_rank pid; tag = tag } ∷ [];
        }))
        (forward_mpi_message m pid len tag s)
unfolding forward_mpi_message
forward_mpi_message-Sends m pid len tag s =
    if-Yields (not (get_cluster_rank pid == s.cluster_rank)) (λ _. fails) (λ _. by s.sends)
  where
    by :
        (calls : List SendCalls)
        → Yields
            (Keeps (record (held s) {
              sent =
                  s.sent
                  ++ record { message = m; len = len; rank = get_process_rank pid; tag = tag } ∷ [];
            }))
            (isend m (get_process_rank pid) len tag calls s)
    by [] = fails
    by (call ∷ calls) =
        if-Yields (not call.node) (λ _. fails)
          (λ _. if-Yields (not (call.error == 0)) (λ _. fails) (λ _. yields refl))

-- The sends that the messages of the server ask for; one for the gateway itself is not passed on.
abbrev pub server_sends : ℕ → List GenericMessage → List Isent
server_sends my_pid [] = []
server_sends my_pid (m ∷ ms) =
    if ntohl m.header.dst_pid == my_pid
    then server_sends my_pid ms
    else record {
      message = m;
      len = ntohl m.header.length;
      rank = get_process_rank (ntohl m.header.dst_pid);
      tag = tag_server_reply;
    }
      ∷ server_sends my_pid ms

-- The messages of the server are handed to MPI.
abbrev served : Held → List GenericMessage → Held
served h q = record h { sent = h.sent ++ server_sends h.my_pid q; server_queue_in = [] }

abbrev passed : Held → Held
passed h = served h h.server_queue_in

served-nil : (h : Held) → h.server_queue_in ≡ [] → h ≡ served h []
served-nil h e = rw (append-nil h.sent, sym e) refl

-- What a loop leaves, with the state before known by what it holds.
resumed :
    {A : Type 0} {o : Outcome A} (f : Held → Held) (s : State) (h k : Held)
    → held s ≡ h
    → f h ≡ k
    → Yields (Keeps (f (held s))) o
    → Yields (Keeps k) o
resumed {A} {o} f s h k e g y = subst (λ x. Yields (Keeps x) o) (ap f e ∙ g) y

forward_server_loop-Serves :
    (q : List GenericMessage) (s : State)
    → s.server_queue_in ≡ q
    → Yields (Keeps (served (held s) q)) (forward_server_loop q s)
unfolding forward_server_loop forward_server_message
forward_server_loop-Serves [] s e = yields (served-nil (held s) e)
forward_server_loop-Serves (m ∷ ms) s e = elim (Bool-cases (ntohl m.header.dst_pid == s.my_pid)) [
  | inl own ↦ rw own (
      and_then-Yields (process_gateway_message-Keeps m (record s { server_queue_in = ms }))
        (λ _ s' h.
          resumed (λ x. served x ms) s' _ _ h refl
            (forward_server_loop-Serves ms s' (ap (λ (x : Held). x.server_queue_in) h))))
  | inr other ↦ rw other (
      and_then-Yields
        (forward_mpi_message-Sends m (ntohl m.header.dst_pid) (ntohl m.header.length)
          tag_server_reply (record s { server_queue_in = ms }))
        (λ _ s' h.
          resumed (λ x. served x ms) s' _ _ h
            (ap (λ l. record (held s) { sent = l; server_queue_in = [] })
              (append_assoc s.sent _ (server_sends s.my_pid ms)))
            (forward_server_loop-Serves ms s' (ap (λ (x : Held). x.server_queue_in) h))))
]

server_round-Passes : (s : State) → Yields (Keeps (passed (held s))) (server_round s)
unfolding server_round receive_mpi_server_request receive_mpi_server_reply
    forward_server_messages_to_mpi
server_round-Passes s = and_then-Yields (request_from-Keeps s.requests s) (λ q s1 h1.
    and_then-Yields (reply_from-Keeps s1.replies s1) (λ r s2 h2.
      and_then-Yields (forward_server_loop-Serves s2.server_queue_in s2 refl)
        (λ _ s3 h3. yields (h3 ∙ ap passed (h2 ∙ h1)))))

-- The first round passes all on; the later ones find nothing.
server_loop-Passes : (fuel : ℕ) (s : State) → Yields (Keeps (passed (held s))) (server_loop fuel s)
unfolding server_loop
server_loop-Passes zero s = stops
server_loop-Passes (suc fuel) s = and_then-Yields (server_round-Passes s) (λ r s' h.
    if-Yields (r && not s'.done)
      (λ _.
        resumed passed s' _ _ h (sym (served-nil (passed (held s)) refl))
          (server_loop-Passes fuel s'))
      (λ _. yields h))

-- The data messages are handed to MPI.
abbrev handed : Held → List GenericMessage → Held
handed h q = record h { sent = h.sent ++ map data_send q; incoming_queue = [] }

forward_data_loop-Hands :
    (q : List GenericMessage) (s : State)
    → s.incoming_queue ≡ q
    → Yields (Keeps (handed (held s) q)) (forward_data_loop q s)
unfolding forward_data_loop
forward_data_loop-Hands [] s e = yields (rw (append-nil s.sent, e) refl)
forward_data_loop-Hands (m ∷ ms) s e =
    and_then-Yields
      (forward_mpi_message-Sends m m.header.dst_pid m.header.length tag_forwarded_data_msg
        (record s { incoming_queue = ms }))
      (λ _ s' h.
        resumed (λ x. handed x ms) s' _ _ h
          (ap (λ l. record (held s) { sent = l; incoming_queue = [] })
            (append_assoc s.sent _ (map data_send ms)))
          (forward_data_loop-Hands ms s' (ap (λ (x : Held). x.incoming_queue) h)))

polled-Keeps :
    (s : State) (p : Result (Unit {0}) × List MpiMessage) → Yields (Keeps (held s)) (polled s p)
polled-Keeps s (ok u, rest) = yields refl
polled-Keeps s (err e, rest) = fails

-- All messages in the queues of the connections.
abbrev pub queued : List (List GenericMessage) → ℕ
queued [] = 0
queued (q ∷ qs) = length q + queued qs

queued-set_elem :
    (qs : List (List GenericMessage)) (i : ℕ) (q : List GenericMessage) (m : GenericMessage)
    → get_elem? qs i ≡ some q
    → queued (set_elem qs i (q ++ m ∷ [])) ≡ suc (queued qs)
queued-set_elem [] i q m e = cc
queued-set_elem (x ∷ qs) zero q m e =
    omega (arith, length-append q (m ∷ []), ap (length {A = GenericMessage}) (some-injective x q e))
queued-set_elem (x ∷ qs) (suc i) q m e = omega (arith, queued-set_elem qs i q m e)

-- The data messages that were received are counted as pending, and nothing else has moved.
record Took (h : Held) (s : State) : Type 0 where
  pub sent : s.sent ≡ h.sent
  pub server_queue_in : s.server_queue_in ≡ h.server_queue_in
  pub incoming_queue : s.incoming_queue ≡ h.incoming_queue
  pub pending : s.pending.messages + queued h.out_queues ≡ h.pending.messages + queued s.out_queues

nothing-Took : (s : State) → Took (held s) s
nothing-Took s = record {
  sent = refl;
  server_queue_in = refl;
  incoming_queue = refl;
  pending = refl;
}

Took-more : (h : Held) (s s' : State) → Took h s → Took (held s) s' → Took h s'
Took-more h s s' t u = record {
  sent = u.sent ∙ t.sent;
  server_queue_in = u.server_queue_in ∙ t.server_queue_in;
  incoming_queue = u.incoming_queue ∙ t.incoming_queue;
  pending = omega (arith, t.pending, u.pending);
}

enqueue_data_message-Took :
    (node : Bool) (m : GenericMessage) (size : ℕ) (s : State)
    → s.pending.messages < max_pending_data_msg
    → Yields (λ _. Took (held s)) (enqueue_data_message node m size s)
unfolding enqueue_data_message
enqueue_data_message-Took node m size s few =
    by (get_elem? s.out_queues (get_cluster_rank m.header.dst_pid)) refl
  where
    by :
        (o : Option (List GenericMessage))
        → get_elem? s.out_queues (get_cluster_rank m.header.dst_pid) ≡ o
        → Yields
            (λ _. Took (held s))
            (enqueue_out node m
              (get_cluster_rank m.header.dst_pid)
              o
              (record s { pending = count_pending size s.pending }))
    by none e = faults
    by (some q) e =
        if-Yields node
          (λ _. yields (record {
            sent = refl;
            server_queue_in = refl;
            incoming_queue = refl;
            pending = omega (
              arith,
              queued-set_elem s.out_queues (get_cluster_rank m.header.dst_pid) q m e,
              few,
            );
          }))
          (λ _. fails)

data_from-Took :
    (arrivals : List Arrival) (s : State)
    → s.pending.messages < max_pending_data_msg
    → Yields (λ _. Took (held s)) (data_from arrivals s)
data_from-Took [] s few = yields (nothing-Took s)
data_from-Took (a ∷ arrivals) s few =
    receive_arrival-Yields accept_data a (record s { data_arrivals = arrivals })
      (nothing-Took (record s { data_arrivals = arrivals }))
      (enqueue_data_message-Took a.node a.received a.count (record s { data_arrivals = arrivals })
        few)

data_loop-Took :
    (rounds : ℕ) (received : Bool) (s : State)
    → Yields (λ _. Took (held s)) (data_loop rounds received s)
unfolding data_loop receive_mpi_data_message
data_loop-Took zero received s = yields (nothing-Took s)
data_loop-Took (suc rounds) received s =
    if-Yields
      (ltb s.pending.messages max_pending_data_msg
        && ltb s.pending.size max_pending_data_size
        && received)
      (λ e.
        and_then-Yields
          (data_from-Took s.data_arrivals s
            (few (ltb s.pending.size max_pending_data_size) received e))
          (λ r s' t. weaken s' t (data_loop-Took rounds r s')))
      (λ _. yields (nothing-Took s))
  where
    few :
        (b c : Bool)
        → (ltb s.pending.messages max_pending_data_msg && b && c) ≡ true
        → s.pending.messages < max_pending_data_msg
    few b c e = ground arith

    weaken :
        {o : Outcome (Unit {0})} (s' : State)
        → Took (held s) s'
        → Yields (λ _. Took (held s')) o
        → Yields (λ _. Took (held s)) o
    weaken s' t y = yields-map y (λ s'' u. Took-more (held s) s' s'' t u)
      where
        yields-map :
            {o : Outcome (Unit {0})} {P Q : State → Type 0}
            → Yields (λ _. P) o
            → ((x : State) → P x → Q x)
            → Yields (λ _. Q) o
        yields-map (yields {a} {s} p) f = yields (f s p)
        yields-map fails f = fails
        yields-map faults f = faults
        yields-map stops f = stops

-- What a call does with the messages: those of the server and the data messages that were in the
-- queues for MPI are handed to MPI, in their order, and as many messages are new in the queues of the
-- connections as are counted as pending.
pub record Carried (s s' : State) : Type 0 where
  pub sent :
      s'.sent
      ≡ (s.sent ++ server_sends s.my_pid s.server_queue_in) ++ map data_send s.incoming_queue
  pub no_server_message : s'.server_queue_in ≡ []
  pub no_data_message : s'.incoming_queue ≡ []
  pub pending :
      s'.pending.messages + queued s.out_queues ≡ s.pending.messages + queued s'.out_queues

process_mpi_messages-Carried :
    (fuel : ℕ) (test : ℕ → TestCall) (s : State)
    → Yields (λ _. Carried s) (process_mpi_messages fuel test s)
unfolding process_mpi_messages forward_data_messages_to_mpi poll_mpi_requests
process_mpi_messages-Carried fuel test s = and_then-Yields (server_loop-Passes fuel s) (λ _ s1 h1.
    and_then-Yields (forward_data_loop-Hands s1.incoming_queue s1 refl) (λ _ s2 h2.
      and_then-Yields (polled-Keeps s2 (poll_loop test s2.mpi_messages)) (λ _ s3 h3.
        let h = h3 ∙ h2 ∙ ap (λ (x : Held). handed x x.incoming_queue) h1 in
        if-Yields s3.done (λ _. yields (carried s3 s3 h (nothing-Took s3)))
          (λ _. ending s3 h (data_loop-Took max_mpi_receive_sequence true s3)))))
  where
    carried :
        (s3 s' : State)
        → held s3 ≡ handed (passed (held s)) s.incoming_queue
        → Took (held s3) s'
        → Carried s s'
    carried s3 s' h t = record {
      sent = t.sent ∙ ap (λ (x : Held). x.sent) h;
      no_server_message = t.server_queue_in ∙ ap (λ (x : Held). x.server_queue_in) h;
      no_data_message = t.incoming_queue ∙ ap (λ (x : Held). x.incoming_queue) h;
      pending =
          subst
            (λ (x : Held).
              s'.pending.messages + queued x.out_queues ≡ x.pending.messages + queued s'.out_queues)
            h t.pending;
    }

    ending :
        {o : Outcome (Unit {0})} (s3 : State)
        → held s3 ≡ handed (passed (held s)) s.incoming_queue
        → Yields (λ _. Took (held s3)) o
        → Yields (λ _. Carried s) o
    ending s3 h (yields {a} {s} t) = yields (carried s3 s h t)
    ending s3 h fails = fails
    ending s3 h faults = faults
    ending s3 h stops = stops

-- Both on the same outcome.
Post-Yields :
    {E : State → Type 0} {Q R : Unit {0} → State → Type 0} {o : Outcome (Unit {0})}
    → Post E Q o
    → Yields R o
    → Post E (λ a s. Q a s × R a s) o
Post-Yields (holds q) (yields r) = holds (q, r)
Post-Yields (excepts e) y = excepts e

-- In a gateway in which every message is in the queue of its cluster, at most `limit` data messages,
-- which is at least MAX_PENDING_DATA_MSG, are pending, and the data messages to come are for the clusters
-- of the run: process_mpi_messages ends, after at most one round of its first loop for each run of
-- the receive functions for requests and replies and one more, and does not access the table of
-- connections behind its end. It keeps all this, also where it fails, and what it hands to MPI has the
-- rank and the length that the message has, in the cluster that it is for. Where it returns EMPI_SUCCESS,
-- it has handed all messages of server_queue_in that are not for the gateway itself, and behind them all
-- of incoming_queue, to MPI, in their order; both queues are empty, and the number of pending data
-- messages has grown by the number of messages that are new in the queues of the connections.
pub process_mpi_messages-Carries :
    (limit : ℕ) (fuel : ℕ) (test : ℕ → TestCall) (s : State)
    → max_pending_data_msg ≤ limit
    → waiting s < fuel
    → IsRouted limit s
    → Post
        (IsRouted limit)
        (λ _ s'. IsRouted limit s' × Carried s s')
        (process_mpi_messages fuel test s)
process_mpi_messages-Carries limit fuel test s high lt h =
    Post-Yields (process_mpi_messages-IsRouted limit high fuel test s lt h)
      (process_mpi_messages-Carried fuel test s)

-- ===== src/Routing/Rounds.antt =====
-- process_mpi_messages ends, and keeps the invariant of the gateway.
use e_salsa_mpi.Prelude.{
  ℕ, zero, suc, ◌+◌, ◌≤◌, ◌<◌, ltb, ◌==◌, Bool, true, false, not, ◌&&◌, ◌||◌, List, [], ◌∷◌, length,
  ◌≡◌, inl, inr, refl, ap, subst, arith,
}
use e_salsa_mpi.Codes.{Result, ok, err}
use e_salsa_mpi.Wire.Words.{ntohl}
use e_salsa_mpi.Wire.Requests.{opcode_finalize_reply}
use e_salsa_mpi.Routing.Defs.{
  GenericMessage, Arrival, MpiMessage, State, Outcome, max_pending_data_msg, max_pending_data_size,
  max_mpi_receive_sequence, enqueue_server_request, process_gateway_message, accept_request,
  accept_reply, accept_data, request_from, reply_from, data_from, receive_mpi_server_request,
  receive_mpi_server_reply, receive_mpi_data_message, tag_forwarded_data_msg, tag_server_reply,
}
use e_salsa_mpi.Routing.Process.{
  forward_data_loop, forward_data_messages_to_mpi, forward_server_message, forward_server_loop,
  forward_server_messages_to_mpi, TestCall, poll_loop, polled, poll_mpi_requests, server_round,
  server_loop, data_loop, process_mpi_messages,
}
use e_salsa_mpi.Routing.Post.{Post, holds, excepts, and_then-Post, if-Post, receive_arrival-Post}
use e_salsa_mpi.Routing.Routes.{
  IsRouted, Routed, waiting, AllWithin, enqueue_data_message-IsRouted, forward_mpi_message-IsRouted,
}

abbrev count : Bool → ℕ
count true = 1
count false = 0

module _ (limit : ℕ) (high : max_pending_data_msg ≤ limit) where
  -- A message that was received is one less to come.
  abbrev Received : ℕ → Bool → State → Type 0
  Received w r s = (v : ℕ) × Routed limit v s × (v + count r ≤ w)

  process_gateway_message-Routed :
      (w : ℕ) (m : GenericMessage) (s : State)
      → Routed limit w s
      → Post (IsRouted limit) (λ _. Routed limit w) (process_gateway_message m s)
  unfolding process_gateway_message
  process_gateway_message-Routed w m s h =
      if-Post (not (ntohl m.header.opcode == opcode_finalize_reply)) (λ _. excepts h.0)
        (λ _. holds h)

  request_from-Received :
      (w : ℕ) (arrivals : List Arrival) (s : State)
      → s.requests ≡ arrivals
      → Routed limit w s
      → Post (IsRouted limit) (Received w) (request_from arrivals s)
  unfolding enqueue_server_request
  request_from-Received w [] s e (h, l) = holds (w, (h, l), omega arith)
  request_from-Received w (a ∷ rest) s e (h, l) =
      let fewer : suc (length rest + length s.replies) ≤ w =
        omega (arith, ap (length {A = Arrival}) e) in
      receive_arrival-Post accept_request a (record s { requests = rest }) h
        (length rest + length s.replies, (h, omega arith), omega arith)
        (if-Post (not (s.gateway_rank == 0)) (λ _. excepts h)
          (λ _.
            if-Post a.node
              (λ _. holds (length rest + length s.replies, (h, omega arith), omega arith))
              (λ _. excepts h)))

  reply_from-Received :
      (w : ℕ) (arrivals : List Arrival) (s : State)
      → s.replies ≡ arrivals
      → Routed limit w s
      → Post (IsRouted limit) (Received w) (reply_from arrivals s)
  unfolding process_gateway_message
  reply_from-Received w [] s e (h, l) = holds (w, (h, l), omega arith)
  reply_from-Received w (a ∷ rest) s e (h, l) =
      let fewer : suc (length s.requests + length rest) ≤ w =
        omega (arith, ap (length {A = Arrival}) e) in
      receive_arrival-Post accept_reply a (record s { replies = rest }) h
        (length s.requests + length rest, (h, omega arith), omega arith)
        (if-Post (not (ntohl a.received.header.opcode == opcode_finalize_reply)) (λ _. excepts h)
          (λ _. holds (length s.requests + length rest, (h, omega arith), omega arith)))

  forward_data_loop-Routed :
      (w : ℕ) (ms : List GenericMessage) (s : State)
      → Routed limit w s
      → Post (IsRouted limit) (λ _. Routed limit w) (forward_data_loop ms s)
  unfolding forward_data_loop
  forward_data_loop-Routed w [] s h = holds h
  forward_data_loop-Routed w (m ∷ ms) s h =
      and_then-Post
        (forward_mpi_message-IsRouted limit high w m m.header.dst_pid m.header.length
          tag_forwarded_data_msg (record s { incoming_queue = ms })
          (λ e. inl (refl, (e, refl, refl))) h)
        (λ _ s' h'. forward_data_loop-Routed w ms s' h')

  forward_server_loop-Routed :
      (w : ℕ) (ms : List GenericMessage) (s : State)
      → Routed limit w s
      → Post (IsRouted limit) (λ _. Routed limit w) (forward_server_loop ms s)
  unfolding forward_server_loop forward_server_message
  forward_server_loop-Routed w [] s h = holds h
  forward_server_loop-Routed w (m ∷ ms) s h =
      and_then-Post
        (if-Post (ntohl m.header.dst_pid == s.my_pid)
          (λ _. process_gateway_message-Routed w m (record s { server_queue_in = ms }) h)
          (λ _.
            forward_mpi_message-IsRouted limit high w m (ntohl m.header.dst_pid)
              (ntohl m.header.length) tag_server_reply (record s { server_queue_in = ms })
              (λ e. inr (refl, (e, refl, refl))) h))
        (λ _ s' h'. forward_server_loop-Routed w ms s' h')

  server_round-Received :
      (w : ℕ) (s : State) → Routed limit w s → Post (IsRouted limit) (Received w) (server_round s)
  unfolding server_round receive_mpi_server_request receive_mpi_server_reply
      forward_server_messages_to_mpi
  server_round-Received w s h =
      and_then-Post (request_from-Received w s.requests s refl h) (λ q s' (v, h', l).
        and_then-Post (reply_from-Received v s'.replies s' refl h') (λ r s'' (u, h'', k).
          and_then-Post (forward_server_loop-Routed u s''.server_queue_in s'' h'')
            (λ _ s3 h3. holds (u, h3, one q r u v w l k))))
    where
      one : (q r : Bool) (u v w : ℕ) → v + count q ≤ w → u + count r ≤ v → u + count (q || r) ≤ w
      one true r u v w l k = ground arith
      one false r u v w l k = ground arith

  -- Every further round has received something.
  server_loop-IsRouted :
      (fuel w : ℕ) (s : State)
      → w < fuel
      → Routed limit w s
      → Post (IsRouted limit) (λ _. IsRouted limit) (server_loop fuel s)
  unfolding server_loop
  server_loop-IsRouted zero w s lt h = absurd (omega arith)
  server_loop-IsRouted (suc fuel) w s lt h = and_then-Post (server_round-Received w s h) (λ r s' q.
      if-Post (r && not s'.done)
        (λ e. server_loop-IsRouted fuel q.0 s' (fewer r s'.done q.0 q.2 e) q.1) (λ _. holds q.1.0))
    where
      fewer : (r d : Bool) (v : ℕ) → v + count r ≤ w → (r && not d) ≡ true → v < fuel
      fewer true d v l e = omega arith
      fewer false d v l e = absurd (subst (λ b. elim b [ true ↦ ⊥ | false ↦ Unit {0} ]) e tt)

  polled-IsRouted :
      (s : State) (p : Result (Unit {0}) × List MpiMessage)
      → IsRouted limit s
      → Post (IsRouted limit) (λ _. IsRouted limit) (polled s p)
  polled-IsRouted s (ok u, rest) h = holds h
  polled-IsRouted s (err e, rest) h = excepts h

  data_from-IsRouted :
      (arrivals : List Arrival) (s : State)
      → s.data_arrivals ≡ arrivals
      → s.pending.messages < max_pending_data_msg
      → IsRouted limit s
      → Post (IsRouted limit) (λ _. IsRouted limit) (data_from arrivals s)
  data_from-IsRouted [] s e few h = holds h
  data_from-IsRouted (a ∷ rest) s e few h =
      let (lt, within) = subst (AllWithin (length s.out_queues)) e h.arrivals in
      let s' = record s { data_arrivals = rest } in
      let h' : IsRouted limit s' = record {
        queues = h.queues;
        sends = h.sends;
        arrivals = within;
        pending = h.pending;
      } in
      receive_arrival-Post accept_data a s' h' h' (
        and_then-forget (
          enqueue_data_message-IsRouted limit high (waiting s') a.node a.received a.count s' lt few
            (h', omega arith)))
    where
      and_then-forget :
          {w : ℕ} {o : Outcome (Unit {0})}
          → Post (IsRouted limit) (λ _. Routed limit w) o
          → Post (IsRouted limit) (λ _. IsRouted limit) o
      and_then-forget (holds h) = holds h.0
      and_then-forget (excepts h) = excepts h

  -- A message is received only where few are pending.
  data_loop-IsRouted :
      (rounds : ℕ) (received : Bool) (s : State)
      → IsRouted limit s
      → Post (IsRouted limit) (λ _. IsRouted limit) (data_loop rounds received s)
  unfolding data_loop receive_mpi_data_message
  data_loop-IsRouted zero received s h = holds h
  data_loop-IsRouted (suc rounds) received s h =
      if-Post
        (ltb s.pending.messages max_pending_data_msg
          && ltb s.pending.size max_pending_data_size
          && received)
        (λ e.
          and_then-Post
            (data_from-IsRouted s.data_arrivals s refl
              (few (ltb s.pending.size max_pending_data_size) received e) h)
            (λ r s' h'. data_loop-IsRouted rounds r s' h'))
        (λ _. holds h)
    where
      few :
          (b c : Bool)
          → (ltb s.pending.messages max_pending_data_msg && b && c) ≡ true
          → s.pending.messages < max_pending_data_msg
      few b c e = ground arith

  -- process_mpi_messages keeps the invariant, also where it fails. It ends after at most one round of its
  -- first loop for each run of the receive functions for requests and replies and one more.
  pub process_mpi_messages-IsRouted :
      (fuel : ℕ) (test : ℕ → TestCall) (s : State)
      → waiting s < fuel
      → IsRouted limit s
      → Post (IsRouted limit) (λ _. IsRouted limit) (process_mpi_messages fuel test s)
  unfolding process_mpi_messages forward_data_messages_to_mpi poll_mpi_requests
  process_mpi_messages-IsRouted fuel test s lt h =
      and_then-Post (server_loop-IsRouted fuel (waiting s) s lt (h, omega arith)) (λ _ s1 h1.
        and_then-Post (forward_data_loop-Routed (waiting s1) s1.incoming_queue s1 (h1, omega arith))
          (λ _ s2 h2.
            and_then-Post (polled-IsRouted s2 (poll_loop test s2.mpi_messages) h2.0) (λ _ s3 h3.
              if-Post s3.done (λ _. holds h3)
                (λ _. data_loop-IsRouted max_mpi_receive_sequence true s3 h3))))

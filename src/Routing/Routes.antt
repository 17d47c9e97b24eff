-- ===== src/Routing/Routes.antt =====
-- The invariant of a gateway: every message is in the queue of the cluster that it is for, and what
-- is handed to MPI goes to the process that it is for.
use e_salsa_mpi.Prelude.{
  ℕ, zero, suc, ◌+◌, ◌≤◌, ◌<◌, ◌==◌, Bool, false, not, Option, none, some, List, [], ◌∷◌, ◌++◌,
  length, get_elem?, ◌≡◌, ◌⊎◌, refl, sym, ap, subst, arith,
}
use e_salsa_mpi.Pid.Defs.{get_cluster_rank, get_process_rank}
use e_salsa_mpi.Wire.Words.{ntohl}
use e_salsa_mpi.Routing.Defs.{
  GenericMessage, Arrival, SendCalls, Isent, State, tag_forwarded_data_msg, tag_server_reply,
  set_elem, enqueue_out, enqueue_data_message, count_pending, isend, forward_mpi_message,
  max_pending_data_msg,
}
use e_salsa_mpi.Routing.Post.{Post, holds, excepts, if-Post}

-- The cluster that a data message is for.
abbrev pub cluster_of : GenericMessage → ℕ
cluster_of m = get_cluster_rank m.header.dst_pid

abbrev pub AllFor : ℕ → List GenericMessage → Type 0
AllFor t [] = Unit {0}
AllFor t (m ∷ ms) = (cluster_of m ≡ t) × AllFor t ms

-- The queues of the clusters from `t` on.
abbrev pub AllRouted : ℕ → List (List GenericMessage) → Type 0
AllRouted t [] = Unit {0}
AllRouted t (q ∷ qs) = AllFor t q × AllRouted (suc t) qs

-- A send to the process with this pid, of the given length, in the cluster with rank `c`.
abbrev pub IsFor : ℕ → Isent → ℕ → ℕ → Type 0
IsFor c x pid len = (get_cluster_rank pid ≡ c) × (x.rank ≡ get_process_rank pid) × (x.len ≡ len)

-- The header of a data message is in the order of the host, that of a server message is not.
abbrev pub IsDelivery : ℕ → Isent → Type 0
IsDelivery c x =
    ((x.tag ≡ tag_forwarded_data_msg) × IsFor c x x.message.header.dst_pid x.message.header.length)
    ⊎ ((x.tag ≡ tag_server_reply)
        × IsFor c x (ntohl x.message.header.dst_pid) (ntohl x.message.header.length))

abbrev pub AllDeliveries : ℕ → List Isent → Type 0
AllDeliveries c [] = Unit {0}
AllDeliveries c (x ∷ xs) = IsDelivery c x × AllDeliveries c xs

-- The data messages to come are for one of `n` clusters.
abbrev pub AllWithin : ℕ → List Arrival → Type 0
AllWithin n [] = Unit {0}
AllWithin n (a ∷ rest) = (cluster_of a.received < n) × AllWithin n rest

-- The invariant, on the fields that it reads; at most `limit` data messages are pending.
pub record Routes (limit cluster_rank : ℕ) (qs : List (List GenericMessage)) (xs : List Isent)
    (rest : List Arrival) (n : ℕ) : Type 0 where
  pub queues : AllRouted 0 qs
  pub sends : AllDeliveries cluster_rank xs
  pub arrivals : AllWithin (length qs) rest
  pub pending : n ≤ limit

abbrev pub IsRouted : ℕ → State → Type 0
IsRouted limit s =
    Routes limit s.cluster_rank s.out_queues s.sent s.data_arrivals s.pending.messages

AllFor-append :
    (t : ℕ) (q : List GenericMessage) (m : GenericMessage)
    → AllFor t q
    → cluster_of m ≡ t
    → AllFor t (q ++ m ∷ [])
AllFor-append t [] m h e = (e, tt)
AllFor-append t (x ∷ q) m (e', h) e = (e', AllFor-append t q m h e)

AllDeliveries-append :
    (c : ℕ) (xs : List Isent) (x : Isent)
    → AllDeliveries c xs
    → IsDelivery c x
    → AllDeliveries c (xs ++ x ∷ [])
AllDeliveries-append c [] x h d = (d, tt)
AllDeliveries-append c (y ∷ xs) x (d', h) d = (d', AllDeliveries-append c xs x h d)

length-set_elem : {A : Type 0} (xs : List A) (i : ℕ) (a : A) → length (set_elem xs i a) ≡ length xs
length-set_elem [] i a = refl
length-set_elem (x ∷ xs) zero a = refl
length-set_elem (x ∷ xs) (suc i) a = ap suc (length-set_elem xs i a)

AllRouted-set_elem :
    (t i : ℕ) (qs : List (List GenericMessage)) (q : List GenericMessage) (m : GenericMessage)
    → AllRouted t qs
    → get_elem? qs i ≡ some q
    → cluster_of m ≡ t + i
    → AllRouted t (set_elem qs i (q ++ m ∷ []))
AllRouted-set_elem t i [] q m h g e = tt
AllRouted-set_elem t zero (x ∷ qs) q m (h, hs) g e =
    (AllFor-append t q m (subst (AllFor t) (injective g) h) (omega (arith, e)), hs)
  where
    injective : some x ≡ some q → x ≡ q
    injective p = ap (λ o. elim o [ none ↦ x | some y ↦ y ]) p
AllRouted-set_elem t (suc i) (x ∷ qs) q m (h, hs) g e =
    (h, AllRouted-set_elem (suc t) i qs q m hs g (omega (arith, e)))

present : {A : Type 0} (xs : List A) (i : ℕ) → get_elem? xs i ≡ none → i < length xs → ⊥
present [] i e h = omega arith
present (x ∷ xs) zero e h = subst (λ o. elim o [ none ↦ ⊥ | some _ ↦ Unit {0} ]) e tt
present (x ∷ xs) (suc i) e h = present xs i e (omega arith)

-- The runs of the receive functions for requests and replies that are to come.
abbrev pub waiting : State → ℕ
waiting s = length s.requests + length s.replies

abbrev pub Routed : ℕ → ℕ → State → Type 0
Routed limit w s = IsRouted limit s × (waiting s ≤ w)

module _ (limit : ℕ) (high : max_pending_data_msg ≤ limit) (w : ℕ) where
  -- Queueing on a connection that exists.
  enqueue_out-IsRouted :
      (node : Bool) (m : GenericMessage) (s : State) (o : Option (List GenericMessage))
      → get_elem? s.out_queues (cluster_of m) ≡ o
      → cluster_of m < length s.out_queues
      → Routed limit w s
      → Post (IsRouted limit) (λ _. Routed limit w) (enqueue_out node m (cluster_of m) o s)
  enqueue_out-IsRouted node m s none e lt (h, r) = absurd (present s.out_queues (cluster_of m) e lt)
  enqueue_out-IsRouted node m s (some q) e lt (h, r) =
      if-Post node
        (λ _. holds (
          record {
            queues = AllRouted-set_elem 0 (cluster_of m) s.out_queues q m h.queues e (omega arith);
            sends = h.sends;
            arrivals =
                subst (λ n. AllWithin n s.data_arrivals)
                  (sym (length-set_elem s.out_queues (cluster_of m) (q ++ m ∷ []))) h.arrivals;
            pending = h.pending;
          },
          r,
        ))
        (λ _. excepts h)

  -- The counts go up by one, from below the bound.
  pub enqueue_data_message-IsRouted :
      (node : Bool) (m : GenericMessage) (size : ℕ) (s : State)
      → cluster_of m < length s.out_queues
      → s.pending.messages < max_pending_data_msg
      → Routed limit w s
      → Post (IsRouted limit) (λ _. Routed limit w) (enqueue_data_message node m size s)
  unfolding enqueue_data_message
  enqueue_data_message-IsRouted node m size s lt few (h, r) =
      enqueue_out-IsRouted node m (record s { pending = count_pending size s.pending })
        (get_elem? s.out_queues (cluster_of m)) refl lt
        (
          record {
            queues = h.queues;
            sends = h.sends;
            arrivals = h.arrivals;
            pending = omega arith;
          },
          r,
        )

  isend-IsRouted :
      (m : GenericMessage) (pid len tag : ℕ) (calls : List SendCalls) (s : State)
      → IsDelivery s.cluster_rank
          (record { message = m; len = len; rank = get_process_rank pid; tag = tag })
      → Routed limit w s
      → Post (IsRouted limit) (λ _. Routed limit w) (isend m (get_process_rank pid) len tag calls s)
  isend-IsRouted m pid len tag [] s d (h, r) = excepts h
  isend-IsRouted m pid len tag (call ∷ calls) s d (h, r) =
      if-Post (not call.node) (λ _. excepts h)
        (λ _.
          if-Post (not (call.error == 0)) (λ _. excepts h)
            (λ _. holds (
              record {
                queues = h.queues;
                sends = AllDeliveries-append s.cluster_rank s.sent _ h.sends d;
                arrivals = h.arrivals;
                pending = h.pending;
              },
              r,
            )))

  -- `d` says how the message asks for the process and the length.
  pub forward_mpi_message-IsRouted :
      (m : GenericMessage) (pid len tag : ℕ) (s : State)
      → (get_cluster_rank pid ≡ s.cluster_rank
          → IsDelivery s.cluster_rank
              (record { message = m; len = len; rank = get_process_rank pid; tag = tag }))
      → Routed limit w s
      → Post (IsRouted limit) (λ _. Routed limit w) (forward_mpi_message m pid len tag s)
  unfolding forward_mpi_message
  forward_mpi_message-IsRouted m pid len tag s d (h, r) =
      if-Post (not (get_cluster_rank pid == s.cluster_rank)) (λ _. excepts h)
        (λ e. isend-IsRouted m pid len tag s.sends s (d (own e)) (h, r))
    where
      own :
          not (get_cluster_rank pid == s.cluster_rank) ≡ false
          → get_cluster_rank pid ≡ s.cluster_rank
      own e = ground arith

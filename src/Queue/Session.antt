-- ===== src/Queue/Session.antt =====
-- A client's calls of message_queue.c one after another, against the list of messages.
use Prim.Native.Nat.{ℕ, ◌+◌, ◌≤◌}
use e_salsa_mpi.Prelude.{
  Bool, Option, none, some, List, [], ◌∷◌, ◌++◌, ◌≡◌, refl, arith, length, length-append, subst, ℤ,
  pos, negsuc,
}
use e_salsa_mpi.Queue.Defs.{MessageQueue, message_enqueue, message_dequeue, dequeue_matching, ◌>>=◌}
use e_salsa_mpi.Queue.Spec.{take_first, take_oldest}
use e_salsa_mpi.Queue.Fifo.{
  Holds, Takes, enqueue_refines, dequeue_refines, dequeue_matching_refines,
}

-- message_enqueue with what malloc returns, message_dequeue, data_message_dequeue_matching
pub data Call (M : Type 0) : Type 0 where
  put : Option ℕ → M → Call M
  get : Call M
  match : (M → Bool) → Call M

-- what a call returns
pub data Reply (M : Type 0) : Type 0 where
  code : ℤ → Reply M
  message : Option M → Reply M

module _ {M : Type 0} where
  abbrev after : List M → Option (M × List M) → List M
  after ms none = ms
  after ms (some (m, r)) = r

  abbrev taken : Option (M × List M) → Option M
  taken none = none
  taken (some (m, r)) = some m

  -- What the calls return when the queue is a list. A message for which malloc fails is not queued.
  unfoldable pub replies : List M → List (Call M) → List (Reply M)
  replies ms [] = []
  replies ms (put none m ∷ cs) = code (negsuc 0) ∷ replies ms cs
  replies ms (put (some a) m ∷ cs) = code (pos 0) ∷ replies (ms ++ m ∷ []) cs
  replies ms (get ∷ cs) = message (taken (take_oldest ms)) ∷ replies (after ms (take_oldest ms)) cs
  replies ms (match test ∷ cs) =
      message (taken (take_first test ms)) ∷ replies (after ms (take_first test ms)) cs

  length-after_oldest : (ms : List M) → length (after ms (take_oldest ms)) ≤ length ms
  unfolding take_oldest
  length-after_oldest [] = omega arith
  length-after_oldest (m ∷ q) = omega arith

  length-after_first :
      (test : M → Bool) (ms : List M) → length (after ms (take_first test ms)) ≤ length ms
  unfolding take_first
  length-after_first test [] = omega arith
  length-after_first test (m ∷ q) = ground (arith, length-after_first test q)

  -- `P` holds of the queue that a call leaves, unless the call is a fault.
  abbrev pub Leaves :
      {A : Type 0} → Option (A × MessageQueue M) → (MessageQueue M → Type 0) → Type 0
  Leaves none P = Unit {0}
  Leaves (some (a, q)) P = P q

-- `fuel` bounds the rounds of a search.
module _ {M : Type 0} (fuel : ℕ) where
  -- malloc returns NULL or an address that is not in use.
  abbrev pub Allocates : MessageQueue M → List (Call M) → Type 0
  Allocates q [] = Unit {0}
  Allocates q (put none m ∷ cs) = Leaves (message_enqueue none m q) (λ q'. Allocates q' cs)
  Allocates q (put (some a) m ∷ cs) =
      (q.heap a ≡ none) × Leaves (message_enqueue (some a) m q) (λ q'. Allocates q' cs)
  Allocates q (get ∷ cs) = Leaves (message_dequeue q) (λ q'. Allocates q' cs)
  Allocates q (match test ∷ cs) = Leaves (dequeue_matching test fuel q) (λ q'. Allocates q' cs)

  -- What the calls return on the linked list; `none` is a fault.
  unfoldable pub session : MessageQueue M → List (Call M) → Option (List (Reply M))
  session q [] = some []
  session q (put a m ∷ cs) = do
    (c, q') ← message_enqueue a m q
    rest ← session q' cs
    some (code c ∷ rest)
  session q (get ∷ cs) = do
    (m, q') ← message_dequeue q
    rest ← session q' cs
    some (message m ∷ rest)
  session q (match test ∷ cs) = do
    (m, q') ← dequeue_matching test fuel q
    rest ← session q' cs
    some (message m ∷ rest)

  -- The continuation after a call that takes a message out.
  session-Takes :
      (q : MessageQueue M) (ms : List M) (o : Option (M × List M))
      (result : Option (Option M × MessageQueue M)) (cs : List (Call M))
      → Takes q o result
      → Holds q ms
      → Leaves result (λ q'. Allocates q' cs)
      → ((q' : MessageQueue M) (ms' : List M)
          → ms' ≡ after ms o
          → Holds q' ms'
          → Allocates q' cs
          → session q' cs ≡ some (replies ms' cs))
      → (result >>= λ r. session r.1 cs >>= λ rest. some (message r.0 ∷ rest))
        ≡ some (message (taken o) ∷ replies (after ms o) cs)
  session-Takes q ms none result cs t h fresh further =
      let fresh' = subst (λ r. Leaves r (λ q'. Allocates q' cs)) t fresh in
      rw (t, further q ms refl h fresh')
  session-Takes q ms (some (m, r)) result cs (q', e, h') h fresh further =
      let fresh' = subst (λ r. Leaves r (λ q'. Allocates q' cs)) e fresh in
      rw (e, further q' r refl h' fresh')

  -- On a queue that holds the messages `ms`, the calls `cs` of message_enqueue, message_dequeue and
  -- data_message_dequeue_matching, in any order, return what they return on the plain list, and none
  -- follows a bad pointer. Each malloc gives NULL or an address that is not in use, and the fuel of
  -- a search is at least the number of messages and calls.
  pub session_refines :
      (q : MessageQueue M) (ms : List M) (cs : List (Call M))
      → Holds q ms
      → Allocates q cs
      → length ms + length cs ≤ fuel
      → session q cs ≡ some (replies ms cs)
  unfolding session replies
  session_refines q ms [] h fresh enough = refl
  session_refines q ms (put none m ∷ cs) h fresh enough =
      let kept : message_enqueue none m q ≡ some (negsuc 0, q) = unfold message_enqueue in refl in
      let fresh' = subst (λ r. Leaves r (λ q'. Allocates q' cs)) kept fresh in
      rw (kept, session_refines q ms cs h fresh' (omega arith))
  session_refines q ms (put (some a) m ∷ cs) h fresh enough =
      let (q', e, h') = enqueue_refines q ms a m h fresh.0 in
      let fresh' = subst (λ r. Leaves r (λ q'. Allocates q' cs)) e fresh.1 in
      rw (
        e,
        session_refines q' (ms ++ m ∷ []) cs h' fresh'
            (omega (arith, length-append {0} ms (m ∷ []))),
      )
  session_refines q ms (get ∷ cs) h fresh enough =
      session-Takes q ms (take_oldest ms) (message_dequeue q) cs (dequeue_refines q ms h) h fresh
        λ q' ms' e h' fresh'.
          session_refines q' ms' cs h' fresh' (rw e (omega (arith, length-after_oldest ms)))
  session_refines q ms (match test ∷ cs) h fresh enough =
      session-Takes q ms (take_first test ms) (dequeue_matching test fuel q) cs
        (dequeue_matching_refines test fuel q ms h (omega arith)) h fresh
        λ q' ms' e h' fresh'.
          session_refines q' ms' cs h' fresh' (rw e (omega (arith, length-after_first test ms)))

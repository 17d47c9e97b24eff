-- ===== src/Queue/Fifo.antt =====
-- The functions of message_queue.c refine the list of the messages that are in the queue.
use Prim.Native.Nat.{ℕ, ◌≤◌}
use e_salsa_mpi.Prelude.{
  Bool, Option, none, some, List, [], ◌∷◌, ◌++◌, ◌≡◌, ◌∙◌, refl, sym, ap, arith, length, length-map,
  pos, subst,
}
use mathlib.Core.List.{map-append}
use e_salsa_mpi.Queue.Defs.{MessageQueue, message_enqueue, message_dequeue, dequeue_matching}
use e_salsa_mpi.Queue.Spec.{take_first, take_oldest}
use e_salsa_mpi.Queue.Chain.{Cells, messages, Represents, queue_path}
use e_salsa_mpi.Queue.Refine.{enqueue_Represents, dequeue_Represents}
use e_salsa_mpi.Queue.Loop.{Took, cell_test, matching-Took}

module _ {M : Type 0} where
  -- The queue is well formed and holds these messages, oldest first.
  abbrev pub Holds : MessageQueue M → List M → Type 0
  Holds q ms = (xs : Cells M) × Represents q xs × (messages xs ≡ ms)

  -- The result of a function that takes what `o` says out of the queue: NULL and the same queue,
  -- or the message and a queue that holds the others. It is no fault in either case.
  abbrev pub Takes :
      MessageQueue M → Option (M × List M) → Option (Option M × MessageQueue M) → Type 0
  Takes q none result = result ≡ some (none, q)
  Takes q (some (m, ms)) result = (q' : MessageQueue M) × (result ≡ some (some m, q')) × Holds q' ms

  -- the messages of what is taken out of a chain
  abbrev strip : Option ((ℕ × M) × Cells M) → Option (M × List M)
  strip none = none
  strip (some (c, xs)) = some (c.1, messages xs)

  Takes-strip :
      (q : MessageQueue M) (o : Option ((ℕ × M) × Cells M))
      (result : Option (Option M × MessageQueue M))
      → Took q [] o result
      → Takes q (strip o) result
  Takes-strip q none result t = t
  Takes-strip q (some (c, xs)) result (q', e, r) = (q', e, (xs, r, refl))

  take_first-messages :
      (test : M → Bool) (xs : Cells M)
      → strip (take_first (cell_test test) xs) ≡ take_first test (messages xs)
  unfolding take_first
  take_first-messages test [] = refl
  take_first-messages test ((a, m) ∷ xs) = ground (arith, take_first-messages test xs)

  -- On a well-formed queue that holds `ms`, message_enqueue with a malloc that gives an address not
  -- in use returns 0, and the queue then is well-formed and holds `ms` with the message at its end.
  pub enqueue_refines :
      (q : MessageQueue M) (ms : List M) (node : ℕ) (m : M)
      → Holds q ms
      → q.heap node ≡ none
      → (q' : MessageQueue M) × (message_enqueue (some node) m q ≡ some (pos 0, q'))
        × Holds q' (ms ++ m ∷ [])
  enqueue_refines q ms node m (xs, r, e) unused =
      let (q', e', r') = enqueue_Represents q xs node m r unused in
      (
        q',
        e',
        (
          xs ++ (node, m) ∷ [],
          r',
          map-append (λ (c : ℕ × M). c.1) xs ((node, m) ∷ []) ∙ ap (λ l. l ++ m ∷ []) e,
        ),
      )

  -- On a well-formed queue that holds `ms`, message_dequeue returns the oldest message and leaves a
  -- well-formed queue of the others; on an empty queue it returns NULL and changes nothing.
  pub dequeue_refines :
      (q : MessageQueue M) (ms : List M) → Holds q ms → Takes q (take_oldest ms) (message_dequeue q)
  unfolding take_oldest message_dequeue
  dequeue_refines q ms (xs, r, e) = subst Goal e (chain_case xs r)
    where
      Goal : List M → Type 0
      Goal l = Takes q (take_oldest l) (message_dequeue q)

      chain_case : (ys : Cells M) → Represents q ys → Goal (messages ys)
      chain_case [] r' =
          let p = queue_path q none none r'.head_is r'.tail_is in
          ap message_dequeue p ∙ ap (λ (q₀ : MessageQueue M). some (none, q₀)) (sym p)
      chain_case ((a, m) ∷ ys) r' =
          let (q', e', r₁) = dequeue_Represents q a m ys r' in (q', e', (ys, r₁, refl))

  -- On a well-formed queue that holds `ms`, data_message_dequeue_matching returns the oldest message
  -- that passes the test and leaves a well-formed queue of the others in their order; if none
  -- passes, it returns NULL and changes nothing. The fuel is at least the number of messages.
  pub dequeue_matching_refines :
      (test : M → Bool) (fuel : ℕ) (q : MessageQueue M) (ms : List M)
      → Holds q ms
      → length ms ≤ fuel
      → Takes q (take_first test ms) (dequeue_matching test fuel q)
  dequeue_matching_refines test fuel q ms (xs, r, e) h =
      let enough : length xs ≤ fuel =
        omega (arith, length-map (λ (c : ℕ × M). c.1) xs, ap (length {A = M}) e) in
      subst (λ o. Takes q o (dequeue_matching test fuel q))
        (take_first-messages test xs ∙ ap (take_first test) e)
        (Takes-strip q _ _ (matching-Took test fuel q xs r enough))

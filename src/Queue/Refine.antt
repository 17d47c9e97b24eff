-- ===== src/Queue/Refine.antt =====
-- `message_enqueue`, `message_dequeue` and `message_queue_empty` on a queue that holds a chain.
use Prim.Native.Nat.{ℕ}
use e_salsa_mpi.Prelude.{
  false, none, some, [], ◌∷◌, ◌++◌, ◌≡◌, refl, ap, arith, pos, ne→==, ◌≢◌, ◌∙◌, sym,
}
use e_salsa_mpi.Queue.Defs.{Ptr, Heap, MessageQueue, write, message_enqueue, message_dequeue}
use e_salsa_mpi.Queue.Chain.{
  Cells, has, last_ptr, node, Chain, Represents, frame-write, not-has_of_none, has-last, last-cons,
  last-append, has-append, ne_of_has, write_other, queue_path,
}

module _ {M : Type 0} where
  -- The last node of a chain points to NULL.
  last_node :
      (h : Heap M) (x : ℕ × M) (xs : Cells M) (t : ℕ)
      → Chain h (x ∷ xs)
      → last_ptr (x ∷ xs) ≡ some t
      → (m : M) × (h t ≡ some (node m none))
  last_node h (a, v) [] t c e = (v, ground arith)
  last_node h (a, v) (y ∷ xs) t c e = last_node h y xs t c.2 e

  -- Linking a fresh node behind the last one.
  link :
      (h : Heap M) (x : ℕ × M) (xs : Cells M) (t p : ℕ) (m mt : M)
      → h t ≡ some (node mt none)
      → Chain h (x ∷ xs)
      → last_ptr (x ∷ xs) ≡ some t
      → has p (x ∷ xs) ≡ false
      → Chain
          (write (write h p (some (node m none))) t (some (node mt (some p))))
          ((x ∷ xs) ++ (p, m) ∷ [])
  unfolding write
  link h (a, v) [] t p m mt old c e out = (ground arith, ground arith, (ground arith, refl, tt))
  link h (a, v) ((b, w) ∷ xs) t p m mt old c e out =
      let apart : a ≢ t =
        λ same. ne_of_has t a ((b, w) ∷ xs) (has-last (b, w) xs t e) c.1 (sym same) in
      let fresh : a ≢ p = ground arith in
      (
        write_other (write h p (some (node m none))) t _ a apart
            ∙ write_other h p (some (node m none)) a fresh
            ∙ c.0,
        ground (arith, has-append a ((b, w) ∷ xs) ((p, m) ∷ [])),
        link h (b, w) xs t p m mt old c.2 e (ground arith),
      )

  pub enqueue_Represents :
      (q : MessageQueue M) (xs : Cells M) (p : ℕ) (m : M)
      → Represents q xs
      → q.heap p ≡ none
      → (q' : MessageQueue M) × (message_enqueue (some p) m q ≡ some (pos 0, q'))
        × Represents q' (xs ++ (p, m) ∷ [])
  unfolding message_enqueue write
  enqueue_Represents q [] p m r unused = (
    record { head = some p; tail = some p; heap = write q.heap p (some (node m none)) },
    ground arith,
    record { head_is = refl; tail_is = refl; chain = (ground arith, refl, tt) },
  )
  enqueue_Represents q (x ∷ xs) p m r unused =
      let (t, last) = last-cons x xs in
      let (mt, old) = last_node q.heap x xs t r.chain last in
      let out : has p (x ∷ xs) ≡ false = not-has_of_none q.heap (x ∷ xs) p r.chain unused in
      (
        record q {
          tail = some p;
          heap = write (write q.heap p (some (node m none))) t (some (node mt (some p)));
        },
        ground (arith, r.tail_is),
        record {
          head_is = ground arith;
          tail_is = rw (last-append (x ∷ xs) (p, m) []) refl;
          chain = link q.heap x xs t p m mt old r.chain last out;
        },
      )

  dequeue_step :
      (h : Heap M) (a t : ℕ) (m : M) (next : Ptr)
      → h a ≡ some (node m next)
      → a ≢ t
      → message_dequeue (record { head = some a; tail = some t; heap = h })
        ≡ some (some m, record { head = next; tail = some t; heap = write h a none })
  unfolding message_dequeue
  dequeue_step h a t m next e ne = rw (e, ne→== a t ne)

  -- The oldest node leaves.
  pub dequeue_Represents :
      (q : MessageQueue M) (a : ℕ) (m : M) (xs : Cells M)
      → Represents q ((a, m) ∷ xs)
      → (q' : MessageQueue M) × (message_dequeue q ≡ some (some m, q')) × Represents q' xs
  unfolding message_dequeue write
  dequeue_Represents q a m [] r = (
    record { head = none; tail = none; heap = write q.heap a none },
    ground arith,
    record { head_is = refl; tail_is = refl; chain = tt },
  )
  dequeue_Represents q a m ((b, w) ∷ xs) r =
      let (t, last) = last-cons (b, w) xs in
      let apart : t ≢ a = ne_of_has t a ((b, w) ∷ xs) (has-last (b, w) xs t last) r.chain.1 in
      (
        record { head = some b; tail = some t; heap = write q.heap a none },
        ap message_dequeue (queue_path q (some a) (some t) r.head_is (r.tail_is ∙ last))
            ∙ dequeue_step q.heap a t m (some b) r.chain.0 (λ same. apart (sym same)),
        record {
          head_is = refl;
          tail_is = sym last;
          chain = frame-write q.heap ((b, w) ∷ xs) a none r.chain.2 r.chain.1;
        },
      )

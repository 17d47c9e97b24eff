-- ===== src/Queue/Loop.antt =====
-- The loop of `data_message_dequeue_matching` against `take_first` on the messages in the queue.
use Prim.Native.Nat.{ℕ, zero, suc, ◌≤◌}
use e_salsa_mpi.Prelude.{
  Bool, Option, none, some, [], ◌∷◌, ◌++◌, ◌≡◌, ◌∙◌, refl, sym, ap, arith, length, append_assoc,
  Bool-cases, if◌then◌else◌, inl, inr, subst,
}
use e_salsa_mpi.Queue.Defs.{
  Ptr, MessageQueue, take_out, dequeue_loop, dequeue_from, dequeue_matching, ◌>>=◌,
}
use e_salsa_mpi.Queue.Spec.{take_first, put_back}
use e_salsa_mpi.Queue.Chain.{Cells, head_ptr, node, Represents}
use e_salsa_mpi.Queue.Unlink.{Chain-suffix}
use e_salsa_mpi.Queue.Matching.{take_out_behind, take_out_first}

module _ {M : Type 0} where
  -- What the loop returns when `o` is what can be taken out of the cells behind `pre`.
  abbrev pub Took :
      MessageQueue M
      → Cells M
      → Option ((ℕ × M) × Cells M)
      → Option (Option M × MessageQueue M)
      → Type 0
  Took q pre none result = result ≡ some (none, q)
  Took q pre (some (c, ys)) result =
      (q' : MessageQueue M) × (result ≡ some (some c.1, q')) × Represents q' (pre ++ ys)

  Took-shift :
      (q : MessageQueue M) (pre : Cells M) (x : ℕ × M) (o : Option ((ℕ × M) × Cells M))
      (result : Option (Option M × MessageQueue M))
      → Took q (pre ++ x ∷ []) o result
      → Took q pre (put_back x o) result
  Took-shift q pre x none result t = t
  Took-shift q pre x (some (c, ys)) result (q', e, r) =
      (q', e, subst (Represents q') (append_assoc pre (x ∷ []) ys) r)

module _ {M : Type 0} (test : M → Bool) where
  -- the test, on a node
  abbrev pub cell_test : ℕ × M → Bool
  cell_test c = test c.1

  loop-Took :
      (fuel : ℕ) (q : MessageQueue M) (pre : Cells M) (b : ℕ) (w : M) (xs : Cells M)
      → Represents q (pre ++ (b, w) ∷ xs)
      → length xs ≤ fuel
      → Took q
          (pre ++ (b, w) ∷ [])
          (take_first cell_test xs)
          (dequeue_loop test fuel (some b) (head_ptr xs) q)
  unfolding take_first dequeue_loop
  loop-Took fuel q pre b w [] r h = refl
  loop-Took zero q pre b w (x ∷ xs) r h = absurd (omega arith)
  loop-Took (suc fuel) q pre b w ((a, m) ∷ xs) r h =
      let c = Chain-suffix q.heap pre ((b, w) ∷ (a, m) ∷ xs) r.chain in
      elim (Bool-cases (test m)) [
        | inl hit ↦
            let (q', e, r') = take_out_behind q pre b w a m xs r in
            rw (c.2.0, hit)
              (q', e, subst (Represents q') (sym (append_assoc pre ((b, w) ∷ []) xs)) r')
        | inr miss ↦
            let r' : Represents q ((pre ++ (b, w) ∷ []) ++ (a, m) ∷ xs) =
              subst (Represents q) (sym (append_assoc pre ((b, w) ∷ []) ((a, m) ∷ xs))) r in
            rw (c.2.0, miss)
              (Took-shift q (pre ++ (b, w) ∷ []) (a, m) (take_first cell_test xs) _
                (loop-Took fuel q (pre ++ (b, w) ∷ []) a m xs r' (omega arith)))
      ]

  matching_step :
      (fuel : ℕ) (q : MessageQueue M) (a : ℕ) (m : M) (next : Ptr)
      → q.head ≡ some a
      → q.heap a ≡ some (node m next)
      → dequeue_matching test (suc fuel) q ≡ (
          if test m
          then take_out none a (node m next) q
          else dequeue_loop test fuel (some a) next q)
  unfolding dequeue_loop dequeue_matching dequeue_from
  matching_step fuel q a m next e f =
      ap (λ p. dequeue_from test (suc fuel) p q) e
      ∙ ap
          (λ o. o >>= λ info.
            let further = dequeue_loop test fuel (some a) info.next q in
            if test info.message then take_out none a info q else further)
          f

  pub matching-Took :
      (fuel : ℕ) (q : MessageQueue M) (xs : Cells M)
      → Represents q xs
      → length xs ≤ fuel
      → Took q [] (take_first cell_test xs) (dequeue_matching test fuel q)
  unfolding take_first dequeue_matching dequeue_from
  matching-Took fuel q [] r h = ap (λ p. dequeue_from test fuel p q) r.head_is
  matching-Took zero q (x ∷ xs) r h = absurd (omega arith)
  matching-Took (suc fuel) q ((a, m) ∷ xs) r h =
      rw (matching_step fuel q a m (head_ptr xs) r.head_is r.chain.0) (elim (Bool-cases (test m)) [
        | inl hit ↦ rw hit (take_out_first q a m xs r)
        | inr miss ↦ rw miss (
            Took-shift q [] (a, m) (take_first cell_test xs) _
              (loop-Took fuel q [] a m xs r (omega arith)))
      ])

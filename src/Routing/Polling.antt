-- ===== src/Routing/Polling.antt =====
-- src/backend/gateway.c: poll_mpi_requests on the linked list of mpi_message nodes, with its pointers
-- `prev` and `curr`, and that it does what Process has for lists. The nodes, pointers and chains are
-- those of Queue; `none` is an access through a pointer to nothing, or too little fuel.
use e_salsa_mpi.Prelude.{
  ℕ, zero, suc, ◌≤◌, ◌==◌, if◌then◌else◌, Bool, true, not, ◌||◌, Option, none, some, List, [], ◌∷◌,
  ◌++◌, length, append_assoc, ◌≡◌, ◌≢◌, ◌∙◌, refl, sym, ap, subst, Bool-cases, inl, inr, arith,
}
use e_salsa_mpi.Codes.{mpi, Result, ok, err}
use e_salsa_mpi.Queue.Defs.{Ptr, Heap, write, ◌>>=◌, load, set_next, free}
use e_salsa_mpi.Queue.Chain.{
  Cells, has, head_ptr, messages, node, Chain, frame-write, ne_of_has, write_self, write_other,
}
use e_salsa_mpi.Queue.Unlink.{Chain-suffix, Chain-bypass}
use e_salsa_mpi.Routing.Defs.{MpiMessage}
use e_salsa_mpi.Routing.Process.{TestCall, keep, poll_loop}
use e_salsa_mpi.Routing.Forward.{Polls, poll_loop-Polls}

-- The branch for a send that is done: `curr`, `mpi_messages` and the heap behind it.
unfoldable pub unlink_done : Ptr → ℕ → Ptr → Heap MpiMessage → Option (Ptr × Ptr × Heap MpiMessage)
unlink_done none c head h = do
  first ← load h head
  h' ← free h (some c)
  some (first.next, first.next, h')
unlink_done (some p) c head h = do
  curr ← load h (some c)
  h₁ ← set_next h (some p) curr.next
  curr₁ ← load h₁ (some c)
  h' ← free h₁ (some c)
  some (curr₁.next, head, h')

-- The `while` loop, with fuel for its rounds: the code, `mpi_messages` and the heap.
unfoldable pub poll_pointers :
    (ℕ → TestCall)
    → ℕ
    → Ptr
    → Ptr
    → Ptr
    → Heap MpiMessage
    → Option (Result (Unit {0}) × Ptr × Heap MpiMessage)
poll_pointers test fuel prev none head h = some (ok tt, head, h)
poll_pointers test zero prev (some c) head h = none
poll_pointers test (suc fuel) prev (some c) head h = do
  info ← load h (some c)
  let behind = do
    (curr, head', h') ← unlink_done prev c head h
    poll_pointers test fuel prev curr head' h'
  let further = poll_pointers test fuel (some c) info.next head h
  if not ((test info.message.request).error == 0)
      then some (err (mpi (test info.message.request).error), head, h)
      else if (test info.message.request).flag
      then behind
      else further

module _ (test : ℕ → TestCall) where
  -- The loop behind the cells `pre` and the one at `b`: `p` is what it does on a list.
  abbrev LeavesBehind :
      Cells MpiMessage
      → ℕ × MpiMessage
      → Ptr
      → Result (Unit {0}) × List MpiMessage
      → Option (Result (Unit {0}) × Ptr × Heap MpiMessage)
      → Type 0
  LeavesBehind pre x head p result =
      (kept : Cells MpiMessage) × (h' : Heap MpiMessage) × (result ≡ some (p.0, head, h'))
      × Chain h' (pre ++ x ∷ kept)
      × (messages kept ≡ p.1)

  abbrev Leaves :
      Result (Unit {0}) × List MpiMessage
      → Option (Result (Unit {0}) × Ptr × Heap MpiMessage)
      → Type 0
  Leaves p result =
      (kept : Cells MpiMessage) × (h' : Heap MpiMessage) × (result ≡ some (p.0, head_ptr kept, h'))
      × Chain h' kept
      × (messages kept ≡ p.1)

  -- The cell at `a` is none of those before it.
  apart :
      (h : Heap MpiMessage) (pre : Cells MpiMessage) (b : ℕ) (w : MpiMessage) (a : ℕ)
      (m : MpiMessage) (xs : Cells MpiMessage)
      → Chain h (pre ++ (b, w) ∷ (a, m) ∷ xs)
      → a ≢ b
  apart h pre b w a m xs c =
      ne_of_has a b ((a, m) ∷ xs) (found (has a xs)) (Chain-suffix h pre ((b, w) ∷ (a, m) ∷ xs) c).1
    where
      found : (y : Bool) → ((a == a) || y) ≡ true
      found y = ground arith

  unlink_done-behind :
      (h : Heap MpiMessage) (b : ℕ) (w : MpiMessage) (a : ℕ) (m : MpiMessage) (next head : Ptr)
      → h b ≡ some (node w (some a))
      → h a ≡ some (node m next)
      → a ≢ b
      → unlink_done (some b) a head h
        ≡ some (next, head, write (write h b (some (node w next))) a none)
  unfolding unlink_done write
  unlink_done-behind h b w a m next head e f ne = ground arith

  poll_pointers-behind :
      (fuel : ℕ) (h : Heap MpiMessage) (pre : Cells MpiMessage) (b : ℕ) (w : MpiMessage)
      (xs : Cells MpiMessage) (head : Ptr)
      → Chain h (pre ++ (b, w) ∷ xs)
      → length xs ≤ fuel
      → LeavesBehind pre
          (b, w)
          head
          (poll_loop test (messages xs))
          (poll_pointers test fuel (some b) (head_ptr xs) head h)
  unfolding poll_pointers poll_loop
  poll_pointers-behind fuel h pre b w [] head c le = ([], h, refl, c, refl)
  poll_pointers-behind zero h pre b w (x ∷ xs) head c le = absurd (omega arith)
  poll_pointers-behind (suc fuel) h pre b w ((a, m) ∷ xs) head c le =
      let d = Chain-suffix h pre ((b, w) ∷ (a, m) ∷ xs) c in
      let ne = apart h pre b w a m xs c in
      elim (Bool-cases ((test m.request).error == 0)) [
        | inr failed ↦ rw (d.2.0, failed) ((a, m) ∷ xs, h, refl, c, refl)
        | inl tested ↦ elim (Bool-cases (test m.request).flag) [
          | inl done ↦
              rw (d.2.0, tested, done, unlink_done-behind h b w a m (head_ptr xs) head d.0 d.2.0 ne)
                (poll_pointers-behind fuel _ pre b w xs head (bypass d.2.0 ne) (omega arith))
          | inr waiting ↦
              rw (d.2.0, tested, waiting)
                (kept_one (poll_loop test (messages xs)) _ (
                  poll_pointers-behind fuel h (pre ++ (b, w) ∷ []) a m xs head
                    (subst (Chain h) (sym (append_assoc pre ((b, w) ∷ []) ((a, m) ∷ xs))) c)
                    (omega arith)))
        ]
      ]
    where
      bypass :
          h a ≡ some (node m (head_ptr xs))
          → a ≢ b
          → Chain (write (write h b (some (node w (head_ptr xs)))) a none) (pre ++ (b, w) ∷ xs)
      bypass f ne =
          Chain-bypass h _ pre b w a m xs c
            (write_other _ a none b (λ same. ne (sym same)) ∙ write_self h b _)
            (λ k na nb. write_other _ a none k na ∙ write_other h b _ k nb)

      kept_one :
          (p : Result (Unit {0}) × List MpiMessage)
          (r : Option (Result (Unit {0}) × Ptr × Heap MpiMessage))
          → LeavesBehind (pre ++ (b, w) ∷ []) (a, m) head p r
          → LeavesBehind pre (b, w) head (keep m p) r
      kept_one (code, rest) r (kept, h', e, chain, same) = (
        (a, m) ∷ kept,
        h',
        e,
        subst (Chain h') (append_assoc pre ((b, w) ∷ []) ((a, m) ∷ kept)) chain,
        ap (◌∷◌ m) same,
      )

  unlink_done-first :
      (h : Heap MpiMessage) (a : ℕ) (m : MpiMessage) (next : Ptr)
      → h a ≡ some (node m next)
      → unlink_done none a (some a) h ≡ some (next, next, write h a none)
  unfolding unlink_done
  unlink_done-first h a m next e = rw e refl

  poll_pointers-Leaves :
      (fuel : ℕ) (h : Heap MpiMessage) (xs : Cells MpiMessage)
      → Chain h xs
      → length xs ≤ fuel
      → Leaves
          (poll_loop test (messages xs))
          (poll_pointers test fuel none (head_ptr xs) (head_ptr xs) h)
  unfolding poll_pointers poll_loop
  poll_pointers-Leaves fuel h [] c le = ([], h, refl, c, refl)
  poll_pointers-Leaves zero h (x ∷ xs) c le = absurd (omega arith)
  poll_pointers-Leaves (suc fuel) h ((a, m) ∷ xs) c le =
      elim (Bool-cases ((test m.request).error == 0)) [
        | inr failed ↦ rw (c.0, failed) ((a, m) ∷ xs, h, refl, c, refl)
        | inl tested ↦ elim (Bool-cases (test m.request).flag) [
          | inl done ↦
              rw (c.0, tested, done, unlink_done-first h a m (head_ptr xs) c.0)
                (poll_pointers-Leaves fuel (write h a none) xs (frame-write h xs a none c.2 c.1)
                  (omega arith))
          | inr waiting ↦
              rw (c.0, tested, waiting)
                (kept_first (poll_loop test (messages xs)) _
                  (poll_pointers-behind fuel h [] a m xs (some a) c (omega arith)))
        ]
      ]
    where
      kept_first :
          (p : Result (Unit {0}) × List MpiMessage)
          (r : Option (Result (Unit {0}) × Ptr × Heap MpiMessage))
          → LeavesBehind [] (a, m) (some a) p r
          → Leaves (keep m p) r
      kept_first (code, rest) r (kept, h', e, chain, same) =
          ((a, m) ∷ kept, h', e, chain, ap (◌∷◌ m) same)

  -- Where mpi_messages leads through a chain of nodes: the loop of poll_mpi_requests ends, with fuel for
  -- each node, and follows no pointer to nothing. mpi_messages then leads through a chain with what
  -- poll_loop leaves of the list of messages, with its code: if it is EMPI_SUCCESS, PMPI_Test succeeded
  -- for all sends, and those that are not done are left, in their order; else PMPI_Test failed for one
  -- with this error, and of those before it the ones that are not done are left, with all from it on.
  pub poll_pointers-Polls :
      (fuel : ℕ) (h : Heap MpiMessage) (xs : Cells MpiMessage)
      → Chain h xs
      → length xs ≤ fuel
      → (code : Result (Unit {0})) × (kept : Cells MpiMessage) × (h' : Heap MpiMessage)
        × (poll_pointers test fuel none (head_ptr xs) (head_ptr xs) h
            ≡ some (code, head_ptr kept, h'))
        × Chain h' kept
        × (poll_loop test (messages xs) ≡ (code, messages kept))
        × Polls test (messages xs) (code, messages kept)
  poll_pointers-Polls fuel h xs c le =
      by (poll_loop test (messages xs)) refl (poll_pointers-Leaves fuel h xs c le)
    where
      by :
          (p : Result (Unit {0}) × List MpiMessage)
          → poll_loop test (messages xs) ≡ p
          → Leaves p (poll_pointers test fuel none (head_ptr xs) (head_ptr xs) h)
          → (code : Result (Unit {0})) × (kept : Cells MpiMessage) × (h' : Heap MpiMessage)
            × (poll_pointers test fuel none (head_ptr xs) (head_ptr xs) h
                ≡ some (code, head_ptr kept, h'))
            × Chain h' kept
            × (poll_loop test (messages xs) ≡ (code, messages kept))
            × Polls test (messages xs) (code, messages kept)
      by (code, rest) e (kept, h', r, chain, same) =
          let whole = e ∙ ap (λ l. (code, l)) (sym same) in
          (
            code,
            kept,
            h',
            r,
            chain,
            whole,
            subst (Polls test (messages xs)) whole (poll_loop-Polls test (messages xs)),
          )

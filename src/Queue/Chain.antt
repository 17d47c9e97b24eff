-- ===== src/Queue/Chain.antt =====
-- Chains of nodes: from `head` the `next` pointers lead through distinct nodes to NULL.
use Prim.Native.Nat.{ℕ}
use e_salsa_mpi.Prelude.{
  ◌==◌, Bool, true, false, ◌||◌, Option, none, some, List, [], ◌∷◌, ◌++◌, ◌≡◌, refl, ap, arith, ◌≢◌,
  map,
}
use e_salsa_mpi.Queue.Defs.{Ptr, MessageInfo, Heap, MessageQueue, write}

-- address and message of each node, oldest first
abbrev pub Cells : Type 0 → Type 0
Cells M = List (ℕ × M)

module _ {M : Type 0} where
  abbrev pub has : ℕ → Cells M → Bool
  has a [] = false
  has a ((p, _) ∷ xs) = (a == p) || has a xs

  abbrev pub head_ptr : Cells M → Ptr
  head_ptr [] = none
  head_ptr ((a, _) ∷ xs) = some a

  abbrev pub last_ptr : Cells M → Ptr
  last_ptr [] = none
  last_ptr ((a, _) ∷ []) = some a
  last_ptr (x ∷ y ∷ xs) = last_ptr (y ∷ xs)

  abbrev pub messages : Cells M → List M
  messages = map (λ c. c.1)

  abbrev pub node : M → Ptr → MessageInfo M
  node m n = record { next = n; message = m }

  abbrev pub Chain : Heap M → Cells M → Type 0
  Chain h [] = Unit {0}
  Chain h ((a, m) ∷ xs) = (h a ≡ some (node m (head_ptr xs))) × (has a xs ≡ false) × Chain h xs

  pub record Represents (q : MessageQueue M) (xs : Cells M) : Type 0 where
    pub head_is : q.head ≡ head_ptr xs
    pub tail_is : q.tail ≡ last_ptr xs
    pub chain : Chain q.heap xs

  pub frame :
      (h g : Heap M) (xs : Cells M)
      → Chain h xs
      → ((a : ℕ) → has a xs ≡ true → g a ≡ h a)
      → Chain g xs
  frame h g [] c same = tt
  frame h g ((a, m) ∷ xs) c same =
      (ground (arith, same a), c.1, frame h g xs c.2 λ b i. same b (ground arith))

  pub frame-write :
      (h : Heap M) (xs : Cells M) (a : ℕ) (c : Option (MessageInfo M))
      → Chain h xs
      → has a xs ≡ false
      → Chain (write h a c) xs
  unfolding write
  frame-write h xs a c s out = frame h _ xs s λ b i. ground arith

  pub not-has_of_none :
      (h : Heap M) (xs : Cells M) (a : ℕ) → Chain h xs → h a ≡ none → has a xs ≡ false
  not-has_of_none h [] a c e = refl
  not-has_of_none h ((p, m) ∷ xs) a c e = ground (arith, not-has_of_none h xs a c.2)

  -- the last pointer of a chain is one of its nodes
  pub has-last :
      (x : ℕ × M) (xs : Cells M) (t : ℕ) → last_ptr (x ∷ xs) ≡ some t → has t (x ∷ xs) ≡ true
  has-last (a, m) [] t e = ground arith
  has-last (a, m) (y ∷ xs) t e = ground (arith, has-last y xs t e)

  pub last-cons : (x : ℕ × M) (xs : Cells M) → (t : ℕ) × (last_ptr (x ∷ xs) ≡ some t)
  last-cons (a, m) [] = (a, refl)
  last-cons (a, m) (y ∷ xs) = last-cons y xs

  pub last-append :
      (xs : Cells M) (y : ℕ × M) (ys : Cells M) → last_ptr (xs ++ y ∷ ys) ≡ last_ptr (y ∷ ys)
  last-append [] y ys = refl
  last-append (x ∷ []) y ys = refl
  last-append (x ∷ z ∷ xs) y ys = last-append (z ∷ xs) y ys

  pub has-append : (a : ℕ) (xs ys : Cells M) → has a (xs ++ ys) ≡ (has a xs || has a ys)
  has-append a [] ys = refl
  has-append a ((p, m) ∷ xs) ys = ground (arith, has-append a xs ys)

  pub ne_of_has : (t a : ℕ) (xs : Cells M) → has t xs ≡ true → has a xs ≡ false → t ≢ a
  ne_of_has t a xs i o e = ap_cc (ap (λ (n : ℕ). has n xs) e)
    where
      ap_cc : has t xs ≡ has a xs → ⊥
      ap_cc same = cc

  pub write_self : (h : Heap M) (p : ℕ) (c : Option (MessageInfo M)) → write h p c p ≡ c
  unfolding write
  write_self h p c = ground arith

  pub write_other :
      (h : Heap M) (p : ℕ) (c : Option (MessageInfo M)) (a : ℕ) → a ≢ p → write h p c a ≡ h a
  unfolding write
  write_other h p c a ne = ground arith

  -- A queue, written by what it represents.
  pub queue_path :
      (q : MessageQueue M) (head tail : Ptr)
      → q.head ≡ head
      → q.tail ≡ tail
      → q ≡ record { head = head; tail = tail; heap = q.heap }
  queue_path q head tail e f i = record { head = e i; tail = f i; heap = q.heap }

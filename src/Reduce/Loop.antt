-- ===== src/Reduce/Loop.antt =====
-- src/backend/reduce_ops.c: what the loop over two arrays leaves at each index, and what is left when
-- several contributions are reduced one after the other.
use e_salsa_mpi.Prelude.{
  ℕ, zero, suc, ◌+◌, ◌<◌, ltb, leb, if◌then◌else◌, ◌&&◌, Option, none, some, ℤ, List, [], ◌∷◌, map,
  ◌≡◌, refl, ap, ◌∙◌, lt→ltb, arith,
}
use e_salsa_mpi.Reduce.Defs.{reduce_from, reduce_func, rounds, write}

-- The elements of index `j`.
abbrev pub column : {A : Type 0} → ℕ → List (ℕ → A) → List A
column j xs = map (λ x. x j) xs

abbrev pub at : {A : Type 0} → ℕ → Option (ℕ → A) → Option A
at j none = none
at j (some x) = some (x j)

module _ {A : Type 0} (f : A → A → A) where
  reduce_from-at :
      (x : ℕ → A) (n i : ℕ) (y : ℕ → A) (j : ℕ)
      → reduce_from f x n i y j ≡ (if leb i j && ltb j (i + n) then f (x j) (y j) else y j)
  unfolding reduce_from
  reduce_from-at x zero i y j = ground arith
  reduce_from-at x (suc n) i y j =
      reduce_from-at x n (suc i) (write y i (f (x i) (y i))) j ∙ grind arith

  pub reduce_func-at :
      (x y : ℕ → A) (len : ℤ) (j : ℕ)
      → reduce_func f x y len j ≡ (if ltb j (rounds len) then f (x j) (y j) else y j)
  unfolding reduce_func
  reduce_func-at x y len j = reduce_from-at x (rounds len) 0 y j ∙ ground arith

  abbrev pub add : A → Option A → Option A
  add a none = some a
  add a (some b) = some (f a b)

  -- The elements reduced in the order of a list; nothing is the reduction of no elements.
  unfoldable pub fold : List A → Option A
  fold [] = none
  fold (a ∷ vs) = add a (fold vs)

  -- The arrays of several processes, each reduced into the result of those behind it.
  abbrev pub reduce_into : (ℕ → A) → Option (ℕ → A) → ℤ → Option (ℕ → A)
  reduce_into x none len = some x
  reduce_into x (some y) len = some (reduce_func f x y len)

  unfoldable pub gather : List (ℕ → A) → ℤ → Option (ℕ → A)
  gather [] len = none
  gather (x ∷ xs) len = reduce_into x (gather xs len) len

  at-reduce_into :
      (x : ℕ → A) (o : Option (ℕ → A)) (len : ℤ) (j : ℕ)
      → j < rounds len
      → at j (reduce_into x o len) ≡ add (x j) (at j o)
  at-reduce_into x none len j h = refl
  at-reduce_into x (some y) len j h = rw (reduce_func-at x y len j, lt→ltb j (rounds len) h) refl

  pub gather-at :
      (xs : List (ℕ → A)) (len : ℤ) (j : ℕ)
      → j < rounds len
      → at j (gather xs len) ≡ fold (column j xs)
  unfolding gather fold
  gather-at [] len j h = refl
  gather-at (x ∷ xs) len j h =
      at-reduce_into x (gather xs len) len j h ∙ ap (add (x j)) (gather-at xs len j h)

-- ===== src/Reduce/Laws.antt =====
-- src/backend/reduce_ops.c: what the reduction of the arrays of several processes leaves at an index.
use e_salsa_mpi.Prelude.{ℕ, ◌<◌, ℤ, List, ◌∷◌, ◌≡◌, subst, sym, ◌∙◌}
use e_salsa_mpi.Reduce.Types.{Integer}
use e_salsa_mpi.Reduce.Defs.{Located, rounds, macro_max, macro_min, maxloc_body, minloc_body}
use e_salsa_mpi.Reduce.Loop.{gather, gather-at, at, column}
use e_salsa_mpi.Reduce.Order.{All, map-Permᴰ, fold-Permᴰ}
use e_salsa_mpi.Reduce.Range.{InRange}
use e_salsa_mpi.Reduce.Integers.{IntegerOp, IntegerOp-IsExchangeable}
use e_salsa_mpi.Reduce.Choice.{IsChoice, IsChosen, fold-choice}
use e_salsa_mpi.Reduce.Location.{
  Comparison, IsUpper, IsLower, IsSame, IsMaxloc, IsMinloc, IsLike, macro_max-IsChoice,
  macro_min-IsChoice, maxloc_body-IsChoice, minloc_body-IsChoice,
}
use mathlib.Core.List.{Permᴰ}

-- For each of the ten operations on integers of a type `k`: reducing the arrays of the processes in two
-- orders leaves the same integer at every index below `len` at which the arrays hold values of the type,
-- sums and products that wrap around included.
pub reduce-any_order :
    (k : Integer) {f : ℕ → ℕ → ℕ}
    → IntegerOp k f
    → (len : ℤ) (j : ℕ) (xs ys : List (ℕ → ℕ)) → Permᴰ xs ys
    → j < rounds len
    → All (InRange k) (column j xs)
    → at j (gather f xs len) ≡ at j (gather f ys len)
reduce-any_order k {f} op len j xs ys perm below range =
    gather-at f xs len j below
    ∙ fold-Permᴰ (IntegerOp-IsExchangeable k op) (map-Permᴰ (λ (x : ℕ → ℕ). x j) perm) range
    ∙ sym (gather-at f ys len j below)

module _ {A : Type 0} {f : A → A → A} {Best : A → A → Type 0} {Like : A → A → Type 0}
    (h : IsChoice f Best Like) where
  reduce-choice :
      (x : ℕ → A) (xs : List (ℕ → A)) (len : ℤ) (j : ℕ)
      → j < rounds len
      → IsChosen Best Like (column j (x ∷ xs)) (at j (gather f (x ∷ xs) len))
  reduce-choice x xs len j below =
      subst (IsChosen Best Like (column j (x ∷ xs))) (sym (gather-at f (x ∷ xs) len j below))
        (fold-choice h (x j) (column j xs))

module _ {A : Type 0} (v : Comparison A) where
  -- MAX over at least one process leaves, at every index below `len`, a value equal to one there, and no
  -- process has a greater one. A floating-point type has such a comparison where no value is NaN.
  pub reduce-max :
      (x : ℕ → A) (xs : List (ℕ → A)) (len : ℤ) (j : ℕ)
      → j < rounds len
      → IsChosen
          (IsUpper v)
          (IsSame v)
          (column j (x ∷ xs))
          (at j (gather (macro_max v.lesser) (x ∷ xs) len))
  reduce-max = reduce-choice (macro_max-IsChoice v)

  -- MIN over at least one process leaves, at every index below `len`, a value equal to one there, and no
  -- process has a lesser one. A floating-point type has such a comparison where no value is NaN.
  pub reduce-min :
      (x : ℕ → A) (xs : List (ℕ → A)) (len : ℤ) (j : ℕ)
      → j < rounds len
      → IsChosen
          (IsLower v)
          (IsSame v)
          (column j (x ∷ xs))
          (at j (gather (macro_min v.lesser) (x ∷ xs) len))
  reduce-min = reduce-choice (macro_min-IsChoice v)

module _ {A B : Type 0} (v : Comparison A) (l : Comparison B) where
  -- Where C's < and == order the values and the locations totally, as for integers and for
  -- floating-point numbers without NaN: MAXLOC over at least one process leaves, at every index
  -- below `len`, a pair that is equal, by == on value and location, to that of one of the
  -- processes, and every process there has a lesser value, or the same value and no lesser
  -- location.
  pub reduce-IsMaxloc :
      (x : ℕ → Located A B) (xs : List (ℕ → Located A B)) (len : ℤ) (j : ℕ)
      → j < rounds len
      → IsChosen
          (IsMaxloc v l)
          (IsLike v l)
          (column j (x ∷ xs))
          (at j (gather (maxloc_body v.same v.lesser l.lesser) (x ∷ xs) len))
  reduce-IsMaxloc = reduce-choice (maxloc_body-IsChoice v l)

  -- Where C's < and == order the values and the locations totally, as for integers and for
  -- floating-point numbers without NaN: MINLOC over at least one process leaves, at every index
  -- below `len`, a pair that is equal, by == on value and location, to that of one of the
  -- processes, and every process there has a greater value, or the same value and no lesser
  -- location.
  pub reduce-IsMinloc :
      (x : ℕ → Located A B) (xs : List (ℕ → Located A B)) (len : ℤ) (j : ℕ)
      → j < rounds len
      → IsChosen
          (IsMinloc v l)
          (IsLike v l)
          (column j (x ∷ xs))
          (at j (gather (minloc_body v.same v.lesser l.lesser) (x ∷ xs) len))
  reduce-IsMinloc = reduce-choice (minloc_body-IsChoice v l)

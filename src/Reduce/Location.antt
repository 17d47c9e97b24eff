-- ===== src/Reduce/Location.antt =====
-- src/backend/reduce_ops.c: what MAX, MIN, MAXLOC and MINLOC find among the elements of several
-- processes.
use e_salsa_mpi.Prelude.{ℕ, ltb, ◌==◌, tests, Bool, true, false, ◌≡◌, refl, ◌⊎◌}
use e_salsa_mpi.Reduce.Types.{Integer}
use e_salsa_mpi.Reduce.Dispatch.{less_int, equal_int}
use e_salsa_mpi.Reduce.Defs.{order_key, Located, macro_max, macro_min, maxloc_body, minloc_body}
use e_salsa_mpi.Reduce.Choice.{IsChoice}

-- C's `<` and `==` on values that can be listed in increasing order: integers, and floating-point
-- numbers that are not NaN.
pub record Comparison (A : Type 0) : Type 0 where
  pub lesser : A → A → Bool
  pub same : A → A → Bool
  pub key : A → ℕ
  pub lesser-key : (a b : A) → lesser a b ≡ ltb (key a) (key b)
  pub same-key : (a b : A) → same a b ≡ (key a == key b)

abbrev pub integer_comparison : Integer → Comparison ℕ
integer_comparison k = record {
  lesser = less_int k;
  same = equal_int k;
  key = order_key k;
  lesser-key = λ a b. refl;
  same-key = λ a b. refl;
}

module _ {A : Type 0} (v : Comparison A) where
  -- `r` is no less than `x`, and no greater than `x`.
  abbrev pub IsUpper : A → A → Type 0
  IsUpper r x = v.lesser r x ≡ false

  abbrev pub IsLower : A → A → Type 0
  IsLower r x = v.lesser x r ≡ false

  abbrev pub IsSame : A → A → Type 0
  IsSame r x = v.same r x ≡ true

  pub macro_max-IsChoice : IsChoice (macro_max v.lesser) IsUpper IsSame
  macro_max-IsChoice = record {
    best_self = λ a. grind (tests, v.lesser-key, v.same-key);
    like_self = λ a. grind (tests, v.lesser-key, v.same-key);
    best_first = λ a b. grind (tests, v.lesser-key, v.same-key);
    best_onward = λ a b c p. grind (tests, v.lesser-key, v.same-key);
    chosen = λ a b c p. grind (tests, v.lesser-key, v.same-key);
  }

  pub macro_min-IsChoice : IsChoice (macro_min v.lesser) IsLower IsSame
  macro_min-IsChoice = record {
    best_self = λ a. grind (tests, v.lesser-key, v.same-key);
    like_self = λ a. grind (tests, v.lesser-key, v.same-key);
    best_first = λ a b. grind (tests, v.lesser-key, v.same-key);
    best_onward = λ a b c p. grind (tests, v.lesser-key, v.same-key);
    chosen = λ a b c p. grind (tests, v.lesser-key, v.same-key);
  }

module _ {A B : Type 0} (v : Comparison A) (l : Comparison B) where
  -- `r` is at least as good as `x`: a greater value, or an equal one with no greater location.
  abbrev pub IsMaxloc : Located A B → Located A B → Type 0
  IsMaxloc r x =
      (v.lesser x.value r.value ≡ true)
      ⊎ ((v.same r.value x.value ≡ true) × (l.lesser x.loc r.loc ≡ false))

  abbrev pub IsMinloc : Located A B → Located A B → Type 0
  IsMinloc r x =
      (v.lesser r.value x.value ≡ true)
      ⊎ ((v.same r.value x.value ≡ true) × (l.lesser x.loc r.loc ≡ false))

  -- The same element, up to what `==` of C takes for equal.
  abbrev pub IsLike : Located A B → Located A B → Type 0
  IsLike r x = (v.same r.value x.value ≡ true) × (l.same r.loc x.loc ≡ true)

  pub maxloc_body-IsChoice : IsChoice (maxloc_body v.same v.lesser l.lesser) IsMaxloc IsLike
  maxloc_body-IsChoice = record {
    best_self = λ a. grind (tests, v.lesser-key, v.same-key, l.lesser-key, l.same-key);
    like_self = λ a. grind (tests, v.lesser-key, v.same-key, l.lesser-key, l.same-key);
    best_first = λ a b. grind (tests, v.lesser-key, v.same-key, l.lesser-key, l.same-key);
    best_onward = λ a b c p. grind (tests, v.lesser-key, v.same-key, l.lesser-key, l.same-key);
    chosen = λ a b c p. grind (tests, v.lesser-key, v.same-key, l.lesser-key, l.same-key);
  }

  pub minloc_body-IsChoice : IsChoice (minloc_body v.same v.lesser l.lesser) IsMinloc IsLike
  minloc_body-IsChoice = record {
    best_self = λ a. grind (tests, v.lesser-key, v.same-key, l.lesser-key, l.same-key);
    like_self = λ a. grind (tests, v.lesser-key, v.same-key, l.lesser-key, l.same-key);
    best_first = λ a b. grind (tests, v.lesser-key, v.same-key, l.lesser-key, l.same-key);
    best_onward = λ a b c p. grind (tests, v.lesser-key, v.same-key, l.lesser-key, l.same-key);
    chosen = λ a b c p. grind (tests, v.lesser-key, v.same-key, l.lesser-key, l.same-key);
  }

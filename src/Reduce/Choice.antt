-- ===== src/Reduce/Choice.antt =====
-- An operation that finds the best one of the elements that it is folded over.
use e_salsa_mpi.Prelude.{Option, some, List, [], ◌∷◌, ◌≡◌, refl, ◌⊎◌, inl, inr}
use e_salsa_mpi.Reduce.Loop.{fold, add}
use e_salsa_mpi.Reduce.Order.{All}

-- An operation `f` finds the best element of a list, for an order `Best`, up to a relation `Like`, when
-- a single step does.
pub record IsChoice {A : Type 0} (f : A → A → A) (Best : A → A → Type 0) (Like : A → A → Type 0)
    : Type 0 where
  pub best_self : (a : A) → Best a a
  pub like_self : (a : A) → Like a a
  pub best_first : (a b : A) → Best (f a b) a
  pub best_onward : (a b c : A) → Best b c → Best (f a b) c
  pub chosen : (a b c : A) → Like b c → Like (f a b) a ⊎ Like (f a b) c

abbrev pub Found : {A : Type 0} → (A → A → Type 0) → A → List A → Type 0
Found Like r [] = ⊥
Found Like r (a ∷ vs) = Like r a ⊎ Found Like r vs

-- What is left of the elements `vs`: one of them, and the best one.
abbrev pub IsChosen :
    {A : Type 0} → (A → A → Type 0) → (A → A → Type 0) → List A → Option A → Type 0
IsChosen {A} Best Like vs o = (r : A) × (o ≡ some r) × Found Like r vs × All (Best r) vs

module _ {A : Type 0} {f : A → A → A} {Best : A → A → Type 0} {Like : A → A → Type 0}
    (h : IsChoice f Best Like) where
  Best-onward : (a b : A) (vs : List A) → All (Best b) vs → All (Best (f a b)) vs
  Best-onward a b [] p = tt
  Best-onward a b (c ∷ vs) (p, ps) = (h.best_onward a b c p, Best-onward a b vs ps)

  Found-onward : (a b : A) (vs : List A) → Found Like b vs → Like (f a b) a ⊎ Found Like (f a b) vs
  Found-onward a b [] p = absurd p
  Found-onward a b (c ∷ vs) (inl p) = move (h.chosen a b c p)
    where
      move : Like (f a b) a ⊎ Like (f a b) c → Like (f a b) a ⊎ Found Like (f a b) (c ∷ vs)
      move (inl q) = inl q
      move (inr q) = inr (inl q)
  Found-onward a b (c ∷ vs) (inr p) = move (Found-onward a b vs p)
    where
      move : Like (f a b) a ⊎ Found Like (f a b) vs → Like (f a b) a ⊎ Found Like (f a b) (c ∷ vs)
      move (inl q) = inl q
      move (inr q) = inr (inr q)

  pub fold-choice : (a : A) (vs : List A) → IsChosen Best Like (a ∷ vs) (fold f (a ∷ vs))
  unfolding fold
  fold-choice a [] = (a, refl, inl (h.like_self a), (h.best_self a, tt))
  fold-choice a (b ∷ vs) = extend (fold-choice b vs)
    where
      extend :
          IsChosen Best Like (b ∷ vs) (fold f (b ∷ vs))
          → IsChosen Best Like (a ∷ b ∷ vs) (add f a (fold f (b ∷ vs)))
      extend (r, e, found, best) = (
        f a r,
        rw e refl,
        Found-onward a r (b ∷ vs) found,
        (h.best_first a r, Best-onward a r (b ∷ vs) best),
      )

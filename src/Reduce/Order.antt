-- ===== src/Reduce/Order.antt =====
-- The order of the elements of a reduction does not matter for an operation that is commutative and
-- associative on the values that are `Ok`.
use e_salsa_mpi.Prelude.{
  Option, none, some, List, [], ◌∷◌, ◌≡◌, refl, sym, ap, ap₂, ◌∙◌, subst, map,
}
use e_salsa_mpi.Reduce.Loop.{fold, add}
use mathlib.Core.List.{Permᴰ}

abbrev pub All : {A : Type 0} → (A → Type 0) → List A → Type 0
All P [] = Unit
All P (a ∷ vs) = P a × All P vs

module _ {A : Type 0} (P : A → Type 0) where
  All-Permᴰ : {vs ws : List A} → Permᴰ vs ws → All P vs → All P ws
  All-Permᴰ Permᴰ.nil p = p
  All-Permᴰ (Permᴰ.cons e d) (p, ps) = (subst P e p, All-Permᴰ d ps)
  All-Permᴰ (Permᴰ.swap e d) (p, (q, ps)) = (subst P d q, (subst P e p, ps))
  All-Permᴰ (Permᴰ.trans c d) p = All-Permᴰ d (All-Permᴰ c p)

pub map-Permᴰ :
    {A B : Type 0} {vs ws : List A} (f : A → B) → Permᴰ vs ws → Permᴰ (map f vs) (map f ws)
map-Permᴰ f Permᴰ.nil = Permᴰ.nil
map-Permᴰ f (Permᴰ.cons e d) = Permᴰ.cons (ap f e) (map-Permᴰ f d)
map-Permᴰ f (Permᴰ.swap e d) = Permᴰ.swap (ap f e) (ap f d)
map-Permᴰ f (Permᴰ.trans c d) = Permᴰ.trans (map-Permᴰ f c) (map-Permᴰ f d)

-- An operation that stays among the values that are `Ok` and is commutative and associative there.
pub record IsExchangeable {A : Type 0} (Ok : A → Type 0) (f : A → A → A) : Type 0 where
  pub stays : (a b : A) → Ok a → Ok b → Ok (f a b)
  pub comm : (a b : A) → Ok a → Ok b → f a b ≡ f b a
  pub assoc : (a b c : A) → Ok a → Ok b → Ok c → f (f a b) c ≡ f a (f b c)

module _ {A : Type 0} {Ok : A → Type 0} {f : A → A → A} (h : IsExchangeable Ok f) where
  abbrev OkOption : Option A → Type 0
  OkOption none = Unit
  OkOption (some a) = Ok a

  add-OkOption : (a : A) (o : Option A) → Ok a → OkOption o → OkOption (add f a o)
  add-OkOption a none p q = p
  add-OkOption a (some b) p q = h.stays a b p q

  fold-OkOption : (vs : List A) → All Ok vs → OkOption (fold f vs)
  unfolding fold
  fold-OkOption [] p = tt
  fold-OkOption (a ∷ vs) (p, ps) = add-OkOption a (fold f vs) p (fold-OkOption vs ps)

  add-swap :
      (a b : A) (o : Option A)
      → Ok a
      → Ok b
      → OkOption o
      → add f a (add f b o) ≡ add f b (add f a o)
  add-swap a b none p q r = ap some (h.comm a b p q)
  add-swap a b (some c) p q r =
      ap some
        (sym (h.assoc a b c p q r) ∙ ap (λ (d : A). f d c) (h.comm a b p q) ∙ h.assoc b a c q p r)

  pub fold-Permᴰ : {vs ws : List A} → Permᴰ vs ws → All Ok vs → fold f vs ≡ fold f ws
  unfolding fold
  fold-Permᴰ Permᴰ.nil p = refl
  fold-Permᴰ (Permᴰ.cons e d) (p, ps) = ap₂ (add f) e (fold-Permᴰ d ps)
  fold-Permᴰ (Permᴰ.swap {a = a} {b = b} {l = l} e d) (p, (q, ps)) =
      add-swap a b (fold f l) p q (fold-OkOption l ps) ∙ cc
  fold-Permᴰ (Permᴰ.trans c d) p = fold-Permᴰ c p ∙ fold-Permᴰ d (All-Permᴰ Ok c p)

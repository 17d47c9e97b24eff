-- ===== src/Queue/Spec.antt =====
-- What a message queue promises: a first-in first-out list of messages, from which the oldest one
-- that passes a test can be taken.
use e_salsa_mpi.Prelude.{List, [], ◌∷◌, Bool, Option, none, some, if◌then◌else◌}

abbrev pub put_back : {A B : Type 0} → A → Option (B × List A) → Option (B × List A)
put_back a none = none
put_back a (some (b, r)) = some (b, a ∷ r)

module _ {M : Type 0} where
  -- the oldest message that passes `test`, and the others in their order
  unfoldable pub take_first : (M → Bool) → List M → Option (M × List M)
  take_first test [] = none
  take_first test (m ∷ q) = if test m then some (m, q) else put_back m (take_first test q)

  -- the oldest message and the others
  unfoldable pub take_oldest : List M → Option (M × List M)
  take_oldest [] = none
  take_oldest (m ∷ q) = some (m, q)

-- ===== src/Completion/Ends.antt =====
-- A property of what a function returns, if it returns (Completion/Defs).
use e_salsa_mpi.Prelude.{if◌then◌else◌, Bool, true, false}
use e_salsa_mpi.Completion.Defs.{Ending, returned, waiting, fault, fatal, ◌>>=◌}

-- The property `P` holds of what is returned, if the function returns.
pub data Ends {A : Type 0} (P : A → Type 0) : Ending A → Type 0 where
  gives : {a : A} → P a → Ends P (returned a)
  waits : Ends P waiting
  faults : Ends P fault
  stops : Ends P fatal

module _ {A B : Type 0} {P : A → Type 0} {Q : B → Type 0} where
  pub and_then-Ends :
      {e : Ending A} {f : A → Ending B}
      → Ends P e
      → ((a : A) → P a → Ends Q (f a))
      → Ends Q (e >>= f)
  and_then-Ends (gives p) h = h _ p
  and_then-Ends waits h = waits
  and_then-Ends faults h = faults
  and_then-Ends stops h = stops

pub if-Ends :
    {A : Type 0} {P : A → Type 0} {x y : Ending A} (b : Bool)
    → Ends P x
    → Ends P y
    → Ends P (if b then x else y)
if-Ends true h k = h
if-Ends false h k = k

pub always : {A : Type 0} (e : Ending A) → Ends (λ _. Unit {0}) e
always (returned a) = gives tt
always waiting = waits
always fault = faults
always fatal = stops

-- ===== src/Routing/Post.antt =====
-- What holds after a function of a gateway: `Q` of its value and its state, or `E` of the state
-- where it fails.
use e_salsa_mpi.Prelude.{if◌then◌else◌, Bool, true, false, not, ◌==◌, ◌≡◌, refl}
use e_salsa_mpi.Routing.Defs.{
  State, Outcome, returned, failed, Gateway, and_then, Arrival, receive_arrival,
}
use e_salsa_mpi.Codes.{Code}

-- It does not end in a fault, nor without fuel.
pub data Post {A : Type 0} (E : State → Type 0) (Q : A → State → Type 0) : Outcome A → Type 0 where
  holds : {a : A} {s : State} → Q a s → Post E Q (returned a s)
  excepts : {e : Code} {s : State} → E s → Post E Q (failed e s)

pub and_then-Post :
    {A B : Type 0} {E : State → Type 0} {Q : A → State → Type 0} {R : B → State → Type 0}
    {o : Outcome A} {f : A → Gateway B}
    → Post E Q o
    → ((a : A) (s : State) → Q a s → Post E R (f a s))
    → Post E R (and_then o f)
and_then-Post (holds {a} {s} h) k = k a s h
and_then-Post (excepts h) k = excepts h

pub if-Post :
    {A : Type 0} {E : State → Type 0} {Q : A → State → Type 0} (b : Bool) {x y : Outcome A}
    → (b ≡ true → Post E Q x)
    → (b ≡ false → Post E Q y)
    → Post E Q (if b then x else y)
if-Post true p q = p refl
if-Post false p q = q refl

-- A receive function, whose message `accept` takes.
pub receive_arrival-Post :
    {E : State → Type 0} {Q : Bool → State → Type 0} (accept : Arrival → Gateway (Unit {0}))
    (a : Arrival) (s : State)
    → E s
    → Q false s
    → Post E (λ _. Q true) (accept a s)
    → Post E Q (receive_arrival accept a s)
receive_arrival-Post accept a s e q p =
    if-Post (not (a.probe_error == 0)) (λ _. excepts e)
      (λ _.
        if-Post (not a.flag) (λ _. holds q)
          (λ _.
            if-Post (not (a.count_error == 0)) (λ _. excepts e)
              (λ _.
                if-Post (not a.buffer) (λ _. excepts e)
                  (λ _.
                    if-Post (not (a.recv_error == 0)) (λ _. excepts e)
                      (λ _. and_then-Post p (λ _ s' h. holds h))))))

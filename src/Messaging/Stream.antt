-- ===== src/Messaging/Stream.antt =====
-- The messages for one communicator, in the order in which they reached this process: those that
-- are stored, then those that the calls to MPI have yet to deliver.
use e_salsa_mpi.Prelude.{
  ℕ, ◌==◌, if◌then◌else◌, Bool, true, false, Option, none, some, List, [], ◌∷◌, ◌++◌, ◌≡◌, ◌≢◌, ◌∙◌,
  refl, sym, ap, arith, ℤ, pos, negsuc, ◌==ℤ◌, append_assoc, Bool-cases, ==→eq, ne→==, ◌⊎◌,
  Option-cases, inl, inr,
}
use e_salsa_mpi.Queue.Spec.{take_first}
use e_salsa_mpi.Messaging.Defs.{DataMessage, ProbeCalls, Mail, put_mail, comm_index, store_message}

abbrev pub contents : Option (List DataMessage) → List DataMessage
contents none = []
contents (some q) = q

abbrev pub pending : Mail → ℕ → List DataMessage
pending mail k = contents (mail k)

abbrev pub arrivals : ℕ → List ProbeCalls → List DataMessage
arrivals k [] = []
arrivals k (call ∷ calls) =
    let rest = arrivals k calls in
    if pos k ==ℤ call.received.comm then call.received ∷ rest else rest

abbrev pub stream : ℕ → Mail → List ProbeCalls → List DataMessage
stream k mail calls = pending mail k ++ arrivals k calls

-- The communicator exists.
abbrev pub IsOpen : Mail → ℕ → Type 0
IsOpen mail k = (q : List DataMessage) × (mail k ≡ some q)

pub comm_index-pos : (c : ℤ) (j : ℕ) → comm_index c ≡ some j → (k : ℕ) → (pos k ==ℤ c) ≡ (k == j)
comm_index-pos (pos n) j e k = ground arith
comm_index-pos (negsuc n) j e k = cc

none≢some : {q : List DataMessage} → none ≢ some q
none≢some e = cc

-- Where the search finds nothing in a first part, it goes on in the second.
module _ {M : Type 0} (test : M → Bool) where
  pub take_first-append :
      (xs ys : List M)
      → take_first test xs ≡ none
      → take_first test (xs ++ ys)
        ≡ (elim (take_first test ys) [ none ↦ none | some (m, r) ↦ some (m, xs ++ r) ])
  unfolding take_first
  take_first-append [] ys h = ground arith
  take_first-append (x ∷ xs) ys h = ground (arith, take_first-append xs ys)

  pub take_first-append_some :
      (xs ys : List M) (m : M) (r : List M)
      → take_first test xs ≡ some (m, r)
      → take_first test (xs ++ ys) ≡ some (m, r ++ ys)
  unfolding take_first
  take_first-append_some [] ys m r h = cc
  take_first-append_some (x ∷ xs) ys m r h = elim (Bool-cases (test x)) [
    | inl hit ↦ ground arith
    | inr other ↦ elim (Option-cases (take_first test xs)) [
      | inl missing ↦ ground arith
      | inr ((n, rest), found) ↦ ground (arith, take_first-append_some xs ys n rest found)
    ]
  ]

module _ (mail mail' : Mail) (call : ProbeCalls) (calls : List ProbeCalls) (j : ℕ)
    (index : comm_index call.received.comm ≡ some j)
    (stored : store_message true call.received mail ≡ some mail') where
  mail'_cases :
      ((mail j ≡ none) × (mail' ≡ mail))
      ⊎ ((q : List DataMessage) × (mail j ≡ some q)
          × (mail' ≡ put_mail mail j (q ++ call.received ∷ [])))
  unfolding store_message
  mail'_cases = elim (Option-cases (mail j)) [
    | inl e ↦ inl (e, ground arith)
    | inr (q, e) ↦ inr (q, e, ground arith)
  ]

  put_mail_at :
      (k : ℕ) (q : List DataMessage) → put_mail mail j q k ≡ (if k == j then some q else mail k)
  unfolding put_mail
  put_mail_at k q = refl

  -- Storing a message moves it from the arrivals of its communicator to the pending ones.
  pub stream-store : (k : ℕ) → IsOpen mail k → stream k mail' calls ≡ stream k mail (call ∷ calls)
  stream-store k (q, e) = elim mail'_cases [
    | inl (missing, same) ↦
        rw (same, comm_index-pos call.received.comm j index k, apart missing) refl
    | inr (qj, ej, put) ↦
        rw (put, put_mail_at, comm_index-pos call.received.comm j index k)
          (elim (Bool-cases (k == j)) [
            | inl here ↦
                rw (here, ap mail (==→eq k j here) ∙ ej) (append_assoc qj (call.received ∷ []) _)
            | inr other ↦ rw other refl
          ])
  ]
    where
      apart : mail j ≡ none → (k == j) ≡ false
      apart missing = ne→== k j (λ same. none≢some (sym missing ∙ ap mail (sym same) ∙ e))

  pub store-IsOpen : (k : ℕ) → IsOpen mail k → IsOpen mail' k
  store-IsOpen k (q, e) = elim mail'_cases [
    | inl (missing, same) ↦ rw same (q, e)
    | inr (qj, ej, put) ↦
        rw (put, put_mail_at)
          (elim (Bool-cases (k == j)) [
            | inl here ↦ rw here (qj ++ call.received ∷ [], refl)
            | inr other ↦ rw other (q, e)
          ])
  ]

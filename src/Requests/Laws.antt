-- ===== src/Requests/Laws.antt =====
-- Handles of requests.
use e_salsa_mpi.Prelude.{
  ℕ, zero, suc, ◌+◌, ◌≤◌, ◌<◌, ◌==◌, eq→==, ne→==, ==→eq, leb, Bool, true, false, Option, none,
  some, ◌≡◌, ◌≢◌, ◌⊎◌, ◌∙◌, refl, sym, ap, subst, inl, inr, arith, pos, negsuc, Bool-cases,
}
use mathlib.Core.Path.{fun_ext}
use e_salsa_mpi.Codes.{max_requests}
use e_salsa_mpi.Requests.Defs.{
  Call, Request, request_of, Table, put, find_free, add_at, add_request, set_handle, create_request,
  free_request, handle_to_request,
}

-- The entry is in use.
abbrev pub IsUsed : Table → ℕ → Type 0
IsUsed reqs j = (r : Request) × (reqs j ≡ some r)

-- What the loop finds: the first free entry from `i` on, or that there is none.
abbrev Finds : Table → ℕ → ℕ → Option ℕ → Type 0
Finds reqs n i none = (j : ℕ) → i ≤ j → j < i + n → IsUsed reqs j
Finds reqs n i (some k) =
    (i ≤ k) × (k < i + n) × (reqs k ≡ none) × ((j : ℕ) → i ≤ j → j < k → IsUsed reqs j)

find_free-Finds : (reqs : Table) (n i : ℕ) → Finds reqs n i (find_free reqs n i)
unfolding find_free
find_free-Finds reqs zero i = λ j le lt. absurd (omega arith)
find_free-Finds reqs (suc n) i =
    at_entry (reqs i) refl (find_free reqs n (suc i)) (find_free-Finds reqs n (suc i))
  where
    first_or : (P : ℕ → Type 0) (j : ℕ) → P i → (suc i ≤ j → P j) → i ≤ j → P j
    first_or P j here later le = elim (Bool-cases (j == i)) [
      | inl same ↦ subst P (sym (==→eq j i same)) here
      | inr other ↦ later (ground arith)
    ]

    further :
        (r : Request)
        → reqs i ≡ some r
        → (o : Option ℕ) → Finds reqs n (suc i) o
        → Finds reqs (suc n) i o
    further r e none f =
        λ j le lt. first_or (λ m. IsUsed reqs m) j (r, e) (λ le'. f j le' (omega arith)) le
    further r e (some k) (le, lt, fr, f) = (
      omega arith,
      omega arith,
      fr,
      λ j le' lt'. first_or (λ m. IsUsed reqs m) j (r, e) (λ le''. f j le'' lt') le',
    )

    at_entry :
        (o : Option Request)
        → reqs i ≡ o
        → (p : Option ℕ) → Finds reqs n (suc i) p
        → Finds reqs (suc n) i (elim o [ none ↦ some i | some r ↦ p ])
    at_entry none e p f = (omega arith, omega arith, e, λ j le lt. absurd (omega arith))
    at_entry (some r) e p f = further r e p f

-- What create_request does: it fills the first free entry, or there is none or no memory.
abbrev pub Creates : Bool → Call → Table → Option ℕ × Table → Type 0
Creates malloc c reqs (none, reqs') =
    (reqs' ≡ reqs) × ((malloc ≡ false) ⊎ ((j : ℕ) → j < max_requests → IsUsed reqs j))
Creates malloc c reqs (some k, reqs') =
    (handle_to_request (pos k) reqs' ≡ some (request_of c (pos k)))
    × ((free_request (some (request_of c (pos k))) reqs').1 ≡ reqs)
    × ((j : ℕ) → j ≢ k → reqs' j ≡ reqs j)
    × (reqs k ≡ none)
    × ((j : ℕ) → j < k → IsUsed reqs j)

-- create_request puts the new request, with the call's arguments and its own handle, into the first
-- free entry and leaves all others alone; handle_to_request finds it by its handle, and
-- free_request gives the table back as it was. It returns NULL only if malloc does or all
-- MAX_REQUESTS entries are in use, and then leaves the table alone.
pub create_request-Creates :
    (malloc : Bool) (c : Call) (reqs : Table) → Creates malloc c reqs (create_request malloc c reqs)
unfolding create_request add_request handle_to_request free_request
create_request-Creates false c reqs = (refl, inl refl)
create_request-Creates true c reqs =
    place (find_free reqs max_requests 0) (find_free-Finds reqs max_requests 0)
  where
    blank : Request
    blank = request_of c (negsuc 0)

    place :
        (o : Option ℕ)
        → Finds reqs max_requests 0 o
        → Creates true c reqs (set_handle blank (add_at reqs blank o))
    place none f = (refl, inr (λ j lt. f j (omega arith) (omega arith)))
    place (some k) (le, lt, fr, f) = (
      rw (inside k (omega arith), eq→== k k refl) refl,
      fun_ext (restored k fr),
      λ j ne. rw (ne→== j k ne) refl,
      fr,
      λ j lt'. f j (omega arith) lt',
    )
      where
        inside : (n : ℕ) → n < max_requests → leb max_requests n ≡ false
        inside n h = ground arith

        restored :
            (n : ℕ)
            → reqs n ≡ none
            → (j : ℕ)
            → put (put (put reqs n (some blank)) n (some (request_of c (pos n)))) n none j ≡ reqs j
        restored n fr' j = elim (Bool-cases (j == n)) [
          | inl same ↦ rw same (sym (ap reqs (==→eq j n same) ∙ fr'))
          | inr other ↦ rw other refl
        ]

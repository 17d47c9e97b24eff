-- ===== src/Completion/All.antt =====
-- src/backend/empi.c: EMPI_Waitall returns when no request is left.
use e_salsa_mpi.Prelude.{
  ℕ, zero, suc, ◌+◌, ◌≤◌, leb, leb→le, if◌then◌else◌, Bool, true, false, Option, none, some, List,
  [], ◌∷◌, ℤ, ◌≡◌, refl, ◌∙◌, ap, sym, arith, length, ◌==ℤ◌, ==ℤ→eq,
}
use mathlib.Core.Bool.{true≢false}
use e_salsa_mpi.Requests.Defs.{handle_to_request, Request}
use e_salsa_mpi.Reduce.Order.{All}
use e_salsa_mpi.Completion.Status.{Status}
use e_salsa_mpi.Completion.Defs.{returned, ◌>>=◌, Process}
use e_salsa_mpi.Completion.Probe.{request_null, World, Probed, finish_probe, probe_kind}
use e_salsa_mpi.Completion.Wait.{probing, probe_entry, probe_request, empi_test}
use e_salsa_mpi.Completion.Arrays.{
  Waiting, Statuses, status_at, count_null, tested_one, test_one, all_round, all_rounds,
  empi_waitall,
}
use e_salsa_mpi.Completion.Ends.{Ends, gives, and_then-Ends, if-Ends, always}

-- A request that is not complete keeps its handle.
abbrev KeepsHandle : ℤ → Probed → Type 0
KeepsHandle h q = q.flag ≡ false → q.handle ≡ h

-- The requests that EMPI_Waitall leaves, if it returns: as many as there were, and all of them null.
abbrev pub AllNull : ℕ → Option Waiting → Type 0
AllNull count none = Unit
AllNull count (some v) = (length v.handles ≡ count) × All (λ h. h ≡ request_null) v.handles

module _ (process : Process) where
  empi_test-KeepsHandle :
      (h : ℤ) (s : Option Status) (w : World) → Ends (KeepsHandle h) (empi_test process false h s w)
  unfolding empi_test probe_request finish_probe
  empi_test-KeepsHandle h s w =
      if-Ends (h ==ℤ request_null) (gives (λ _. refl)) (by_entry (handle_to_request h w.reqs))
    where
      by_flag : (b : Bool) → b ≡ false → (if b then request_null else h) ≡ h
      by_flag true e = absurd (true≢false e)
      by_flag false e = refl

      by_entry :
          (o : Option Request) → Ends (KeepsHandle h) (probe_entry process false false h s w o)
      by_entry none = gives (λ _. refl)
      by_entry (some r) =
          and_then-Ends (always (probe_kind process false (probing false s w r)))
            (λ p _. gives (by_flag p.flag))

  -- `done` has grown by the requests that became null, and there are as many requests as before.
  abbrev Tallies : ℕ → List ℤ → Waiting → Type 0
  Tallies done hs v =
      (v.done + count_null hs ≡ done + count_null v.handles) × (length v.handles ≡ length hs)

  abbrev OneTallies : ℕ → ℤ → ℕ × ℕ × ℤ × Statuses × World → Type 0
  OneTallies done h (done', errors', h', ss', w') =
      done' + count_null (h ∷ []) ≡ done + count_null (h' ∷ [])

  test_one-OneTallies :
      (i done errors : ℕ) (h : ℤ) (ss : Statuses) (w : World)
      → Ends (OneTallies done h) (test_one process i done errors h ss w)
  test_one-OneTallies i done errors h ss w = by (h ==ℤ request_null) refl
    where
      by_flag :
          (b : Bool) (h' : ℤ)
          → (b ≡ false → h' ≡ h)
          → (h ==ℤ request_null) ≡ false
          → (if b then suc done else done) + count_null (h ∷ [])
            ≡ done + count_null ((if b then request_null else h') ∷ [])
      by_flag true h' k e = rw e (omega arith)
      by_flag false h' k e = ap (λ x. done + count_null (x ∷ [])) (sym (k refl))

      by :
          (b : Bool)
          → (h ==ℤ request_null) ≡ b
          → Ends (OneTallies done h) (
              if b
              then returned (done, errors, h, ss, w)
              else (status_at ss i >>= (λ s.
                  empi_test process false h s w
                  >>= (λ q. returned (tested_one i done errors ss q)))))
      by true e = gives refl
      by false e = and_then-Ends (always (status_at ss i)) (λ s _.
          and_then-Ends (empi_test-KeepsHandle h s w) (λ q k. gives (by_flag q.flag q.handle k e)))

  all_round-Tallies :
      (i done errors : ℕ) (hs : List ℤ) (ss : Statuses) (w : World)
      → Ends (Tallies done hs) (all_round process i done errors hs ss w)
  unfolding all_round
  all_round-Tallies i done errors [] ss w = gives (refl, refl)
  all_round-Tallies i done errors (h ∷ hs) ss w =
      and_then-Ends (test_one-OneTallies i done errors h ss w) (λ (done', errors', h', ss', w') one.
        and_then-Ends (all_round-Tallies (suc i) done' errors' hs ss' w')
          (λ v (tally, same). gives (omega (arith, one, tally), ap suc same)))

  -- `done` counts the null requests among `count` ones.
  abbrev IsTally : ℕ → Waiting → Type 0
  IsTally count v = (v.done ≡ count_null v.handles) × (length v.handles ≡ count)

  count_null-below : (hs : List ℤ) → count_null hs ≤ length hs
  count_null-below [] = omega arith
  count_null-below (h ∷ hs) = by (h ==ℤ request_null) (count_null-below hs)
    where
      by :
          (b : Bool)
          → count_null hs ≤ length hs
          → (if b then 1 else 0) + count_null hs ≤ suc (length hs)
      by b e = ground arith

  All-null : (hs : List ℤ) → length hs ≤ count_null hs → All (λ h. h ≡ request_null) hs
  All-null [] e = tt
  All-null (h ∷ hs) e = by (h ==ℤ request_null) refl e (All-null hs)
    where
      by :
          (b : Bool)
          → (h ==ℤ request_null) ≡ b
          → suc (length hs) ≤ (if b then 1 else 0) + count_null hs
          → (length hs ≤ count_null hs → All (λ h. h ≡ request_null) hs)
          → All (λ h. h ≡ request_null) (h ∷ hs)
      by true f e k = (==ℤ→eq h request_null f, k (omega arith))
      by false f e k = absurd (omega (arith, count_null-below hs))

  all_rounds-AllNull :
      (fuel count : ℕ) (v : Waiting)
      → IsTally count v
      → Ends (AllNull count) (all_rounds process fuel count v)
  unfolding all_rounds
  all_rounds-AllNull zero count v e = gives tt
  all_rounds-AllNull (suc fuel) count v (tally, same) =
      by (leb count v.done) refl (all_rounds-AllNull fuel count)
    where
      by :
          (b : Bool)
          → leb count v.done ≡ b
          → ((v' : Waiting)
              → IsTally count v'
              → Ends (AllNull count) (all_rounds process fuel count v'))
          → Ends (AllNull count) (
              if b
              then returned (some v)
              else (all_round process 0 v.done v.errors v.handles v.statuses v.world
                  >>= all_rounds process fuel count))
      by true e next =
          gives (same, All-null v.handles (omega (arith, leb→le count v.done e, tally, same)))
      by false e next =
          and_then-Ends (all_round-Tallies 0 v.done v.errors v.handles v.statuses v.world)
            (λ v' (t, l). next v' (omega (arith, t, tally), l ∙ same))

  -- If EMPI_Waitall returns, every request of the array is EMPI_REQUEST_NULL, and the array has as many
  -- requests as before.
  pub empi_waitall-AllNull :
      (fuel : ℕ) (hs : List ℤ) (ss : Statuses) (w : World)
      → Ends (AllNull (length hs)) (empi_waitall process fuel hs ss w)
  unfolding empi_waitall
  empi_waitall-AllNull fuel hs ss w = all_rounds-AllNull fuel (length hs) _ (refl, refl)

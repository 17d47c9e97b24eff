-- ===== src/Completion/Arrays.antt =====
-- src/backend/empi.c: EMPI_Waitany and EMPI_Waitall.
--
-- An array of requests is the list of its handles, an array of statuses a function of the index, and
-- EMPI_STATUSES_IGNORE is `none`. EMPI_Waitall passes on the address of an entry: that of the first one
-- of EMPI_STATUSES_IGNORE is EMPI_STATUS_IGNORE, and every other one is a bad pointer. The number of rounds of a loop over the array is bounded by fuel; `none` is where it ends.
use e_salsa_mpi.Prelude.{
  ℕ, zero, suc, ◌+◌, leb, ◌==◌, if◌then◌else◌, false, not, ◌||◌, Option, none, some, List, [], ◌∷◌,
  ℤ, ◌==ℤ◌, length,
}
use e_salsa_mpi.Codes.{Result, ok, err, err_in_status}
use e_salsa_mpi.Completion.Status.{Status, clear_status}
use e_salsa_mpi.Completion.Defs.{Ending, returned, fault, ◌>>=◌, Process, is_ok}
use e_salsa_mpi.Completion.Probe.{request_null, World, Probed}
use e_salsa_mpi.Completion.Wait.{empi_test}

abbrev pub Statuses : Type 0
Statuses = Option (ℕ → Status)

-- `&array_of_statuses[i]`
abbrev pub status_at : Statuses → ℕ → Ending (Option Status)
status_at (some ss) i = returned (some (ss i))
status_at none zero = returned none
status_at none (suc i) = fault

abbrev pub status_or : Status → Option Status → Status
status_or s none = s
status_or s (some t) = t

abbrev pub set_at : Statuses → ℕ → Option Status → Statuses
set_at none i s = none
set_at (some ss) i s = some (λ j. if j == i then status_or (ss i) s else ss j)

-- What EMPI_Waitall has in its variables: `done`, `errors` and the two arrays.
pub record Waiting : Type 0 where
  pub done : ℕ
  pub errors : ℕ
  pub handles : List ℤ
  pub statuses : Statuses
  pub world : World

-- The code that EMPI_Waitall returns at its end.
abbrev pub waitall_code : Waiting → Result (Unit {0})
waitall_code v = if v.errors == 0 then ok tt else err err_in_status

-- The requests that are EMPI_REQUEST_NULL.
abbrev pub count_null : List ℤ → ℕ
count_null [] = 0
count_null (h ∷ hs) = (if h ==ℤ request_null then 1 else 0) + count_null hs

-- An array with one more entry in front.
abbrev pub one_more : ℤ → Waiting → Waiting
one_more h v = record v { handles = h ∷ v.handles }

abbrev pub tested_one : ℕ → ℕ → ℕ → Statuses → Probed → ℕ × ℕ × ℤ × Statuses × World
tested_one i done errors ss q = (
  (if q.flag then suc done else done),
  (if is_ok q.code then errors else suc errors),
  (if q.flag then request_null else q.handle),
  set_at ss i q.status,
  q.world,
)

module _ (process : Process) where
  abbrev pub test_one : ℕ → ℕ → ℕ → ℤ → Statuses → World → Ending (ℕ × ℕ × ℤ × Statuses × World)
  test_one i done errors h ss w =
      if h ==ℤ request_null then returned (done, errors, h, ss, w) else do
        s ← status_at ss i
        q ← empi_test process false h s w
        returned (tested_one i done errors ss q)

  -- The inner loop of EMPI_Waitall, from the index `i` on.
  unfoldable pub all_round : ℕ → ℕ → ℕ → List ℤ → Statuses → World → Ending Waiting
  all_round i done errors [] ss w =
      returned (record { done = done; errors = errors; handles = []; statuses = ss; world = w })
  all_round i done errors (h ∷ hs) ss w = do
    (done', errors', h', ss', w') ← test_one i done errors h ss w
    v ← all_round (suc i) done' errors' hs ss' w'
    returned (one_more h' v)

  abbrev pub all_rounds_from :
      (Waiting → Ending (Option Waiting)) → ℕ → Waiting → Ending (Option Waiting)
  all_rounds_from next count v =
      if leb count v.done
      then returned (some v)
      else do v' ← all_round 0 v.done v.errors v.handles v.statuses v.world; next v'

  unfoldable pub all_rounds : ℕ → ℕ → Waiting → Ending (Option Waiting)
  all_rounds zero count v = returned none
  all_rounds (suc fuel) count v = all_rounds_from (all_rounds fuel count) count v

  unfoldable pub empi_waitall : ℕ → List ℤ → Statuses → World → Ending (Option Waiting)
  empi_waitall fuel hs ss w =
      all_rounds fuel (length hs)
        (record { done = count_null hs; errors = 0; handles = hs; statuses = ss; world = w })

-- How a round of EMPI_Waitany ends: a request at an index is complete or in error, or none is, with
-- `undef`.
pub data AnyRound : Type 0 where
  stopped : Result (Unit {0}) → ℕ → List ℤ → Option Status → World → AnyRound
  idle : ℕ → List ℤ → Option Status → World → AnyRound

abbrev pub behind_one : ℤ → ℕ → AnyRound → AnyRound
behind_one h u (stopped code i hs s w) = stopped code i (h ∷ hs) s w
behind_one h u (idle undef hs s w) = idle (u + undef) (h ∷ hs) s w

-- An error of EMPI_Test is returned as EMPI_ERR_IN_STATUS.
abbrev pub in_status : Result (Unit {0}) → Result (Unit {0})
in_status (ok u) = ok u
in_status (err e) = err err_in_status

-- How EMPI_Waitany ends: the code, `*index` (`none` for EMPI_UNDEFINED), and the requests.
pub record Any : Type 0 where
  pub code : Result (Unit {0})
  pub index : Option ℕ
  pub handles : List ℤ
  pub status : Option Status
  pub world : World

module _ (process : Process) where
  abbrev pub any_tested :
      ℕ → List ℤ → (Option Status → World → Ending AnyRound) → Probed → Ending AnyRound
  any_tested i hs next q =
      if not (is_ok q.code) || q.flag
      then returned (stopped (in_status q.code) i (q.handle ∷ hs) q.status q.world)
      else do a ← next q.status q.world; returned (behind_one q.handle 0 a)

  unfoldable pub any_round : ℕ → List ℤ → Option Status → World → Ending AnyRound
  any_round i [] s w = returned (idle 0 [] s w)
  any_round i (h ∷ hs) s w =
      let next = any_round (suc i) hs in
      if h ==ℤ request_null
      then (do a ← next s w; returned (behind_one h 1 a))
      else (do q ← empi_test process false h s w; any_tested i hs next q)

  abbrev pub any_rounds_from :
      (List ℤ → Option Status → World → Ending (Option Any)) → ℕ → AnyRound → Ending (Option Any)
  any_rounds_from next count (stopped code i hs s w) =
      returned (some (record { code = code; index = some i; handles = hs; status = s; world = w }))
  any_rounds_from next count (idle undef hs s w) =
      if undef == count
      then returned (
          some (record {
            code = ok tt;
            index = none;
            handles = hs;
            status = clear_status s;
            world = w;
          }))
      else next hs s w

  unfoldable pub empi_waitany : ℕ → List ℤ → Option Status → World → Ending (Option Any)
  empi_waitany zero hs s w = returned none
  empi_waitany (suc fuel) hs s w = do
    a ← any_round 0 hs s w
    any_rounds_from (empi_waitany fuel) (length hs) a

-- ===== src/Completion/Settles.antt =====
-- src/backend/empi.c: what probe_request does to the table of requests.
use e_salsa_mpi.Prelude.{
  ℕ, ◌<◌, leb, tests, Bool, true, false, Option, none, some, pos, ◌≡◌, ◌≢◌, refl, sym, ap, ◌∙◌,
  ◌==ℤ◌, arith,
}
use mathlib.Core.Bool.{true≢false}
use e_salsa_mpi.Codes.{max_requests}
use e_salsa_mpi.Requests.Defs.{Request, Table, put, clear, handle_to_request, free_request}
use e_salsa_mpi.Completion.Status.{Status}
use e_salsa_mpi.Completion.Defs.{Process, Probing}
use e_salsa_mpi.Completion.Probe.{request_null, World, Probed, finish_probe}
use e_salsa_mpi.Completion.Wait.{probing, probe_request}
use e_salsa_mpi.Completion.Ends.{Ends, gives, and_then-Ends}
use e_salsa_mpi.Completion.Handles.{Holds, probe_kind-Holds}

-- Every request of the table holds its index as handle.
abbrev pub IsHandled : Table → Type 0
IsHandled reqs = (j : ℕ) (r : Request) → reqs j ≡ some r → r.handle ≡ pos j

-- The table behind a call on the handle `k`: it is well-formed, no other entry has changed, and `k` is free
-- exactly where `*flag` is 1, when `*req` is EMPI_REQUEST_NULL.
abbrev pub Settles : ℕ → Table → Probed → Type 0
Settles k reqs q =
    IsHandled q.world.reqs
    × ((j : ℕ) → j ≢ k → q.world.reqs j ≡ reqs j)
    × (q.flag ≡ true → (q.handle ≡ request_null) × (q.world.reqs k ≡ none))
    × (q.flag ≡ false → (q.handle ≡ pos k) × ((r : Request) × (q.world.reqs k ≡ some r)))

module _ (k : ℕ) (reqs : Table) (h : IsHandled reqs) where
  put-IsHandled : (r : Request) → r.handle ≡ pos k → IsHandled (put reqs k (some r))
  put-IsHandled r e j r' e' = grind (tests, h j r')

  freed-IsHandled : IsHandled (put reqs k none)
  freed-IsHandled j r' e' = grind (tests, h j r')

  -- The three parts that follow for the entry `k` itself and for the others.
  put-other : (o : Option Request) (j : ℕ) → j ≢ k → put reqs k o j ≡ reqs j
  put-other o j e = grind tests

  put_self : (o : Option Request) → put reqs k o k ≡ o
  put_self o = grind tests

-- put twice is the last put.
pub put-put :
    (reqs : Table) (k : ℕ) (a b : Option Request) (j : ℕ)
    → put (put reqs k a) k b j ≡ put reqs k b j
put-put reqs k a b j = grind tests

finish_probe-Settles :
    (k : ℕ) (reqs : Table) (p : Probing)
    → IsHandled reqs
    → Holds (pos k) p
    → Settles k reqs (finish_probe (pos k) k reqs p)
unfolding finish_probe free_request
finish_probe-Settles k reqs p h e = by p.flag
  where
    cleared : (j : ℕ) → clear p.request.handle (put reqs k (some p.request)) j ≡ put reqs k none j
    cleared j =
        ap (λ n. clear n (put reqs k (some p.request)) j) e ∙ put-put reqs k (some p.request) none j

    by : (b : Bool) → Settles k reqs (finish_probe (pos k) k reqs (record p { flag = b }))
    by true = (
      (λ j r e'. freed-IsHandled k reqs h j r (sym (cleared j) ∙ e')),
      (λ j ne. cleared j ∙ put-other k reqs h none j ne),
      (λ _. (refl, cleared k ∙ put_self k reqs h none)),
      (λ x. absurd (true≢false x)),
    )
    by false = (
      put-IsHandled k reqs h p.request e,
      put-other k reqs h (some p.request),
      (λ x. absurd (true≢false (sym x))),
      (λ _. (refl, (p.request, put_self k reqs h (some p.request)))),
    )

module _ (process : Process) where
  -- On a handle of the table, whose requests hold their handles: if probe_request returns, the table is
  -- well-formed and no other entry has changed; the request is freed and `*req` is EMPI_REQUEST_NULL
  -- if `*flag` is 1, and otherwise the request is still there and `*req` is left.
  pub probe_request-Settles :
      (blocking flag : Bool) (k : ℕ) (r : Request) (s : Option Status) (w : World)
      → k < max_requests
      → IsHandled w.reqs
      → w.reqs k ≡ some r
      → Ends (Settles k w.reqs) (probe_request process blocking flag (pos k) s w)
  unfolding probe_request handle_to_request
  probe_request-Settles blocking flag k r s w below h e =
      rw (not_null, in_table, e)
        (and_then-Ends (probe_kind-Holds process blocking (probing flag s w r))
          (λ p held. gives (finish_probe-Settles k w.reqs p h (held ∙ h k r e))))
    where
      not_null : (pos k ==ℤ request_null) ≡ false
      not_null = ground arith

      in_table : leb max_requests k ≡ false
      in_table = ground arith

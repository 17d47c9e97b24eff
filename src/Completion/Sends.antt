-- ===== src/Completion/Sends.antt =====
-- src/backend/empi.c: EMPI_Waitall on sends to other clusters returns.
use e_salsa_mpi.Prelude.{
  ℕ, suc, ◌+◌, ◌<◌, leb, tests, if◌then◌else◌, Bool, true, false, Option, none, some, List, [], ◌∷◌,
  ℤ, pos, ◌≡◌, ◌≢◌, refl, ap, arith, length, ◌==ℤ◌,
}
use e_salsa_mpi.Codes.{ok, max_requests}
use e_salsa_mpi.Requests.Defs.{handle_to_request, Request, Table, put}
use e_salsa_mpi.Reduce.Order.{All}
use e_salsa_mpi.Completion.Status.{Status}
use e_salsa_mpi.Completion.Defs.{Ending, returned, ◌>>=◌, Process}
use e_salsa_mpi.Completion.Probe.{request_null, World, probe_kind, probe_sent, set_sent}
use e_salsa_mpi.Completion.Wait.{probe_request, empi_test}
use e_salsa_mpi.Completion.Arrays.{
  Waiting, count_null, one_more, all_round, all_rounds, all_rounds_from, empi_waitall, waitall_code,
}
use e_salsa_mpi.Completion.Remote.{done, settled-done}

-- A request of the table for a send to another cluster, with the index `k`.
pub record IsSend (reqs : Table) (k : ℕ) (r : Request) : Type 0 where
  pub below : k < max_requests
  pub entry : reqs k ≡ some r
  pub handle : r.handle ≡ pos k
  pub not_persistent : r.flags.persistent ≡ false
  pub not_local : r.flags.local ≡ false
  pub is_send : r.flags.send ≡ true

abbrev pub HasSend : Table → ℕ → Type 0
HasSend reqs k = (r : Request) × IsSend reqs k r

abbrev pub AreDistinct : List ℕ → Type 0
AreDistinct [] = Unit
AreDistinct (k ∷ ks) = All (λ j. j ≢ k) ks × AreDistinct ks

abbrev pub handles_of : List ℕ → List ℤ
handles_of [] = []
handles_of (k ∷ ks) = pos k ∷ handles_of ks

other-HasSend : (reqs : Table) (k j : ℕ) → j ≢ k → HasSend reqs j → HasSend (put reqs k none) j
other-HasSend reqs k j ne (r, h) = (
  r,
  record {
    below = h.below;
    entry = grind (tests, h.entry);
    handle = h.handle;
    not_persistent = h.not_persistent;
    not_local = h.not_local;
    is_send = h.is_send;
  },
)

others-HasSend :
    (reqs : Table) (k : ℕ) (ks : List ℕ)
    → All (λ j. j ≢ k) ks
    → All (HasSend reqs) ks
    → All (HasSend (put reqs k none)) ks
others-HasSend reqs k [] ne h = tt
others-HasSend reqs k (j ∷ ks) (n, ne) (h, hs) =
    (other-HasSend reqs k j n h, others-HasSend reqs k ks ne hs)

module _ (process : Process) where
  empi_test-IsSend :
      (k : ℕ) (r : Request) (s : Option Status) (w : World)
      → IsSend w.reqs k r
      → empi_test process false (pos k) s w ≡ done k w (ok tt) (set_sent r s) w.mail w.calls
  unfolding empi_test probe_request handle_to_request probe_kind probe_sent
  empi_test-IsSend k r s w h =
      rw (not_null, in_table, h.entry, h.not_persistent, h.not_local, h.is_send)
        (settled-done k w _ (ok tt) (set_sent r s) h.handle refl refl refl refl)
    where
      not_null : (pos k ==ℤ request_null) ≡ false
      not_null = ground arith

      in_table : leb max_requests k ≡ false
      in_table = ground (arith, h.below)

  -- The end of a round: every request was complete.
  abbrev Finished : ℕ → ℕ → ℕ → Ending Waiting → Type 0
  Finished done errors n e =
      (v : Waiting) × (e ≡ returned v) × (v.done ≡ done + n) × (v.errors ≡ errors)

  all_round-Finished :
      (i d errors : ℕ) (ks : List ℕ) (ss : ℕ → Status) (w : World)
      → AreDistinct ks
      → All (HasSend w.reqs) ks
      → Finished d errors (length ks) (all_round process i d errors (handles_of ks) (some ss) w)
  unfolding all_round
  all_round-Finished i d errors [] ss w apart h = (_, refl, omega arith, refl)
  all_round-Finished i d errors (k ∷ ks) ss w (ne, apart) ((r, h), hs) =
      rw (not_null, empi_test-IsSend k r (some (ss i)) w h)
        (rest (
          all_round-Finished (suc i) (suc d) errors ks _ (world_behind w) apart
            (others-HasSend w.reqs k ks ne hs)))
    where
      not_null : (pos k ==ℤ request_null) ≡ false
      not_null = ground arith

      world_behind : World → World
      world_behind w = record w { reqs = put w.reqs k none }

      rest :
          {e : Ending Waiting}
          → Finished (suc d) errors (length ks) e
          → Finished d errors (suc (length ks)) (e >>= (λ v. returned (one_more request_null v)))
      rest (v, eq, count, same) = (
        one_more request_null v,
        ap (λ x. x >>= (λ v. returned (one_more request_null v))) eq,
        omega (arith, count),
        same,
      )

  handles_of-length : (ks : List ℕ) → length (handles_of ks) ≡ length ks
  handles_of-length [] = refl
  handles_of-length (k ∷ ks) = ap suc (handles_of-length ks)

  handles_of-count_null : (ks : List ℕ) → count_null (handles_of ks) ≡ 0
  handles_of-count_null [] = refl
  handles_of-count_null (k ∷ ks) = rw (not_null, handles_of-count_null ks) refl
    where
      not_null : (pos k ==ℤ request_null) ≡ false
      not_null = ground arith

  -- EMPI_Waitall, with an array of statuses, on different requests of the table that are sends to
  -- other clusters, and not persistent, returns, in its first round over the array, without an
  -- error.
  pub empi_waitall-returns :
      (fuel : ℕ) (ks : List ℕ) (ss : ℕ → Status) (w : World)
      → AreDistinct ks
      → All (HasSend w.reqs) ks
      → (v : Waiting) × (empi_waitall process (suc (suc fuel)) (handles_of ks) (some ss) w
          ≡ returned (some v))
        × (waitall_code v ≡ ok tt)
  unfolding empi_waitall all_rounds
  empi_waitall-returns fuel ks ss w apart h =
      rw (handles_of-length ks, handles_of-count_null ks)
        (by (leb (length ks) 0) (all_round-Finished 0 0 0 ks ss w apart h))
    where
      AtOnce : Ending (Option Waiting) → Type 0
      AtOnce e = (v : Waiting) × (e ≡ returned (some v)) × (waitall_code v ≡ ok tt)

      start : Waiting
      start = record {
        done = 0;
        errors = 0;
        handles = handles_of ks;
        statuses = some ss;
        world = w;
      }

      last :
          (v : Waiting)
          → v.done ≡ length ks
          → v.errors ≡ 0
          → AtOnce (all_rounds_from process (all_rounds process fuel (length ks)) (length ks) v)
      last v e f =
          let enough : leb (length ks) v.done ≡ true = ground (arith, e) in
          (v, rw enough refl, rw f refl)

      by :
          (b : Bool)
          → Finished 0 0 (length ks) (all_round process 0 0 0 (handles_of ks) (some ss) w)
          → AtOnce (
              if b
              then returned (some start)
              else (all_round process 0 0 0 (handles_of ks) (some ss) w
                  >>= all_rounds_from process (all_rounds process fuel (length ks)) (length ks)))
      by true f = (start, refl, refl)
      by false (v, eq, count, same) = rw eq (last v (omega (arith, count)) same)

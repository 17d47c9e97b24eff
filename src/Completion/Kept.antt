-- ===== src/Completion/Kept.antt =====
-- src/backend/messaging.c: messaging_probe_receive keeps the handle of the request.
use e_salsa_mpi.Prelude.{
  ℕ, if◌then◌else◌, Bool, true, false, Option, none, some, List, [], ◌∷◌, ℤ, ◌≡◌, refl,
}
use e_salsa_mpi.Codes.{Result, ok, err}
use e_salsa_mpi.Messaging.Defs.{
  DataMessage, ProbeCalls, Mail, match_message, probe_mpi_data_message, store_message,
  find_pending_message,
}
use e_salsa_mpi.Requests.Defs.{Request}
use e_salsa_mpi.Requests.Probe
use e_salsa_mpi.Requests.Probe.{
  probe_loop, probe_round, stored, probe_found, probe_from, messaging_probe_receive,
  messaging_finalize_receive, completed, complete_with,
}

-- messaging_probe_receive returns the request with its handle.
abbrev pub IsOn : ℤ → Probe.Probe → Type 0
IsOn h (Probe.probed e r mail calls) = r.handle ≡ h
IsOn h (Probe.waiting r mail) = Unit
IsOn h Probe.fault = Unit

module _ (k : ℕ) (r : Request) (blocking : Bool) where
  stored-IsOn :
      (calls : List ProbeCalls) (next : Mail → Probe.Probe) (o : Option Mail)
      → ((mail : Mail) → IsOn r.handle (next mail))
      → IsOn r.handle (stored blocking r calls next o)
  stored-IsOn calls next none h = tt
  stored-IsOn calls next (some mail) h = by blocking
    where
      by : (b : Bool) → IsOn r.handle (if b then next mail else Probe.probed (ok tt) r mail calls)
      by true = h mail
      by false = refl

  probe_round-IsOn :
      (node : Bool) (mail : Mail) (calls : List ProbeCalls) (next : Mail → Probe.Probe)
      (o : Result (Option DataMessage))
      → ((mail' : Mail) → IsOn r.handle (next mail'))
      → IsOn r.handle (probe_round k r blocking node mail calls next o)
  unfolding probe_round
  probe_round-IsOn node mail calls next (err e) h = refl
  probe_round-IsOn node mail calls next (ok none) h = stored-IsOn calls next (some mail) h
  probe_round-IsOn node mail calls next (ok (some m)) h =
      by (match_message m r.comm r.source_or_dest r.tag)
    where
      by :
          (b : Bool)
          → IsOn r.handle (
              if b
              then Probe.probed (ok tt) (complete_with m r) mail calls
              else stored blocking r calls next (store_message node m mail))
      by true = refl
      by false = stored-IsOn calls next (store_message node m mail) h

  probe_loop-IsOn :
      (mail : Mail) (calls : List ProbeCalls) → IsOn r.handle (probe_loop k r blocking mail calls)
  unfolding probe_loop
  probe_loop-IsOn mail [] = by blocking
    where
      by :
          (b : Bool)
          → IsOn r.handle (if b then Probe.waiting r mail else Probe.probed (ok tt) r mail [])
      by true = tt
      by false = refl
  probe_loop-IsOn mail (call ∷ calls) =
      probe_round-IsOn call.node mail calls (λ mail'. probe_loop k r blocking mail' calls)
        (probe_mpi_data_message call blocking) (λ mail'. probe_loop-IsOn mail' calls)

pub messaging_probe_receive-IsOn :
    (k : ℕ) (r : Request) (blocking : Bool) (mail : Mail) (calls : List ProbeCalls)
    → IsOn r.handle (messaging_probe_receive k r blocking mail calls)
unfolding messaging_probe_receive
messaging_probe_receive-IsOn k r blocking mail calls = by_flag r.flags.completed
  where
    by_found :
        (o : Option (DataMessage × List DataMessage))
        → IsOn r.handle (probe_found k r blocking mail calls o)
    by_found none =
        probe_loop-IsOn k (record r { error = ok tt; message = none }) blocking mail calls
    by_found (some (m, q)) = refl

    by_queue :
        (o : Option (List DataMessage)) → IsOn r.handle (probe_from k r blocking mail calls o)
    by_queue none = tt
    by_queue (some q) = by_found (find_pending_message k q r.source_or_dest r.tag)

    by_flag :
        (b : Bool)
        → IsOn r.handle (
            if b
            then Probe.probed (ok tt) r mail calls
            else probe_from k r blocking mail calls (mail k))
    by_flag true = refl
    by_flag false = by_queue (mail k)

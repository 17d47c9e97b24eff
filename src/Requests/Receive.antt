-- ===== src/Requests/Receive.antt =====
-- A receive by a request does what messaging_receive does.
use e_salsa_mpi.Prelude.{
  ℕ, if◌then◌else◌, Bool, true, false, Option, none, some, List, [], ◌∷◌, ◌++◌, ◌≡◌, inl, inr, refl,
  sym, ap, subst, pos,
}
use e_salsa_mpi.Codes.{Result, ok, err}
use e_salsa_mpi.Messaging.Defs
use e_salsa_mpi.Messaging.Defs.{
  DataMessage, ProbeCalls, Mail, put_mail, match_message, probe_mpi_data_message, store_message,
  find_pending_message, Outcome, receive_round, receive_loop, receive_found, receive_from,
  messaging_receive, and_next, got,
}
use e_salsa_mpi.Messaging.Receive.{Probed, probe-Probed}
use e_salsa_mpi.Requests.Defs.{Request}
use e_salsa_mpi.Requests.Probe.{
  Probe, probed, waiting, fault, completed, complete_with, stored, probe_round, probe_loop,
  probe_found, probe_from, messaging_probe_receive,
}

-- The request while no message is found.
abbrev pub without_message : Request → Request
without_message r = record r { error = ok tt; message = none }

-- The probe found no message.
abbrev IsNone : Result (Option DataMessage) → Type 0
IsNone (ok none) = Unit {0}
IsNone (ok (some m)) = ⊥
IsNone (err e) = ⊥

no_message : {x : Result (Option DataMessage)} → ok none ≡ x → IsNone x
no_message e = subst IsNone e tt

-- A blocking probe ends as a receive does: with the same message, which completes the request, or in
-- the same error, which completes it too.
abbrev pub WaitsAs : Request → Outcome → Probe → Type 0
WaitsAs r (got m mail calls) p =
    p ≡ probed (ok tt) (complete_with m (record r { error = ok tt })) mail calls
WaitsAs r (Defs.failed e mail) p =
    (rest : List ProbeCalls) × (p
      ≡ probed (err e) (completed (record r { error = err e; message = none })) mail rest)
WaitsAs r (Defs.waiting mail) p = p ≡ waiting (without_message r) mail
WaitsAs r Defs.fault p = p ≡ fault

module _ (k : ℕ) (r : Request) (comm : r.comm ≡ pos k) where
  -- The test on the message is the same.
  same_match :
      (m : DataMessage)
      → match_message m r.comm r.source_or_dest r.tag
        ≡ match_message m (pos k) r.source_or_dest r.tag
  same_match m = ap (λ c. match_message m c r.source_or_dest r.tag) comm

  -- The loops on a request without a message.
  probe_loop-WaitsAs :
      (mail : Mail) (calls : List ProbeCalls)
      → WaitsAs r
          (receive_loop k r.source_or_dest r.tag mail calls)
          (probe_loop k (without_message r) true mail calls)
  unfolding probe_loop probe_round receive_loop receive_round
  probe_loop-WaitsAs mail [] = refl
  probe_loop-WaitsAs mail (call ∷ calls) =
      by_probe (probe_mpi_data_message call true) (probe-Probed call)
        (λ mail'. probe_loop-WaitsAs mail' calls)
    where
      Further : Type 0
      Further =
          (mail' : Mail)
          → WaitsAs r (receive_loop k r.source_or_dest r.tag mail' calls)
              (probe_loop k (without_message r) true mail' calls)

      by_store :
          (o : Option Mail)
          → Further
          → WaitsAs r (and_next (λ mail'. receive_loop k r.source_or_dest r.tag mail' calls) o) (
              stored true
                (without_message r)
                calls
                (λ mail'. probe_loop k (without_message r) true mail' calls)
                o)
      by_store none further = refl
      by_store (some mail') further = further mail'

      by_match :
          (m : DataMessage) (b : Bool)
          → Further
          → WaitsAs r
              (if b
                then got m mail calls
                else and_next
                    (λ mail'. receive_loop k r.source_or_dest r.tag mail' calls)
                    (store_message call.node m mail))
              (if b
                then probed (ok tt) (complete_with m (without_message r)) mail calls
                else stored true
                    (without_message r)
                    calls
                    (λ mail'. probe_loop k (without_message r) true mail' calls)
                    (store_message call.node m mail))
      by_match m true further = refl
      by_match m false further = by_store (store_message call.node m mail) further

      by_probe :
          (x : Result (Option DataMessage))
          → Probed call.received x
          → Further
          → WaitsAs r
              (receive_round k r.source_or_dest r.tag call.node mail calls
                (λ mail'. receive_loop k r.source_or_dest r.tag mail' calls)
                x)
              (probe_round k
                (without_message r)
                true
                call.node
                mail
                calls
                (λ mail'. probe_loop k (without_message r) true mail' calls)
                x)
      by_probe (err e) h further = (calls, refl)
      by_probe (ok none) (inl (e, bad)) further = absurd (no_message bad)
      by_probe (ok none) (inr bad) further = absurd (no_message bad)
      by_probe (ok (some m)) h further =
          subst
            (λ b.
              WaitsAs r
                (if match_message m (pos k) r.source_or_dest r.tag
                  then got m mail calls
                  else and_next (λ mail'. receive_loop k r.source_or_dest r.tag mail' calls)
                      (store_message call.node m mail))
                (if b
                  then probed (ok tt) (complete_with m (without_message r)) mail calls
                  else stored true (without_message r) calls
                      (λ mail'. probe_loop k (without_message r) true mail' calls)
                      (store_message call.node m mail)))
            (sym (same_match m))
            (by_match m (match_message m (pos k) r.source_or_dest r.tag) further)

  -- On a request that is not completed and has no error, messaging_probe_receive, blocking, ends as
  -- messaging_receive does up to unpack_message on the same communicator, source and tag: it completes
  -- the request with the same message and leaves the same pending messages and calls, or completes it
  -- with the same error, or waits, or follows a bad pointer.
  pub messaging_probe_receive-WaitsAs :
      (mail : Mail) (calls : List ProbeCalls)
      → r.flags.completed ≡ false
      → r.error ≡ ok tt
      → WaitsAs r
          (messaging_receive k r.source_or_dest r.tag mail calls)
          (messaging_probe_receive k r true mail calls)
  unfolding messaging_probe_receive messaging_receive receive_from receive_found
  messaging_probe_receive-WaitsAs mail calls open_ clean =
      subst
        (λ b.
          WaitsAs r (messaging_receive k r.source_or_dest r.tag mail calls)
            (if b then probed (ok tt) r mail calls else probe_from k r true mail calls (mail k)))
        (sym open_) (from (mail k))
    where
      found_in :
          (o : Option (DataMessage × List DataMessage))
          → WaitsAs r
              (receive_found k r.source_or_dest r.tag mail calls o)
              (probe_found k r true mail calls o)
      found_in none = probe_loop-WaitsAs mail calls
      found_in (some (m, q)) =
          ap
            (λ e.
              probed (ok tt) (complete_with m (record r { error = e })) (put_mail mail k q) calls)
            clean

      from :
          (o : Option (List DataMessage))
          → WaitsAs r
              (receive_from k r.source_or_dest r.tag mail calls o)
              (probe_from k r true mail calls o)
      from none = refl
      from (some q) = found_in (find_pending_message k q r.source_or_dest r.tag)

-- A test does what a receive does that has one run of probe_mpi_data_message, `calls` are those that
-- follow it.
abbrev pub TestsAs : Request → List ProbeCalls → Outcome → Probe → Type 0
TestsAs r calls (got m mail rest) p =
    p ≡ probed (ok tt) (complete_with m (record r { error = ok tt })) mail (rest ++ calls)
TestsAs r calls (Defs.failed e mail) p =
    p ≡ probed (err e) (completed (record r { error = err e; message = none })) mail calls
TestsAs r calls (Defs.waiting mail) p = p ≡ probed (ok tt) (without_message r) mail calls
TestsAs r calls Defs.fault p = p ≡ fault

-- Where PMPI_Iprobe finds a message, it does not matter whether the probe blocks.
probe_with_flag :
    (call : ProbeCalls)
    → call.flag ≡ true
    → probe_mpi_data_message call true ≡ probe_mpi_data_message call false
unfolding probe_mpi_data_message
probe_with_flag call f = rw f refl

module _ (k : ℕ) (r : Request) (comm : r.comm ≡ pos k) where
  probe_round-TestsAs :
      (mail : Mail) (call : ProbeCalls) (calls : List ProbeCalls) (next : Mail → Probe)
      (x : Result (Option DataMessage))
      → Probed call.received x
      → TestsAs r calls
          (receive_round k r.source_or_dest r.tag call.node mail []
            (λ mail'. receive_loop k r.source_or_dest r.tag mail' [])
            x)
          (probe_round k (without_message r) false call.node mail calls next x)
  unfolding probe_round receive_round receive_loop
  probe_round-TestsAs mail call calls next (err e) h = refl
  probe_round-TestsAs mail call calls next (ok none) (inl (e, bad)) = absurd (no_message bad)
  probe_round-TestsAs mail call calls next (ok none) (inr bad) = absurd (no_message bad)
  probe_round-TestsAs mail call calls next (ok (some m)) h =
      subst
        (λ b.
          TestsAs r calls
            (if match_message m (pos k) r.source_or_dest r.tag
              then got m mail []
              else and_next (λ mail'. receive_loop k r.source_or_dest r.tag mail' [])
                  (store_message call.node m mail))
            (if b
              then probed (ok tt) (complete_with m (without_message r)) mail calls
              else stored false (without_message r) calls next (store_message call.node m mail)))
        (sym (same_match k r comm m)) (by_match (match_message m (pos k) r.source_or_dest r.tag))
    where
      by_store :
          (o : Option Mail)
          → TestsAs r calls
              (and_next (λ mail'. receive_loop k r.source_or_dest r.tag mail' []) o)
              (stored false (without_message r) calls next o)
      by_store none = refl
      by_store (some mail') = refl

      by_match :
          (b : Bool)
          → TestsAs r calls
              (if b
                then got m mail []
                else and_next
                    (λ mail'. receive_loop k r.source_or_dest r.tag mail' [])
                    (store_message call.node m mail))
              (if b
                then probed (ok tt) (complete_with m (without_message r)) mail calls
                else stored false (without_message r) calls next (store_message call.node m mail))
      by_match true = refl
      by_match false = by_store (store_message call.node m mail)

  -- On a request that is not completed and has no error, messaging_probe_receive, not blocking, where
  -- PMPI_Iprobe finds a message, ends as messaging_receive does with that message alone: it completes
  -- the request with the same message or error and leaves the same pending messages, and where the
  -- receive would wait it returns EMPI_SUCCESS with the request not completed.
  pub messaging_probe_receive-TestsAs :
      (mail : Mail) (call : ProbeCalls) (calls : List ProbeCalls)
      → call.flag ≡ true
      → r.flags.completed ≡ false
      → r.error ≡ ok tt
      → TestsAs r calls
          (messaging_receive k r.source_or_dest r.tag mail (call ∷ []))
          (messaging_probe_receive k r false mail (call ∷ calls))
  unfolding messaging_probe_receive messaging_receive receive_from receive_found probe_loop
      receive_loop
  messaging_probe_receive-TestsAs mail call calls flagged open_ clean =
      subst
        (λ b. TestsAs r calls (messaging_receive k r.source_or_dest r.tag mail (call ∷ [])) (
          if b
          then probed (ok tt) r mail (call ∷ calls)
          else probe_from k r false mail (call ∷ calls) (mail k)))
        (sym open_) (from (mail k))
    where
      found_in :
          (o : Option (DataMessage × List DataMessage))
          → TestsAs r calls
              (receive_found k r.source_or_dest r.tag mail (call ∷ []) o)
              (probe_found k r false mail (call ∷ calls) o)
      found_in none =
          subst
            (λ x.
              TestsAs r calls
                (receive_round k r.source_or_dest r.tag call.node mail []
                  (λ mail'. receive_loop k r.source_or_dest r.tag mail' [])
                  (probe_mpi_data_message call true))
                (probe_round k (without_message r) false call.node mail calls
                  (λ mail'. probe_loop k (without_message r) false mail' calls) x))
            (probe_with_flag call flagged)
            (probe_round-TestsAs mail call calls
              (λ mail'. probe_loop k (without_message r) false mail' calls)
              (probe_mpi_data_message call true) (probe-Probed call))
      found_in (some (m, q)) =
          ap
            (λ e.
              probed (ok tt) (complete_with m (record r { error = e })) (put_mail mail k q)
                (call ∷ calls))
            clean

      from :
          (o : Option (List DataMessage))
          → TestsAs r calls
              (receive_from k r.source_or_dest r.tag mail (call ∷ []) o)
              (probe_from k r false mail (call ∷ calls) o)
      from none = refl
      from (some q) = found_in (find_pending_message k q r.source_or_dest r.tag)

-- ===== src/Completion/Handles.antt =====
-- src/backend/empi.c: probe_request keeps the handle of the request that it probes.
use e_salsa_mpi.Prelude.{
  if◌then◌else◌, Bool, true, false, not, ◌&&◌, Option, List, [], ◌∷◌, ℤ, ◌≡◌, refl, subst, ◌∙◌,
  ◌==ℤ◌, pos_part,
}
use e_salsa_mpi.Codes.{Result, ok, err, err_intern, any_source}
use e_salsa_mpi.Messaging.Defs.{DataMessage}
use e_salsa_mpi.Requests.Defs.{Request}
use e_salsa_mpi.Requests.Probe
use e_salsa_mpi.Requests.Probe.{
  probe_loop, probe_round, stored, probe_found, probe_from, messaging_probe_receive,
  messaging_finalize_receive, completed, complete_with,
}
use e_salsa_mpi.Completion.Status.{Status}
use e_salsa_mpi.Completion.Defs.{
  MpiTest, MpiStatus, Probing, Process, is_ok, settle, settle_with, finalize_receive,
  unpack_message, translated, translate_status,
}
use e_salsa_mpi.Completion.Probe.{
  probed_with, probe_receive, tested, local_status, probe_local, probe_sent, settled, probe_remote,
  probe_wide, mixed_round, again, probe_mixed, probe_kind,
}
use e_salsa_mpi.Completion.Ends.{Ends, gives, waits, faults, stops, and_then-Ends, if-Ends, always}
use e_salsa_mpi.Completion.Kept.{IsOn, messaging_probe_receive-IsOn}

-- The request of a Probing has the handle `h`.
abbrev pub Holds : ℤ → Probing → Type 0
Holds h p = p.request.handle ≡ h

abbrev HoldsWith : ℤ → Result (Unit {0}) × Probing → Type 0
HoldsWith h (e, p) = Holds h p

probe_receive-Holds :
    (blocking : Bool) (p : Probing) → Ends (HoldsWith p.request.handle) (probe_receive blocking p)
probe_receive-Holds blocking p =
    by (messaging_probe_receive (pos_part p.request.comm) p.request blocking p.mail p.calls)
      (messaging_probe_receive-IsOn (pos_part p.request.comm) p.request blocking p.mail p.calls)
  where
    by :
        (o : Probe.Probe)
        → IsOn p.request.handle o
        → Ends (HoldsWith p.request.handle) (probed_with p o)
    by (Probe.probed e r mail calls) h = gives h
    by (Probe.waiting r mail) h = waits
    by Probe.fault h = faults

abbrev HasHandle : ℤ → Result (Unit {0}) × Request → Type 0
HasHandle h (e, r) = r.handle ≡ h

finalize-handle :
    (unpack : Option DataMessage → Result (Unit {0})) (r : Request)
    → (messaging_finalize_receive unpack r).1.handle ≡ r.handle
unfolding messaging_finalize_receive
finalize-handle unpack r = by (not r.flags.completed) r.flags.unpacked
  where
    by :
        (b c : Bool)
        → HasHandle r.handle (
            if b then (err err_intern, r) else if c then (ok tt, r) else (
              unpack r.message,
              record r { error = unpack r.message; flags = record r.flags { unpacked = true } },
            ))
    by true c = refl
    by false true = refl
    by false false = refl

module _ (process : Process) where
  pub settle-handle : (r : Request) (s : Option Status) → (settle process r s).0.handle ≡ r.handle
  unfolding settle finalize_receive
  settle-handle r s = by r.error
    where
      by : (e : Result (Unit {0})) → (settle_with process r s e).0.handle ≡ r.handle
      by (ok u) = finalize-handle (unpack_message process) r
      by (err e) = refl

  -- The request that is left where a receive may have completed.
  settled-Holds :
      (b : Bool) (h : ℤ) (p q : Probing)
      → Holds h p
      → Holds h q
      → Holds h (if b then settled process p else q)
  settled-Holds true h p q hp hq = settle-handle p.request p.status ∙ hp
  settled-Holds false h p q hp hq = hq

  translated-Holds :
      (p : Probing) (m : MpiStatus) → Ends (Holds p.request.handle) (translated process p m)
  translated-Holds p m =
      and_then-Ends {P = λ _. Unit}
        (always (
          translate_status process (process.communicator p.request.comm) p.request.type p.status m))
        (λ done _. gives refl)

  local_status-Holds :
      (call : MpiTest) (p : Probing) → Ends (Holds p.request.handle) (local_status process call p)
  local_status-Holds call p =
      if-Ends (not (is_ok p.request.error && p.flag)) (gives refl)
        (if-Ends p.request.flags.send (gives refl) (translated-Holds p call.status))

  probe_wide-Holds :
      (call : MpiTest) (p : Probing) → Ends (Holds p.request.handle) (probe_wide process call p)
  probe_wide-Holds call p = and_then-Ends (probe_receive-Holds false p) (λ (e, p') h. gives (
      settled-Holds p'.request.flags.completed p.request.handle
        (record p' { request = record p'.request { error = e; req = call.cancelled_req } })
        (record p' { request = record p'.request { error = e } }) h h))

  probe_remote-Holds :
      (blocking : Bool) (p : Probing)
      → Ends (Holds p.request.handle) (probe_remote process blocking p)
  unfolding probe_remote
  probe_remote-Holds blocking p =
      and_then-Ends (probe_receive-Holds blocking p)
        (λ (e, p') h. gives (settled-Holds p'.request.flags.completed p.request.handle p' p' h h))

  mixed_round-Holds :
      (call : MpiTest) (p : Probing) → Ends (Holds p.request.handle) (mixed_round process call p)
  unfolding mixed_round
  mixed_round-Holds call p =
      if-Ends (is_ok p.request.error && p.flag) (translated-Holds p call.status)
        (probe_wide-Holds call p)

  -- A next round that holds a handle of its request does so behind a request that holds it.
  again-Holds :
      (blocking : Bool) (tests : List MpiTest) (h : ℤ) (p : Probing)
      → ((q : Probing) → Ends (Holds q.request.handle) (probe_mixed process blocking tests q))
      → Holds h p
      → Ends (Holds h) (again process blocking (probe_mixed process blocking tests) p)
  again-Holds blocking tests h p next e =
      if-Ends (blocking && (not p.flag && is_ok p.request.error))
        (subst (λ j. Ends (Holds j) (probe_mixed process blocking tests p)) e (next p)) (gives e)

  probe_mixed-Holds :
      (blocking : Bool) (tests : List MpiTest) (p : Probing)
      → Ends (Holds p.request.handle) (probe_mixed process blocking tests p)
  unfolding probe_mixed
  probe_mixed-Holds blocking [] p = waits
  probe_mixed-Holds blocking (call ∷ tests) p =
      and_then-Ends (mixed_round-Holds call (tested process call tests call.flag p)) (λ p' h.
        again-Holds blocking tests p.request.handle p' (probe_mixed-Holds blocking tests) h)

  probe_local-Holds :
      (blocking : Bool) (tests : List MpiTest) (p : Probing)
      → Ends (Holds p.request.handle) (probe_local process blocking tests p)
  unfolding probe_local
  probe_local-Holds blocking [] p = waits
  probe_local-Holds blocking (call ∷ tests) p =
      local_status-Holds call (tested process call tests (if blocking then true else call.flag) p)

  pub probe_kind-Holds :
      (blocking : Bool) (p : Probing)
      → Ends (Holds p.request.handle) (probe_kind process blocking p)
  unfolding probe_kind probe_sent
  probe_kind-Holds blocking p = if-Ends p.request.flags.persistent stops (
      if-Ends p.request.flags.local (probe_local-Holds blocking p.tests p) (
        if-Ends p.request.flags.send (gives refl) (
          if-Ends (not (p.request.source_or_dest ==ℤ any_source)) (probe_remote-Holds blocking p) (
            if-Ends p.request.flags.completed (gives refl)
              (probe_mixed-Holds blocking p.tests p)))))

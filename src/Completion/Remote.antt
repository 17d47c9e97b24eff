-- ===== src/Completion/Remote.antt =====
-- src/backend/empi.c: waiting for a receive from another cluster is a receive.
use e_salsa_mpi.Prelude.{
  ℕ, ◌<◌, leb, if◌then◌else◌, Bool, true, false, not, Option, none, some, List, pos, ◌≡◌, refl, sym,
  ap, subst, ◌∙◌, ◌==ℤ◌, arith, pos_part,
}
use e_salsa_mpi.Codes.{Result, ok, err, Code, max_requests, any_source}
use e_salsa_mpi.Messaging.Defs
use e_salsa_mpi.Messaging.Defs.{DataMessage, ProbeCalls, Outcome, got, messaging_receive}
use e_salsa_mpi.Requests.Defs.{Request, Table, put, clear, handle_to_request, free_request}
use e_salsa_mpi.Requests.Probe
use e_salsa_mpi.Requests.Probe.{
  completed, complete_with, messaging_probe_receive, messaging_finalize_receive,
}
use e_salsa_mpi.Requests.Receive.{WaitsAs, messaging_probe_receive-WaitsAs}
use e_salsa_mpi.Completion.Status.{Status, set_status_error}
use e_salsa_mpi.Completion.Defs.{
  Ending, returned, waiting, fault, ◌>>=◌, Process, Probing, settle, finalize_receive,
  unpacked_status,
}
use e_salsa_mpi.Completion.Probe.{
  request_null, World, Probed, finish_probe, probed_with, settled, probe_remote, probe_kind,
}
use e_salsa_mpi.Completion.Settles.{put-put}
use e_salsa_mpi.Completion.Handles.{settle-handle}
use e_salsa_mpi.Completion.Wait.{probing, probe_request, empi_wait}

-- A pending receive from a rank of another cluster, on the communicator `k`.
pub record IsRemote (k : ℕ) (r : Request) : Type 0 where
  pub on_comm : r.comm ≡ pos k
  pub not_persistent : r.flags.persistent ≡ false
  pub not_local : r.flags.local ≡ false
  pub not_send : r.flags.send ≡ false
  pub not_completed : r.flags.completed ≡ false
  pub not_unpacked : r.flags.unpacked ≡ false
  pub no_error : r.error ≡ ok tt
  pub from_rank : (r.source_or_dest ==ℤ any_source) ≡ false

-- What a call that has freed the request `n` leaves.
abbrev pub done :
    ℕ → World → Result (Unit {0}) → Option Status → Defs.Mail → List ProbeCalls → Ending Probed
done n w code s mail calls = returned (record {
  code = code;
  flag = true;
  handle = request_null;
  status = s;
  world = record { reqs = put w.reqs n none; mail = mail; calls = calls; tests = w.tests };
})

-- EMPI_Wait behind messaging_receive: it unpacks the message and frees the request, or reports the
-- error and frees the request, or waits.
abbrev pub ReceivesAs :
    Process → ℕ → Request → Option Status → World → Outcome → Ending Probed → Type 0
ReceivesAs process n r s w (got m mail calls) e =
    e ≡ done n w (process.unpack m) (unpacked_status r (some m) (process.unpack m) s) mail calls
ReceivesAs process n r s w (Defs.failed c mail) e =
    (rest : List ProbeCalls) × (e
      ≡ done n w (err c) (set_status_error s r.source_or_dest r.tag (err c) r.type) mail rest)
ReceivesAs process n r s w (Defs.waiting mail) e = e ≡ waiting
ReceivesAs process n r s w Defs.fault e = e ≡ fault

if-false : {A : Type 0} (x y : A) {b : Bool} → b ≡ false → (if b then x else y) ≡ y
if-false x y e = ap (λ c. if c then x else y) e

if-true : {A : Type 0} (x y : A) {b : Bool} → b ≡ true → (if b then x else y) ≡ x
if-true x y e = ap (λ c. if c then x else y) e

-- The table behind the free of a request with the handle `n`.
freed :
    (n : ℕ) (reqs : Table) (r : Request)
    → r.handle ≡ pos n
    → (free_request (some r) (put reqs n (some r))).1 ≡ put reqs n none
unfolding free_request
freed n reqs r e =
    ap (λ h. clear h (put reqs n (some r))) e ∙ (λ i j. put-put reqs n (some r) none j i)

-- A request that is settled: the code, the status and the table.
pub settled-done :
    (n : ℕ) (w : World) (q : Probing) (c : Result (Unit {0})) (st : Option Status)
    → q.request.handle ≡ pos n
    → q.request.error ≡ c
    → q.status ≡ st
    → q.flag ≡ true
    → q.tests ≡ w.tests
    → returned (finish_probe (pos n) n w.reqs q) ≡ done n w c st q.mail q.calls
unfolding finish_probe
settled-done n w q c st e ec es ef et = rw (freed n w.reqs q.request e, ef, ec, es, et) refl

module _ (process : Process) (n k : ℕ) (r : Request) (s : Option Status) (w : World) where
  -- The rest of EMPI_Wait behind messaging_probe_receive.
  abbrev behind : Probe.Probe → Ending Probed
  behind p = do
    (e, q) ← probed_with (probing false s w r) p
    returned
        (finish_probe (pos n) n w.reqs (if q.request.flags.completed then settled process q else q))

  behind_assoc :
      (p : Probe.Probe)
      → ((probed_with (probing false s w r) p
            >>= (λ (e, q). returned (if q.request.flags.completed then settled process q else q)))
          >>= (λ q. returned (finish_probe (pos n) n w.reqs q)))
        ≡ behind p
  behind_assoc (Probe.probed e r' mail calls) = refl
  behind_assoc (Probe.waiting r' mail) = refl
  behind_assoc Probe.fault = refl

  -- The branch of a request of this kind.
  probe_kind-IsRemote :
      IsRemote k r
      → (p : Probing) → p.request ≡ r
      → probe_kind process true p ≡ probe_remote process true p
  unfolding probe_kind
  probe_kind-IsRemote h p e =
      if-false _ _ (ap (λ x. x.flags.persistent) e ∙ h.not_persistent)
      ∙ if-false _ _ (ap (λ x. x.flags.local) e ∙ h.not_local)
      ∙ if-false _ _ (ap (λ x. x.flags.send) e ∙ h.not_send)
      ∙ if-true _ _ (ap (λ x. not (x.source_or_dest ==ℤ any_source)) e ∙ ap not h.from_rank)

  pub empi_wait-behind :
      n < max_requests
      → w.reqs n ≡ some r
      → IsRemote k r
      → empi_wait process (pos n) s w ≡ behind (messaging_probe_receive k r true w.mail w.calls)
  unfolding empi_wait probe_request handle_to_request probe_remote
  empi_wait-behind below e h =
      rw (not_null, in_table, e)
        (ap (λ x. x >>= (λ q. returned (finish_probe (pos n) n w.reqs q)))
            (probe_kind-IsRemote h (probing false s w r) refl)
          ∙ behind_assoc (messaging_probe_receive (pos_part r.comm) r true w.mail w.calls)
          ∙ ap (λ c. behind (messaging_probe_receive (pos_part c) r true w.mail w.calls)) h.on_comm)
    where
      not_null : (pos n ==ℤ request_null) ≡ false
      not_null = ground arith

      in_table : leb max_requests n ≡ false
      in_table = ground arith

  unpacked_as :
      (m : DataMessage) (u : Result (Unit {0}))
      → unpacked_status (complete_with m (record r { error = ok tt })) (some m) u s
        ≡ unpacked_status r (some m) u s
  unpacked_as m (ok u) = refl
  unpacked_as m (err e) = refl

  -- The request that a message has completed.
  abbrev matched : DataMessage → Request
  matched m = complete_with m (record r { error = ok tt })

  settle-error :
      (m : DataMessage)
      → r.flags.unpacked ≡ false
      → (settle process (matched m) s).0.error ≡ process.unpack m
  unfolding settle finalize_receive messaging_finalize_receive
  settle-error m e = rw e refl

  settle-status :
      (m : DataMessage)
      → r.flags.unpacked ≡ false
      → (settle process (matched m) s).1 ≡ unpacked_status r (some m) (process.unpack m) s
  unfolding settle finalize_receive
  settle-status m e = if-true _ _ (ap not e) ∙ unpacked_as m (process.unpack m)

  -- The request that an error has completed.
  of_error :
      (c : Code) (mail : Defs.Mail) (rest : List ProbeCalls)
      → r.handle ≡ pos n
      → behind
          (Probe.probed (err c) (completed (record r { error = err c; message = none })) mail rest)
        ≡ done n w (err c) (set_status_error s r.source_or_dest r.tag (err c) r.type) mail rest
  unfolding settle
  of_error c mail rest e =
      settled-done n w
        (settled process
          (record (probing false s w (completed (record r { error = err c; message = none }))) {
            mail = mail;
            calls = rest;
          }))
        (err c) (set_status_error s r.source_or_dest r.tag (err c) r.type) e refl refl refl refl

  behind-ReceivesAs :
      (o : Outcome) (p : Probe.Probe)
      → r.handle ≡ pos n
      → IsRemote k r
      → WaitsAs r o p
      → ReceivesAs process n r s w o (behind p)
  behind-ReceivesAs (got m mail calls) p e h q =
      ap behind q
      ∙ settled-done n w
          (settled process (record (probing false s w (matched m)) { mail = mail; calls = calls }))
          (process.unpack m) (unpacked_status r (some m) (process.unpack m) s)
          (settle-handle process (matched m) s ∙ e) (settle-error m h.not_unpacked)
          (settle-status m h.not_unpacked) refl refl
  behind-ReceivesAs (Defs.failed c mail) p e h (rest, q) =
      (rest, ap behind q ∙ of_error c mail rest e)
  behind-ReceivesAs (Defs.waiting mail) p e h q = ap behind q
  behind-ReceivesAs Defs.fault p e h q = ap behind q

-- EMPI_Wait on a pending receive from a rank of another cluster ends as messaging_receive does on the
-- same communicator, source and tag, up to unpack_message: with its message it unpacks it, returns what
-- PMPI_Unpack returns and sets the status on success; with its error it returns it and sets the status
-- to it; in both cases the request is freed and `*req` is EMPI_REQUEST_NULL. It waits where the
-- receive waits, and follows a bad pointer where the receive does.
pub empi_wait-ReceivesAs :
    (process : Process) (n k : ℕ) (r : Request) (s : Option Status) (w : World)
    → n < max_requests
    → w.reqs n ≡ some r
    → r.handle ≡ pos n
    → IsRemote k r
    → ReceivesAs process n r s w
        (messaging_receive k r.source_or_dest r.tag w.mail w.calls)
        (empi_wait process (pos n) s w)
empi_wait-ReceivesAs process n k r s w below e handle h =
    subst (ReceivesAs process n r s w (messaging_receive k r.source_or_dest r.tag w.mail w.calls))
      (sym (empi_wait-behind process n k r s w below e h))
      (behind-ReceivesAs process n k r s w
        (messaging_receive k r.source_or_dest r.tag w.mail w.calls)
        (messaging_probe_receive k r true w.mail w.calls) handle h
        (messaging_probe_receive-WaitsAs k r h.on_comm w.mail w.calls h.not_completed h.no_error))

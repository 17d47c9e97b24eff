-- ===== src/Completion/Probe.antt =====
-- src/backend/empi.c: probe_request, EMPI_Test and EMPI_Wait.
use e_salsa_mpi.Prelude.{
  ℕ, if◌then◌else◌, Bool, true, false, not, ◌&&◌, Option, some, List, [], ◌∷◌, ℤ, negsuc, ◌==ℤ◌,
  pos_part,
}
use e_salsa_mpi.Codes.{Result, ok, any_source}
use e_salsa_mpi.Messaging.Defs.{ProbeCalls, Mail}
use e_salsa_mpi.Requests.Defs.{Request, Table, put, free_request}
use e_salsa_mpi.Requests.Probe
use e_salsa_mpi.Requests.Probe.{messaging_probe_receive}
use e_salsa_mpi.Completion.Status.{Status, set_status}
use e_salsa_mpi.Completion.Defs.{
  MpiTest, Ending, returned, waiting, fault, fatal, ◌>>=◌, Probing, Process, is_ok, settle,
  translated,
}

-- EMPI_REQUEST_NULL.
abbrev pub request_null : ℤ
request_null = negsuc 0

-- What messaging_probe_receive leaves, with what it returns.
abbrev pub probed_with : Probing → Probe.Probe → Ending (Result (Unit {0}) × Probing)
probed_with p (Probe.probed e r mail calls) =
    returned (e, record p { request = r; mail = mail; calls = calls })
probed_with p (Probe.waiting r mail) = waiting
probed_with p Probe.fault = fault

abbrev pub probe_receive : Bool → Probing → Ending (Result (Unit {0}) × Probing)
probe_receive blocking p =
    probed_with p
      (messaging_probe_receive (pos_part p.request.comm) p.request blocking p.mail p.calls)

-- A send that is complete.
abbrev pub set_sent : Request → Option Status → Option Status
set_sent r s = set_status s r.source_or_dest r.tag (ok tt) r.type r.count false

module _ (process : Process) where
  -- A call of PMPI_Test or of PMPI_Wait on the request.
  abbrev pub tested : MpiTest → List MpiTest → Bool → Probing → Probing
  tested call tests flag p = record p {
    request = record p.request { error = call.result; req = call.req };
    flag = flag;
    tests = tests;
  }

  -- The status of a local request behind PMPI_Test.
  abbrev pub local_status : MpiTest → Probing → Ending Probing
  local_status call p =
      if not (is_ok p.request.error && p.flag)
      then returned p
      else if p.request.flags.send
      then returned (record p { status = set_sent p.request p.status })
      else translated process p call.status

  unfoldable pub probe_local : Bool → List MpiTest → Probing → Ending Probing
  probe_local blocking [] p = waiting
  probe_local blocking (call ∷ tests) p =
      local_status call (tested call tests (if blocking then true else call.flag) p)

  unfoldable pub probe_sent : Probing → Ending Probing
  probe_sent p = returned (record p {
    request = record p.request { error = ok tt };
    flag = true;
    status = set_sent p.request p.status;
  })

  -- `request_completed(r)`: the flag is set, and the message unpacked.
  abbrev pub settled : Probing → Probing
  settled p =
      let done = settle process p.request p.status in
      record p { request = done.0; flag = true; status = done.1 }

  unfoldable pub probe_remote : Bool → Probing → Ending Probing
  probe_remote blocking p = do
    (e, p') ← probe_receive blocking p
    returned (if p'.request.flags.completed then settled p' else p')

  -- The wide area probe of a mixed receive, and the end of the local request.
  abbrev pub probe_wide : MpiTest → Probing → Ending Probing
  probe_wide call p = do
    (e, p') ← probe_receive false p
    let q = record p' { request = record p'.request { error = e } }
    returned (
        if q.request.flags.completed
        then settled (record q { request = record q.request { req = call.cancelled_req } })
        else q)

  -- A round of the loop for a mixed receive.
  unfoldable pub mixed_round : MpiTest → Probing → Ending Probing
  mixed_round call p =
      if is_ok p.request.error && p.flag
      then translated process p call.status
      else probe_wide call p

  -- `next` is the next round.
  abbrev pub again : Bool → (Probing → Ending Probing) → Probing → Ending Probing
  again blocking next p =
      if blocking && (not p.flag && is_ok p.request.error) then next p else returned p

  unfoldable pub probe_mixed : Bool → List MpiTest → Probing → Ending Probing
  probe_mixed blocking [] p = waiting
  probe_mixed blocking (call ∷ tests) p = do
    p' ← mixed_round call (tested call tests call.flag p)
    again blocking (probe_mixed blocking tests) p'

  -- The branches on the kind of the request; a persistent request ends the program.
  unfoldable pub probe_kind : Bool → Probing → Ending Probing
  probe_kind blocking p =
      let r = p.request in
      if r.flags.persistent
      then fatal
      else if r.flags.local
      then probe_local blocking p.tests p
      else if r.flags.send
      then probe_sent p
      else if not (r.source_or_dest ==ℤ any_source)
      then probe_remote blocking p
      else if r.flags.completed
      then returned (record p { flag = true })
      else probe_mixed blocking p.tests p

-- What outlives a call of probe_request.
pub record World : Type 0 where
  pub reqs : Table
  pub mail : Mail
  pub calls : List ProbeCalls
  pub tests : List MpiTest

-- What a function on a request leaves: the code it returns, `*flag`, `*req` and the status.
pub record Probed : Type 0 where
  pub code : Result (Unit {0})
  pub flag : Bool
  pub handle : ℤ
  pub status : Option Status
  pub world : World

-- The table behind probe_request.
abbrev pub reqs_after : ℕ → Probing → Table → Table
reqs_after k p reqs =
    if p.flag
    then (free_request (some p.request) (put reqs k (some p.request))).1
    else put reqs k (some p.request)

-- The end of probe_request, on the entry `k` of the table.
unfoldable pub finish_probe : ℤ → ℕ → Table → Probing → Probed
finish_probe handle k reqs p = record {
  code = if p.flag then p.request.error else ok tt;
  flag = p.flag;
  handle = if p.flag then request_null else handle;
  status = p.status;
  world = record { reqs = reqs_after k p reqs; mail = p.mail; calls = p.calls; tests = p.tests };
}

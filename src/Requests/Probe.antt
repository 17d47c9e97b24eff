-- ===== src/Requests/Probe.antt =====
-- Receiving by a request: messaging_probe_receive and messaging_finalize_receive of
-- src/backend/messaging.c.
use e_salsa_mpi.Prelude.{ℕ, if◌then◌else◌, Bool, true, not, Option, none, some, List, [], ◌∷◌}
use e_salsa_mpi.Codes.{err_intern, Result, ok, err}
use e_salsa_mpi.Messaging.Defs.{
  DataMessage, ProbeCalls, Mail, put_mail, match_message, probe_mpi_data_message, store_message,
  find_pending_message,
}
use e_salsa_mpi.Requests.Defs.{Request}

-- How messaging_probe_receive ends: it returns a code, or it waits in PMPI_Probe, or it follows a bad
-- pointer.
pub data Probe : Type 0 where
  probed : Result (Unit {0}) → Request → Mail → List ProbeCalls → Probe
  waiting : Request → Mail → Probe
  fault : Probe

abbrev pub completed : Request → Request
completed r = record r { flags = record r.flags { completed = true } }

-- The message is found.
abbrev pub complete_with : DataMessage → Request → Request
complete_with m r = completed (record r { message = some m })

-- What follows store_message in the loop: `next`, its next round, or its end.
abbrev pub stored : Bool → Request → List ProbeCalls → (Mail → Probe) → Option Mail → Probe
stored blocking r calls next none = fault
stored blocking r calls next (some mail) =
    if blocking then next mail else probed (ok tt) r mail calls

-- One round of the loop, on the result of probe_mpi_data_message.
unfoldable pub probe_round :
    ℕ
    → Request
    → Bool
    → Bool
    → Mail
    → List ProbeCalls
    → (Mail → Probe)
    → Result (Option DataMessage)
    → Probe
probe_round k r blocking node mail calls next (err e) =
    probed (err e) (completed (record r { error = err e })) mail calls
probe_round k r blocking node mail calls next (ok none) = stored blocking r calls next (some mail)
probe_round k r blocking node mail calls next (ok (some m)) =
    if match_message m r.comm r.source_or_dest r.tag
    then probed (ok tt) (complete_with m r) mail calls
    else stored blocking r calls next (store_message node m mail)

-- The `do` loop. At the end of the list a blocking probe waits, and another one finds no message.
unfoldable pub probe_loop : ℕ → Request → Bool → Mail → List ProbeCalls → Probe
probe_loop k r blocking mail [] = if blocking then waiting r mail else probed (ok tt) r mail []
probe_loop k r blocking mail (call ∷ calls) =
    probe_round k r blocking call.node mail calls (λ mail'. probe_loop k r blocking mail' calls)
      (probe_mpi_data_message call blocking)

abbrev pub probe_found :
    ℕ → Request → Bool → Mail → List ProbeCalls → Option (DataMessage × List DataMessage) → Probe
probe_found k r blocking mail calls none =
    probe_loop k (record r { error = ok tt; message = none }) blocking mail calls
probe_found k r blocking mail calls (some (m, q)) =
    probed (ok tt) (complete_with m r) (put_mail mail k q) calls

abbrev pub probe_from :
    ℕ → Request → Bool → Mail → List ProbeCalls → Option (List DataMessage) → Probe
probe_from k r blocking mail calls none = fault
probe_from k r blocking mail calls (some q) =
    probe_found k r blocking mail calls (find_pending_message k q r.source_or_dest r.tag)

-- On a request for the communicator with handle `k`.
unfoldable pub messaging_probe_receive : ℕ → Request → Bool → Mail → List ProbeCalls → Probe
messaging_probe_receive k r blocking mail calls =
    if r.flags.completed
    then probed (ok tt) r mail calls
    else probe_from k r blocking mail calls (mail k)

-- `unpacked` is what unpack_message returns on the request's message.
unfoldable pub messaging_finalize_receive :
    (Option DataMessage → Result (Unit {0})) → Request → Result (Unit {0}) × Request
messaging_finalize_receive unpack r =
    if not r.flags.completed
    then (err err_intern, r)
    else if r.flags.unpacked
    then (ok tt, r)
    else (
      unpack r.message,
      record r { error = unpack r.message; flags = record r.flags { unpacked = true } },
    )

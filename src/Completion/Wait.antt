-- ===== src/Completion/Wait.antt =====
-- src/backend/empi.c: the calls that wait for requests, EMPI_Request_free and
-- EMPI_Request_get_status.
use e_salsa_mpi.Prelude.{
  ℕ, if◌then◌else◌, Bool, true, false, Option, none, some, ℤ, ◌==ℤ◌, pos_part,
}
use e_salsa_mpi.Codes.{Result, ok, err, err_request}
use e_salsa_mpi.Requests.Defs.{Request, Table, handle_to_request, free_request}
use e_salsa_mpi.Completion.Status.{Status, clear_status}
use e_salsa_mpi.Completion.Defs.{Ending, returned, ◌>>=◌, Probing, Process}
use e_salsa_mpi.Completion.Probe.{request_null, probe_kind, World, Probed, finish_probe}

abbrev pub probing : Bool → Option Status → World → Request → Probing
probing flag s w r = record {
  request = r;
  flag = flag;
  status = s;
  mail = w.mail;
  calls = w.calls;
  tests = w.tests;
}

-- A call that returns at once with this code and flag.
abbrev pub at_once : Result (Unit {0}) → Bool → ℤ → Option Status → World → Ending Probed
at_once code flag handle s w =
    returned (record { code = code; flag = flag; handle = handle; status = s; world = w })

module _ (process : Process) where
  abbrev pub probe_entry : Bool → Bool → ℤ → Option Status → World → Option Request → Ending Probed
  probe_entry blocking flag handle s w none = at_once (err err_request) flag handle s w
  probe_entry blocking flag handle s w (some r) = do
    p ← probe_kind process blocking (probing flag s w r)
    returned (finish_probe handle (pos_part handle) w.reqs p)

  -- `flag` is `*flag` before the call. A NULL pointer `req` does as a pointer to EMPI_REQUEST_NULL.
  unfoldable pub probe_request : Bool → Bool → ℤ → Option Status → World → Ending Probed
  probe_request blocking flag handle s w =
      if handle ==ℤ request_null
      then at_once (ok tt) true handle (clear_status s) w
      else probe_entry blocking flag handle s w (handle_to_request handle w.reqs)

  unfoldable pub empi_test : Bool → ℤ → Option Status → World → Ending Probed
  empi_test flag handle s w = probe_request false flag handle s w

  unfoldable pub empi_wait : ℤ → Option Status → World → Ending Probed
  empi_wait handle s w = probe_request true false handle s w

  -- EMPI_Request_free; `freed` is what PMPI_Request_free returns.
  abbrev pub free_code : (ℕ → Result (Unit {0})) → Option ℕ → Result (Unit {0})
  free_code freed none = ok tt
  free_code freed (some m) = freed m

  abbrev pub free_handle :
      (ℕ → Result (Unit {0})) → ℤ → Table → Option Request → Result (Unit {0}) × ℤ × Table
  free_handle freed handle reqs none = (err err_request, handle, reqs)
  free_handle freed handle reqs (some r) =
      (free_code freed r.req, request_null, (free_request (some r) reqs).1)

  unfoldable pub request_free : (ℕ → Result (Unit {0})) → ℤ → Table → Result (Unit {0}) × ℤ × Table
  request_free freed handle reqs =
      if handle ==ℤ request_null
      then (ok tt, handle, reqs)
      else free_handle freed handle reqs (handle_to_request handle reqs)

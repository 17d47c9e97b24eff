-- ===== src/Completion/GetStatus.antt =====
-- src/backend/empi.c: EMPI_Request_get_status.
use e_salsa_mpi.Prelude.{
  if◌then◌else◌, Bool, true, false, not, Option, none, some, List, [], ◌∷◌, ℤ, ◌==ℤ◌, pos_part,
}
use e_salsa_mpi.Codes.{Result, ok, err, err_request}
use e_salsa_mpi.Requests.Defs.{Request, put, handle_to_request}
use e_salsa_mpi.Completion.Status.{Status, clear_status}
use e_salsa_mpi.Completion.Defs.{
  MpiTest, Ending, returned, waiting, ◌>>=◌, Probing, Process, is_ok, translate_status,
}
use e_salsa_mpi.Completion.Probe.{request_null, probe_receive, set_sent, World, settled}
use e_salsa_mpi.Completion.Wait.{probing}

-- The code, `*flag`, the status and the world.
pub record Got : Type 0 where
  pub code : Result (Unit {0})
  pub flag : Bool
  pub status : Option Status
  pub world : World

-- The world with the request at the entry of the handle.
abbrev pub world_with : ℤ → World → Probing → World
world_with handle w p = record {
  reqs = put w.reqs (pos_part handle) (some p.request);
  mail = p.mail;
  calls = p.calls;
  tests = p.tests;
}

module _ (process : Process) where
  -- PMPI_Request_get_status; the status is translated whatever its flag is.
  abbrev pub get_local : Request → Option Status → World → List MpiTest → Ending Got
  get_local r s w [] = waiting
  get_local r s w (call ∷ tests) =
      if not (is_ok call.result)
      then returned (record {
        code = call.result;
        flag = call.flag;
        status = s;
        world = record w { tests = tests };
      })
      else do
        (code, s') ← translate_status process (process.communicator r.comm) r.type s call.status
        returned (record {
          code = code;
          flag = call.flag;
          status = s';
          world = record w { tests = tests };
        })

  -- A receive that is no longer local: what is behind the probe, if there is one.
  abbrev pub got_behind : ℤ → World → Probing → Got
  got_behind handle w p = record {
    code = if p.flag then p.request.error else ok tt;
    flag = p.flag;
    status = p.status;
    world = world_with handle w p;
  }

  abbrev pub get_receive : ℤ → World → Probing → Ending Got
  get_receive handle w p = do
    (e, q) ← (if p.request.flags.completed then returned (ok tt, p) else probe_receive false p)
    returned (got_behind handle w (if q.request.flags.completed then settled process q else q))

  abbrev pub get_entry : Bool → ℤ → Option Status → World → Option Request → Ending Got
  get_entry flag handle s w none =
      returned (record { code = err err_request; flag = flag; status = s; world = w })
  get_entry flag handle s w (some r) =
      if r.flags.persistent
      then returned (record { code = err err_request; flag = true; status = s; world = w })
      else if r.flags.local
      then get_local r s w w.tests
      else if r.flags.send
      then returned (record { code = ok tt; flag = true; status = set_sent r s; world = w })
      else get_receive handle w (probing r.flags.completed s w r)

  -- `flag` is `*flag` before the call.
  unfoldable pub request_get_status : Bool → ℤ → Option Status → World → Ending Got
  request_get_status flag handle s w =
      if handle ==ℤ request_null
      then returned (record { code = ok tt; flag = true; status = clear_status s; world = w })
      else get_entry flag handle (clear_status s) w (handle_to_request handle w.reqs)

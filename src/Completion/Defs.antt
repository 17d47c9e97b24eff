-- ===== src/Completion/Defs.antt =====
-- src/backend/empi.c: translate_status, and what probe_request does on a request.
--
-- The results of the calls of PMPI_Test and PMPI_Wait are a list; a code that makes a call at the end
-- of the list waits. Those of messaging_probe_receive are a list too (Requests/Probe).
use e_salsa_mpi.Prelude.{
  ℕ, if◌then◌else◌, Bool, true, false, not, ◌&&◌, Option, none, some, List, ℤ, pos, ◌==ℤ◌,
}
use e_salsa_mpi.Codes.{Result, ok, err, any_tag}
use e_salsa_mpi.Messaging.Defs.{DataMessage, ProbeCalls, Mail}
use e_salsa_mpi.Communicator.Defs.{Communicator, get_global_rank}
use e_salsa_mpi.Requests.Defs.{Request}
use e_salsa_mpi.Requests.Probe.{messaging_finalize_receive}
use e_salsa_mpi.Completion.Status.{Status, set_status, set_status_error}

-- An MPI_Status, with what PMPI_Test_cancelled and PMPI_Get_count give on it.
pub record MpiStatus : Type 0 where
  pub source : ℕ
  pub tag : ℤ
  pub error : Result (Unit {0})
  pub test_cancelled : Result Bool
  pub get_count : Result ℤ

-- What PMPI_Test or PMPI_Wait returns, and `*flag`, the request and the status behind it. The
-- last field is the request behind PMPI_Cancel and PMPI_Request_free, where they follow.
pub record MpiTest : Type 0 where
  pub result : Result (Unit {0})
  pub flag : Bool
  pub req : Option ℕ
  pub status : MpiStatus
  pub cancelled_req : Option ℕ

-- How a function ends: it returns, or it waits for ever, or it follows a bad pointer, or FATAL ends the
-- program.
pub data Ending {ℓ} (A : Type ℓ) : Type ℓ where
  returned : A → Ending A
  waiting fault fatal : Ending A

infixl 5 ◌>>=◌
abbrev pub ◌>>=◌ {ℓ κ} : {A : Type ℓ} {B : Type κ} → Ending A → (A → Ending B) → Ending B
returned a >>= f = f a
waiting >>= f = waiting
fault >>= f = fault
fatal >>= f = fatal

-- The variables of probe_request: the request that `r` points to, `*flag`, the status that `s` points
-- to, and what the calls read and write.
pub record Probing : Type 0 where
  pub request : Request
  pub flag : Bool
  pub status : Option Status
  pub mail : Mail
  pub calls : List ProbeCalls
  pub tests : List MpiTest

abbrev pub is_ok : Result (Unit {0}) → Bool
is_ok (ok u) = true
is_ok (err e) = false

-- A process of the cluster with this rank, the communicators that the pointers `c` of the requests
-- point to, by their handles, what PMPI_Unpack returns on a message, and MPI_ANY_TAG.
pub record Process : Type 0 where
  pub cluster_rank : ℕ
  pub communicator : ℤ → Communicator
  pub unpack : DataMessage → Result (Unit {0})
  pub mpi_any_tag : ℤ

unfoldable pub mpi2tag : ℤ → ℤ → ℤ
mpi2tag mpi_any_tag tag = if tag ==ℤ mpi_any_tag then any_tag else tag

-- The end of translate_status: the count, which is 0 for a message that is cancelled.
abbrev pub set_translated :
    Process → ℕ → ℕ → MpiStatus → Status → Bool → Result ℤ → Result (Unit {0}) × Option Status
set_translated process t source m s cancelled (err e) = (err e, some s)
set_translated process t source m s cancelled (ok count) = (
  ok tt,
  set_status (some s) (pos source) (mpi2tag process.mpi_any_tag m.tag) m.error t count cancelled,
)

abbrev pub translate_from :
    Process → ℕ → ℕ → MpiStatus → Status → Result Bool → Result (Unit {0}) × Option Status
translate_from process t source m s (err e) = (err e, some s)
translate_from process t source m s (ok true) =
    set_translated process t source m s true (ok (pos 0))
translate_from process t source m s (ok false) =
    set_translated process t source m s false m.get_count

-- A rank of MPI that get_global_rank does not find ends the program.
unfoldable pub translate_status :
    Process
    → Communicator
    → ℕ
    → Option Status
    → MpiStatus
    → Ending (Result (Unit {0}) × Option Status)
translate_status process c t none m = returned (ok tt, none)
translate_status process c t (some s) m = ranked (get_global_rank c process.cluster_rank m.source)
  where
    ranked : Option ℕ → Ending (Result (Unit {0}) × Option Status)
    ranked none = fatal
    ranked (some source) = returned (translate_from process t source m s m.test_cancelled)

-- unpack_message sets the status where PMPI_Unpack succeeds.
abbrev pub unpacked_status :
    Request → Option DataMessage → Result (Unit {0}) → Option Status → Option Status
unpacked_status r none error s = s
unpacked_status r (some m) (err e) s = s
unpacked_status r (some m) (ok u) s = set_status s m.source m.tag (ok tt) r.type r.count false

module _ (process : Process) where
  abbrev pub unpack_message : Option DataMessage → Result (Unit {0})
  unpack_message none = ok tt
  unpack_message (some m) = process.unpack m

  -- messaging_finalize_receive with the status, which it sets where it unpacks the message.
  unfoldable pub finalize_receive :
      Request → Option Status → Result (Unit {0}) × Request × Option Status
  finalize_receive r s =
      let done = messaging_finalize_receive unpack_message r in
      (
        done.0,
        done.1,
        (if r.flags.completed && not r.flags.unpacked
            then unpacked_status r r.message (unpack_message r.message) s
            else s),
      )

  -- On a request that is completed: unpack the message, or report the error.
  abbrev pub settle_with : Request → Option Status → Result (Unit {0}) → Request × Option Status
  settle_with r s (ok u) =
      let done = finalize_receive r s in (record done.1 { error = done.0 }, done.2)
  settle_with r s (err e) = (r, set_status_error s r.source_or_dest r.tag r.error r.type)

  unfoldable pub settle : Request → Option Status → Request × Option Status
  settle r s = settle_with r s r.error

  -- The status of a local receive; the error that translate_status returns is not kept.
  abbrev pub translated : Probing → MpiStatus → Ending Probing
  translated p m = do
    done ← translate_status process (process.communicator p.request.comm) p.request.type p.status m
    returned (record p { status = done.1 })

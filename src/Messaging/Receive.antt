-- ===== src/Messaging/Receive.antt =====
-- messaging_receive hands out the first matching message of the stream and keeps all others.
use e_salsa_mpi.Prelude.{
  ℕ, Bool, true, false, Option, none, some, List, [], ◌∷◌, ◌≡◌, ◌≢◌, ◌⊎◌, refl, ℤ, pos, ◌==◌, not,
  if◌then◌else◌, inl, inr,
}
use e_salsa_mpi.Codes.{Code, Result, ok, err, mpi, err_intern}
use e_salsa_mpi.Queue.Spec.{take_first}
use e_salsa_mpi.Messaging.Defs.{
  DataMessage, ProbeCalls, Mail, comm_index, match_message, probe_mpi_data_message, Outcome, got,
  failed, waiting, fault,
}
use e_salsa_mpi.Messaging.Stream.{stream, IsOpen}

-- Memory for the queue's node is there, and the message is for an index of the table `comms`.
abbrev pub Delivers : ProbeCalls → Type 0
Delivers call = (call.node ≡ true) × ((j : ℕ) × (comm_index call.received.comm ≡ some j))

abbrev pub AllDeliver : List ProbeCalls → Type 0
AllDeliver [] = Unit {0}
AllDeliver (call ∷ calls) = Delivers call × AllDeliver calls

-- One of the runs of probe_mpi_data_message returns this error.
abbrev pub Fails : Code → List ProbeCalls → Type 0
Fails e [] = ⊥
Fails e (call ∷ calls) = (probe_mpi_data_message call true ≡ err e) ⊎ Fails e calls

-- The streams of all communicators but `k` are the same.
abbrev pub OthersKept : ℕ → Mail → List ProbeCalls → Mail → List ProbeCalls → Type 0
OthersKept k mail calls mail' calls' =
    (j : ℕ) → j ≢ k → IsOpen mail j → stream j mail' calls' ≡ stream j mail calls

-- The result of a receive by `test` on communicator `k`.
abbrev pub Receives : (DataMessage → Bool) → ℕ → Mail → List ProbeCalls → Outcome → Type 0
Receives test k mail calls (got m mail' calls') =
    (take_first test (stream k mail calls) ≡ some (m, stream k mail' calls'))
    × OthersKept k mail calls mail' calls'
Receives test k mail calls (failed e mail') = Fails e calls
Receives test k mail calls (waiting mail') =
    (take_first test (stream k mail calls) ≡ none) × OthersKept k mail calls mail' []
Receives test k mail calls fault = ⊥

abbrev pub Probed : DataMessage → Result (Option DataMessage) → Type 0
Probed m r = ((e : Code) × (r ≡ err e)) ⊎ (r ≡ ok (some m))

Probed-if :
    (m : DataMessage) (b : Bool) (e : Code) (r : Result (Option DataMessage))
    → Probed m r
    → Probed m (if b then err e else r)
Probed-if m true e r h = inl (e, refl)
Probed-if m false e r h = h

-- A blocking probe always has a message when it succeeds, the one that PMPI_Recv got.
pub probe-Probed : (call : ProbeCalls) → Probed call.received (probe_mpi_data_message call true)
unfolding probe_mpi_data_message
probe-Probed call = Probed-if m (not (call.probe_error == 0)) (mpi call.probe_error) _ (
    Probed-if m (not (call.count_error == 0)) (mpi call.count_error) _ (
      Probed-if m (not call.buffer) err_intern _
        (Probed-if m (not (call.recv_error == 0)) (mpi call.recv_error) (ok (some m)) (inr refl))))
  where
    m : DataMessage
    m = call.received

module _ (k : ℕ) (source tag : ℤ) where
  abbrev matches : DataMessage → Bool
  matches m = match_message m (pos k) source tag

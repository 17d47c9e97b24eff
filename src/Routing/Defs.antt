-- ===== src/Routing/Defs.antt =====
-- The state of a gateway process and its access to MPI: src/backend/gateway.c.
--
-- What MPI and malloc do is part of the state: for each kind of message the list of what the
-- successive calls of its receive function meet, and the list of what the calls of PMPI_Isend do.
-- The queues are lists, which is what Queue shows of the C code. A function gives a value or an
-- error code and the new state, or it ends in an access outside of an array.
use e_salsa_mpi.Prelude.{
  ℕ, zero, suc, ◌+◌, ◌%◌, ◌^◌, ◌==◌, if◌then◌else◌, Bool, true, false, not, Option, none, some,
  List, [], ◌∷◌, ◌++◌, get_elem?,
}
use e_salsa_mpi.Codes.{Code, err_intern, mpi}
use e_salsa_mpi.Pid.Defs.{get_cluster_rank, get_process_rank}
use e_salsa_mpi.Messaging.Defs.{MessageHeader}
use e_salsa_mpi.Gateway.Write.{Pending}
use e_salsa_mpi.Wire.Words.{ntohl}
use e_salsa_mpi.Wire.Requests.{opcode_finalize_reply}

-- The fields of the header are as they lie in memory: those of a server message are in network
-- order.
pub record GenericMessage : Type 0 where
  pub header : MessageHeader
  pub payload : List ℕ

-- One run of receive_mpi_server_request, _server_reply or _data_message; 0 is MPI_SUCCESS.
pub record Arrival : Type 0 where
  pub probe_error : ℕ
  pub flag : Bool
  pub count_error : ℕ
  pub count : ℕ
  -- does malloc give the buffer?
  pub buffer : Bool
  pub recv_error : ℕ
  pub received : GenericMessage
  -- does malloc give the queue's node?
  pub node : Bool

-- One call of forward_mpi_message: does malloc give the mpi_message, and what PMPI_Isend returns.
pub record SendCalls : Type 0 where
  pub node : Bool
  pub error : ℕ
  pub request : ℕ

-- A message that PMPI_Isend was called on successfully, with its arguments.
pub record Isent : Type 0 where
  pub message : GenericMessage
  pub len : ℕ
  pub rank : ℕ
  pub tag : ℕ

-- mpi_message
pub record MpiMessage : Type 0 where
  pub request : ℕ
  pub message : GenericMessage

pub record State : Type 0 where
  pub gateway_rank : ℕ
  pub cluster_rank : ℕ
  pub my_pid : ℕ
  pub server_queue_out : List GenericMessage
  pub server_queue_in : List GenericMessage
  pub incoming_queue : List GenericMessage
  -- the out_queue of each entry of gateway_connections
  pub out_queues : List (List GenericMessage)
  -- the first is the newest
  pub mpi_messages : List MpiMessage
  pub pending : Pending
  pub done : Bool
  -- MPI
  pub requests : List Arrival
  pub replies : List Arrival
  pub data_arrivals : List Arrival
  pub sends : List SendCalls
  -- the first is the oldest
  pub sent : List Isent

pub data Outcome (A : Type 0) : Type 0 where
  returned : A → State → Outcome A
  failed : Code → State → Outcome A
  fault : Outcome A
  out_of_fuel : Outcome A

abbrev pub Gateway : Type 0 → Type 0
Gateway A = State → Outcome A

abbrev pub and_then : {A B : Type 0} → Outcome A → (A → Gateway B) → Outcome B
and_then (returned a s) f = f a s
and_then (failed e s) f = failed e s
and_then fault f = fault
and_then out_of_fuel f = out_of_fuel

infixl 5 ◌>>=◌
abbrev pub ◌>>=◌ : {A B : Type 0} → Gateway A → (A → Gateway B) → Gateway B
(f >>= g) s = and_then (f s) g

-- TAG_FORWARDED_DATA_MSG, TAG_SERVER_REPLY
abbrev pub tag_forwarded_data_msg : ℕ
tag_forwarded_data_msg = 42

abbrev pub tag_server_reply : ℕ
tag_server_reply = 45

-- MAX_PENDING_DATA_MSG, MAX_PENDING_DATA_SIZE, MAX_MPI_RECEIVE_SEQUENCE
abbrev pub max_pending_data_msg : ℕ
max_pending_data_msg = 128

abbrev pub max_pending_data_size : ℕ
max_pending_data_size = 2 ^ 30

abbrev pub max_mpi_receive_sequence : ℕ
max_mpi_receive_sequence = 16

abbrev pub set_elem {ℓ} : {A : Type ℓ} → List A → ℕ → A → List A
set_elem [] i a = []
set_elem (x ∷ xs) zero a = a ∷ xs
set_elem (x ∷ xs) (suc i) a = x ∷ set_elem xs i a

-- message_enqueue on the out_queue of a connection.
abbrev pub enqueue_out :
    Bool → GenericMessage → ℕ → Option (List GenericMessage) → Gateway (Unit {0})
enqueue_out node m target none s = fault
enqueue_out node m target (some q) s =
    if node
    then returned tt (record s { out_queues = set_elem s.out_queues target (q ++ m ∷ []) })
    else failed err_intern s

-- The counts are uint64_t.
abbrev pub count_pending : ℕ → Pending → Pending
count_pending size p = record {
  messages = (p.messages + 1) % 2 ^ 64;
  size = (p.size + size) % 2 ^ 64;
}

unfoldable pub enqueue_data_message : Bool → GenericMessage → ℕ → Gateway (Unit {0})
enqueue_data_message node m size s =
    let target = get_cluster_rank m.header.dst_pid in
    enqueue_out node m target (get_elem? s.out_queues target)
      (record s { pending = count_pending size s.pending })

unfoldable pub enqueue_server_request : Bool → GenericMessage → Gateway (Unit {0})
enqueue_server_request node m s =
    if not (s.gateway_rank == 0)
    then failed err_intern s
    else if node
    then returned tt (record s { server_queue_out = s.server_queue_out ++ m ∷ [] })
    else failed err_intern s

unfoldable pub process_gateway_message : GenericMessage → Gateway (Unit {0})
process_gateway_message m s =
    if not (ntohl m.header.opcode == opcode_finalize_reply)
    then failed err_intern s
    else returned tt (record s { done = true })

-- What the three receive functions have in common: `accept` is called on a message that arrives; the
-- value is `*received`. Without a further run in the list there is no message.
abbrev pub receive_arrival : (Arrival → Gateway (Unit {0})) → Arrival → Gateway Bool
receive_arrival accept a s =
    if not (a.probe_error == 0)
    then failed (mpi a.probe_error) s
    else if not a.flag
    then returned false s
    else if not (a.count_error == 0)
    then failed (mpi a.count_error) s
    else if not a.buffer
    then failed err_intern s
    else if not (a.recv_error == 0)
    then failed (mpi a.recv_error) s
    else and_then (accept a s) (λ _ s'. returned true s')

abbrev pub accept_request : Arrival → Gateway (Unit {0})
accept_request a = enqueue_server_request a.node a.received

abbrev pub accept_reply : Arrival → Gateway (Unit {0})
accept_reply a = process_gateway_message a.received

abbrev pub accept_data : Arrival → Gateway (Unit {0})
accept_data a = enqueue_data_message a.node a.received a.count

abbrev pub request_from : List Arrival → Gateway Bool
request_from [] s = returned false s
request_from (a ∷ rest) s = receive_arrival accept_request a (record s { requests = rest })

unfoldable pub receive_mpi_server_request : Gateway Bool
receive_mpi_server_request s = request_from s.requests s

abbrev pub reply_from : List Arrival → Gateway Bool
reply_from [] s = returned false s
reply_from (a ∷ rest) s = receive_arrival accept_reply a (record s { replies = rest })

unfoldable pub receive_mpi_server_reply : Gateway Bool
receive_mpi_server_reply s = reply_from s.replies s

abbrev pub data_from : List Arrival → Gateway Bool
data_from [] s = returned false s
data_from (a ∷ rest) s = receive_arrival accept_data a (record s { data_arrivals = rest })

unfoldable pub receive_mpi_data_message : Gateway Bool
receive_mpi_data_message s = data_from s.data_arrivals s

-- malloc gives nothing when the list of calls is at its end.
abbrev pub isend : GenericMessage → ℕ → ℕ → ℕ → List SendCalls → Gateway (Unit {0})
isend m rank len tag [] s = failed err_intern s
isend m rank len tag (call ∷ calls) s =
    if not call.node
    then failed err_intern (record s { sends = calls })
    else if not (call.error == 0)
    then failed (mpi call.error) (record s { sends = calls })
    else returned tt (record s {
      sends = calls;
      sent = s.sent ++ record { message = m; len = len; rank = rank; tag = tag } ∷ [];
      mpi_messages = record { request = call.request; message = m } ∷ s.mpi_messages;
    })

unfoldable pub forward_mpi_message : GenericMessage → ℕ → ℕ → ℕ → Gateway (Unit {0})
forward_mpi_message m pid len tag s =
    if not (get_cluster_rank pid == s.cluster_rank)
    then failed err_intern s
    else isend m (get_process_rank pid) len tag s.sends s

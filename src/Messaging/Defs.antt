-- ===== src/Messaging/Defs.antt =====
-- Receiving wide area messages: match_message, probe_mpi_data_message and messaging_receive of
-- src/backend/messaging.c, store_message and find_pending_message of src/backend/communicator.c.
--
-- What MPI and malloc do is a parameter: a `ProbeCalls` holds the results of the calls that one run
-- of probe_mpi_data_message makes, a list of them those of its successive runs. The queue of each
-- communicator is the list that the module Queue proves message_queue.c to implement.
use e_salsa_mpi.Prelude.{
  ℕ, ◌==◌, ltb, if◌then◌else◌, Bool, true, not, ◌&&◌, ◌||◌, Option, none, some, List, [], ◌∷◌, ◌++◌,
  ℤ, pos, negsuc, ◌==ℤ◌,
}
use e_salsa_mpi.Codes.{
  Code, mpi, err_intern, Result, ok, err, any_source, any_tag, max_communicators,
}
use e_salsa_mpi.Queue.Spec.{take_first}

pub record MessageHeader : Type 0 where
  pub opcode : ℕ
  pub src_pid : ℕ
  pub dst_pid : ℕ
  pub length : ℕ

-- `data_message`
pub record DataMessage : Type 0 where
  pub header : MessageHeader
  pub comm : ℤ
  pub source : ℤ
  pub dest : ℤ
  pub tag : ℤ
  pub count : ℤ
  pub payload : List ℕ

unfoldable pub match_message : DataMessage → ℤ → ℤ → ℤ → Bool
match_message m comm source tag =
    (comm ==ℤ m.comm)
    && ((source ==ℤ any_source) || (source ==ℤ m.source))
    && ((tag ==ℤ any_tag) || (tag ==ℤ m.tag))

-- Errors are MPI error codes, 0 is MPI_SUCCESS.
pub record ProbeCalls : Type 0 where
  -- PMPI_Probe or PMPI_Iprobe, and the latter's flag
  pub probe_error : ℕ
  pub flag : Bool
  -- PMPI_Get_count
  pub count_error : ℕ
  -- does malloc give the buffer?
  pub buffer : Bool
  -- PMPI_Recv, and what it puts in the buffer
  pub recv_error : ℕ
  pub received : DataMessage
  -- does malloc give the queue's node, if the message is stored?
  pub node : Bool

-- The result is what `*message` is set to, `none` where it is left alone.
unfoldable pub probe_mpi_data_message : ProbeCalls → Bool → Result (Option DataMessage)
probe_mpi_data_message call blocking =
    if not (call.probe_error == 0)
    then err (mpi call.probe_error)
    else if not (blocking || call.flag)
    then ok none
    else if not (call.count_error == 0)
    then err (mpi call.count_error)
    else if not call.buffer
    then err err_intern
    else if not (call.recv_error == 0)
    then err (mpi call.recv_error)
    else ok (some call.received)

-- The pending messages of each communicator in the table `comms`, `none` where an entry is NULL.
abbrev pub Mail : Type 0
Mail = ℕ → Option (List DataMessage)

unfoldable pub put_mail : Mail → ℕ → List DataMessage → Mail
put_mail mail k q j = if j == k then some q else mail j

-- The index `comms[handle]` when it is within the table.
abbrev pub comm_index : ℤ → Option ℕ
comm_index (pos k) = if ltb k max_communicators then some k else none
comm_index (negsuc k) = none

-- store_message: `none` is an access outside of the table. A message for a communicator that does
-- not exist is dropped, and so is one for which malloc has no node.
unfoldable pub store_message : Bool → DataMessage → Mail → Option Mail
store_message node m mail = elim (comm_index m.comm) [
  | none ↦ none
  | some k ↦ elim (mail k) [
    | none ↦ some mail
    | some q ↦ some (if node then put_mail mail k (q ++ m ∷ []) else mail)
  ]
]

-- find_pending_message on the communicator with handle `k`, whose pending messages are `q`.
unfoldable pub find_pending_message :
    ℕ → List DataMessage → ℤ → ℤ → Option (DataMessage × List DataMessage)
find_pending_message k q source tag = take_first (λ m. match_message m (pos k) source tag) q

-- How messaging_receive ends, before the message is unpacked.
pub data Outcome : Type 0 where
  got : DataMessage → Mail → List ProbeCalls → Outcome
  failed : Code → Mail → Outcome
  waiting : Mail → Outcome
  fault : Outcome

-- What follows store_message in the loop: its next round, `next`.
abbrev pub and_next : (Mail → Outcome) → Option Mail → Outcome
and_next next none = fault
and_next next (some mail) = next mail

-- One round of the loop, on the result of probe_mpi_data_message.
unfoldable pub receive_round :
    ℕ
    → ℤ
    → ℤ
    → Bool
    → Mail
    → List ProbeCalls
    → (Mail → Outcome)
    → Result (Option DataMessage)
    → Outcome
receive_round k source tag node mail calls next (err e) = failed e mail
receive_round k source tag node mail calls next (ok none) = fault
receive_round k source tag node mail calls next (ok (some m)) =
    if match_message m (pos k) source tag
    then got m mail calls
    else and_next next (store_message node m mail)

-- The `while` loop; it waits in PMPI_Probe when the list of calls is at its end.
unfoldable pub receive_loop : ℕ → ℤ → ℤ → Mail → List ProbeCalls → Outcome
receive_loop k source tag mail [] = waiting mail
receive_loop k source tag mail (call ∷ calls) =
    receive_round k source tag call.node mail calls (λ mail'. receive_loop k source tag mail' calls)
      (probe_mpi_data_message call true)

-- What follows find_pending_message: the loop, if no pending message matches.
unfoldable pub receive_found :
    ℕ → ℤ → ℤ → Mail → List ProbeCalls → Option (DataMessage × List DataMessage) → Outcome
receive_found k source tag mail calls none = receive_loop k source tag mail calls
receive_found k source tag mail calls (some (m, q)) = got m (put_mail mail k q) calls

-- A receive reads the queue of an existing communicator.
unfoldable pub receive_from :
    ℕ → ℤ → ℤ → Mail → List ProbeCalls → Option (List DataMessage) → Outcome
receive_from k source tag mail calls none = fault
receive_from k source tag mail calls (some q) =
    receive_found k source tag mail calls (find_pending_message k q source tag)

-- messaging_receive on the communicator with handle `k`, up to unpack_message.
unfoldable pub messaging_receive : ℕ → ℤ → ℤ → Mail → List ProbeCalls → Outcome
unfolding receive_from receive_found
messaging_receive k source tag mail calls = receive_from k source tag mail calls (mail k)

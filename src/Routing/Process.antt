-- ===== src/Routing/Process.antt =====
-- process_mpi_messages of src/backend/gateway.c and the functions that it calls.
use e_salsa_mpi.Prelude.{
  ℕ, zero, suc, ◌==◌, ltb, if◌then◌else◌, Bool, true, not, ◌&&◌, ◌||◌, List, [], ◌∷◌,
}
use e_salsa_mpi.Codes.{mpi, Result, ok, err}
use e_salsa_mpi.Wire.Words.{ntohl}
use e_salsa_mpi.Routing.Defs.{
  GenericMessage, MpiMessage, State, Outcome, returned, failed, out_of_fuel, Gateway, and_then,
  ◌>>=◌, tag_forwarded_data_msg, tag_server_reply, max_pending_data_msg, max_pending_data_size,
  max_mpi_receive_sequence, process_gateway_message, receive_mpi_server_request,
  receive_mpi_server_reply, receive_mpi_data_message, forward_mpi_message,
}

-- The loop of forward_data_messages_to_mpi, on the messages in incoming_queue.
unfoldable pub forward_data_loop : List GenericMessage → Gateway (Unit {0})
forward_data_loop [] s = returned tt s
forward_data_loop (m ∷ ms) s =
    and_then
      (forward_mpi_message m m.header.dst_pid m.header.length tag_forwarded_data_msg
        (record s { incoming_queue = ms }))
      (λ _ s'. forward_data_loop ms s')

unfoldable pub forward_data_messages_to_mpi : Gateway (Unit {0})
forward_data_messages_to_mpi s = forward_data_loop s.incoming_queue s

-- One round of the loop of forward_server_messages_to_mpi.
unfoldable pub forward_server_message : GenericMessage → Gateway (Unit {0})
forward_server_message m s =
    let pid = ntohl m.header.dst_pid in
    if pid == s.my_pid
    then process_gateway_message m s
    else forward_mpi_message m pid (ntohl m.header.length) tag_server_reply s

-- The loop, on the messages in server_queue_in.
unfoldable pub forward_server_loop : List GenericMessage → Gateway (Unit {0})
forward_server_loop [] s = returned tt s
forward_server_loop (m ∷ ms) s =
    and_then (forward_server_message m (record s { server_queue_in = ms }))
      (λ _ s'. forward_server_loop ms s')

unfoldable pub forward_server_messages_to_mpi : Gateway (Unit {0})
forward_server_messages_to_mpi s = forward_server_loop s.server_queue_in s

-- What PMPI_Test gives for a request.
pub record TestCall : Type 0 where
  pub error : ℕ
  pub flag : Bool

abbrev pub keep :
    MpiMessage → Result (Unit {0}) × List MpiMessage → Result (Unit {0}) × List MpiMessage
keep curr (code, rest) = (code, curr ∷ rest)

-- The loop of poll_mpi_requests: the code, and the list without the messages that are taken out.
unfoldable pub poll_loop : (ℕ → TestCall) → List MpiMessage → Result (Unit {0}) × List MpiMessage
poll_loop test [] = (ok tt, [])
poll_loop test (curr ∷ rest) =
    let polled = poll_loop test rest in
    if not ((test curr.request).error == 0)
    then (err (mpi (test curr.request).error), curr ∷ rest)
    else if (test curr.request).flag
    then polled
    else keep curr polled

abbrev pub polled : State → Result (Unit {0}) × List MpiMessage → Outcome (Unit {0})
polled s (ok _, rest) = returned tt (record s { mpi_messages = rest })
polled s (err e, rest) = failed e (record s { mpi_messages = rest })

unfoldable pub poll_mpi_requests : (ℕ → TestCall) → Gateway (Unit {0})
poll_mpi_requests test s = polled s (poll_loop test s.mpi_messages)

-- The body of the first loop: was a request or a reply received?
unfoldable pub server_round : Gateway Bool
server_round = do
  request ← receive_mpi_server_request
  reply ← receive_mpi_server_reply
  _ ← forward_server_messages_to_mpi
  returned (request || reply)

-- The first loop of process_mpi_messages; the fuel bounds its rounds.
unfoldable pub server_loop : ℕ → Gateway (Unit {0})
server_loop zero s = out_of_fuel
server_loop (suc fuel) s =
    and_then (server_round s)
      (λ received s'. if received && not s'.done then server_loop fuel s' else returned tt s')

-- The last loop, with `rounds` below MAX_MPI_RECEIVE_SEQUENCE; `received` is receivedData.
unfoldable pub data_loop : ℕ → Bool → Gateway (Unit {0})
data_loop zero received s = returned tt s
data_loop (suc rounds) received s =
    let next =
      and_then (receive_mpi_data_message s) (λ received' s'. data_loop rounds received' s') in
    if ltb s.pending.messages max_pending_data_msg
      && ltb s.pending.size max_pending_data_size
      && received
    then next
    else returned tt s

abbrev pub receive_data : Gateway (Unit {0})
receive_data s = if s.done then returned tt s else data_loop max_mpi_receive_sequence true s

-- `test` is what PMPI_Test gives in this call.
unfoldable pub process_mpi_messages : ℕ → (ℕ → TestCall) → Gateway (Unit {0})
process_mpi_messages fuel test = do
  _ ← server_loop fuel
  _ ← forward_data_messages_to_mpi
  _ ← poll_mpi_requests test
  receive_data

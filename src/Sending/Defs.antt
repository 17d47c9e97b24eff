-- ===== src/Sending/Defs.antt =====
-- create_data_message, do_send, messaging_send and messaging_bcast of src/backend/messaging.c.
--
-- What MPI and malloc give in one run of do_send is a record. The result is the message that
-- PMPI_Send hands to the gateway, if it is called, and the return code; a read outside of an array of
-- the communicator is `none`.
use e_salsa_mpi.Prelude.{
  ℕ, zero, suc, ◌+◌, ◌%◌, ◌^◌, ◌==◌, if◌then◌else◌, Bool, not, Option, none, some, List, [], ◌∷◌,
  ◌++◌, get_elem?, ℤ, pos,
}
use e_salsa_mpi.Codes.{err_intern, mpi, Result, ok, err}
use e_salsa_mpi.Communicator.Defs.{Communicator}
use e_salsa_mpi.Communicator.Locality.{get_pid}
use e_salsa_mpi.Messaging.Defs.{DataMessage}

-- OPCODE_DATA, OPCODE_COLLECTIVE_BCAST
abbrev pub opcode_data : ℕ
opcode_data = 50

abbrev pub opcode_collective_bcast : ℕ
opcode_collective_bcast = 60

-- DATA_MESSAGE_SIZE
abbrev pub data_message_size : ℕ
data_message_size = 36

-- BCAST_TAG, MAX_TAG - 1
abbrev pub bcast_tag : ℤ
bcast_tag = pos 32767

-- 0 is MPI_SUCCESS.
pub record PackCalls : Type 0 where
  -- PMPI_Pack_size
  pub size_error : ℕ
  pub bytes : ℕ
  -- does malloc give the message?
  pub memory : Bool
  -- PMPI_Pack, and what it puts in the payload
  pub pack_error : ℕ
  pub packed : List ℕ
  -- PMPI_Send
  pub send_error : ℕ

-- The payload is not set here.
unfoldable pub create_data_message : ℕ → ℕ → ℕ → ℤ → ℤ → ℤ → ℤ → ℤ → ℕ → DataMessage
create_data_message my_pid opcode dst_pid comm source dest tag count data_size = record {
  header = record {
    opcode = opcode;
    src_pid = my_pid;
    dst_pid = dst_pid;
    length = (data_message_size + data_size) % 2 ^ 32;
  };
  comm = comm;
  source = source;
  dest = dest;
  tag = tag;
  count = count;
  payload = [];
}

abbrev pub Sent : Type 0
Sent = Option (Option DataMessage × Result (Unit {0}))

-- PMPI_Pack and PMPI_Send on the new message.
abbrev pub pack_and_send : PackCalls → DataMessage → Option DataMessage × Result (Unit {0})
pack_and_send call m = if not (call.pack_error == 0) then (none, err (mpi call.pack_error)) else (
  some (record m { payload = call.packed }),
  if call.send_error == 0 then ok tt else err (mpi call.send_error),
)

abbrev pub send_to : ℕ → PackCalls → ℕ → ℤ → ℕ → ℤ → Communicator → Option ℕ → Sent
send_to my_pid call opcode count dest tag c none = none
send_to my_pid call opcode count dest tag c (some pid) =
    if call.memory
    then some (
        pack_and_send call (
          create_data_message my_pid opcode pid c.handle (pos c.global_rank) (pos dest) tag count
            call.bytes))
    else some (none, err err_intern)

unfoldable pub do_send : ℕ → PackCalls → ℕ → ℤ → ℕ → ℤ → Communicator → Sent
do_send my_pid call opcode count dest tag c =
    if not (call.size_error == 0)
    then some (none, err (mpi call.size_error))
    else send_to my_pid call opcode count dest tag c (get_pid c dest)

unfoldable pub messaging_send : ℕ → PackCalls → ℤ → ℕ → ℤ → Communicator → Sent
messaging_send my_pid call count dest tag c = do_send my_pid call opcode_data count dest tag c

-- The messages that a broadcast hands to the gateway, and its code.
abbrev pub Broadcast : Type 0
Broadcast = Option (List DataMessage × Result (Unit {0}))

abbrev pub handed : Option DataMessage → List DataMessage
handed none = []
handed (some m) = m ∷ []

-- What follows a send in the loop: its next round.
abbrev pub and_next : (List DataMessage → Broadcast) → List DataMessage → Sent → Broadcast
and_next next sent none = none
and_next next sent (some (m, ok _)) = next (sent ++ handed m)
and_next next sent (some (m, err e)) = some (sent ++ handed m, err e)

-- The send to the coordinator of a cluster.
abbrev pub send_coordinator :
    ℕ
    → PackCalls
    → ℤ
    → Communicator
    → (List DataMessage → Broadcast)
    → List DataMessage
    → Option ℕ
    → Broadcast
send_coordinator my_pid call count c next sent none = none
send_coordinator my_pid call count c next sent (some dest) =
    and_next next sent (do_send my_pid call opcode_collective_bcast count dest bcast_tag c)

-- The loop over the clusters of the run, from `i` on for `n` rounds; `calls i` are the calls for
-- cluster `i`, `sent` the messages sent before.
unfoldable pub bcast_loop :
    ℕ → ℕ → (ℕ → PackCalls) → ℤ → Communicator → ℕ → ℕ → List DataMessage → Broadcast
bcast_loop my_pid cluster_rank calls count c zero i sent = some (sent, ok tt)
bcast_loop my_pid cluster_rank calls count c (suc n) i sent =
    let next = bcast_loop my_pid cluster_rank calls count c n (suc i) in
    if i == cluster_rank
    then next sent
    else send_coordinator my_pid (calls i) count c next sent (get_elem? c.coordinators i)

unfoldable pub messaging_bcast : ℕ → ℕ → ℕ → (ℕ → PackCalls) → ℤ → Communicator → Broadcast
messaging_bcast my_pid cluster_rank cluster_count calls count c =
    bcast_loop my_pid cluster_rank calls count c cluster_count 0 []

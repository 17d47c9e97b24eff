-- ===== src/Wire/Requests.antt =====
-- The requests to the server: the functions of src/backend/messaging.c that send them, and
-- receiveMessage of src/server/src/esalsa/Cluster.java with the classes that read them.
use e_salsa_mpi.Prelude.{
  ℕ, zero, suc, ◌+◌, ◌*◌, ◌/◌, ◌==◌, if◌then◌else◌, Bool, Option, none, some, List, [], ◌∷◌, map,
  take, ℤ, pos, negsuc,
}
use e_salsa_mpi.Codes.{err_intern, mpi, Result, ok, err}
use e_salsa_mpi.Communicator.Defs.{Communicator}
use e_salsa_mpi.Groups.Defs.{Group}
use e_salsa_mpi.Wire.Words.{ntohl, htonl, word_of, int_of}

-- src/backend/opcodes.h
abbrev pub opcode_split : ℕ
opcode_split = 51

abbrev pub opcode_split_reply : ℕ
opcode_split_reply = 52

abbrev pub opcode_group : ℕ
opcode_group = 53

abbrev pub opcode_group_reply : ℕ
opcode_group_reply = 54

abbrev pub opcode_dup : ℕ
opcode_dup = 55

abbrev pub opcode_dup_reply : ℕ
opcode_dup_reply = 56

abbrev pub opcode_free : ℕ
opcode_free = 57

abbrev pub opcode_finalize : ℕ
opcode_finalize = 58

abbrev pub opcode_finalize_reply : ℕ
opcode_finalize_reply = 59

abbrev pub opcode_close_link : ℕ
opcode_close_link = 127

-- The sizes in bytes: MESSAGE_HEADER_SIZE and those of the requests.
abbrev pub message_header_size : ℕ
message_header_size = 16

abbrev pub split_request_msg_size : ℕ
split_request_msg_size = message_header_size + 16

abbrev pub group_request_msg_size : ℕ
group_request_msg_size = message_header_size + 12

abbrev pub dup_request_msg_size : ℕ
dup_request_msg_size = message_header_size + 8

abbrev pub free_request_msg_size : ℕ
free_request_msg_size = message_header_size + 8

abbrev pub finalize_request_msg_size : ℕ
finalize_request_msg_size = message_header_size + 8

-- The pids of this process and of the master gateway.
pub record Pids : Type 0 where
  pub my_pid : ℕ
  pub server_pid : ℕ

-- The buffer that PMPI_Send is called on, `none` if it is not called, and the return code.
abbrev pub Sent : Type 0
Sent = Option (List ℕ) × Result (Unit {0})

-- Only the first `len` bytes are sent. The error is that of PMPI_Send, 0 is MPI_SUCCESS.
unfoldable pub send_server_request : ℕ → List ℕ → ℕ → Sent
send_server_request error buf len =
    (some (take (len / 4) buf), if error == 0 then ok tt else err (mpi error))

-- The first words of each request: its header, comm and src.
abbrev pub request_words : Pids → ℕ → ℕ → Communicator → List ℕ → List ℕ
request_words ids opcode len c rest =
    htonl opcode
    ∷ htonl ids.my_pid
    ∷ htonl ids.server_pid
    ∷ htonl len
    ∷ htonl (word_of c.handle)
    ∷ htonl (word_of (pos c.global_rank))
    ∷ rest

unfoldable pub messaging_comm_split_send : ℕ → Pids → Communicator → ℤ → ℤ → Sent
messaging_comm_split_send error ids c color key =
    send_server_request error
      (request_words ids opcode_split split_request_msg_size c
        (htonl (word_of color) ∷ htonl (word_of key) ∷ []))
      split_request_msg_size

-- `memory` is whether malloc gives the buffer.
unfoldable pub messaging_comm_create_send : Bool → ℕ → Pids → Communicator → Group → Sent
messaging_comm_create_send memory error ids c g =
    let msgsize = group_request_msg_size + g.size * 4 in
    if memory
    then send_server_request error
        (request_words ids opcode_group msgsize c
          (htonl (word_of (pos g.size)) ∷ map htonl (take g.size g.members)))
        msgsize
    else (none, err err_intern)

-- The size is that of a free request.
unfoldable pub messaging_comm_dup_send : ℕ → Pids → Communicator → Sent
messaging_comm_dup_send error ids c =
    send_server_request error (request_words ids opcode_dup dup_request_msg_size c [])
      free_request_msg_size

unfoldable pub messaging_comm_free_send : ℕ → Pids → Communicator → Sent
messaging_comm_free_send error ids c =
    send_server_request error (request_words ids opcode_free free_request_msg_size c [])
      free_request_msg_size

-- The first half of messaging_finalize.
unfoldable pub finalize_send : ℕ → Pids → Communicator → Sent
finalize_send error ids c =
    send_server_request error (request_words ids opcode_finalize finalize_request_msg_size c [])
      finalize_request_msg_size

-- CommunicatorRequest
pub record CommunicatorRequest : Type 0 where
  pub opcode : ℤ
  pub source : ℤ
  pub destination : ℤ
  pub length : ℤ
  pub communicator : ℤ
  pub rank : ℤ

-- The classes of the requests.
pub data Request : Type 0 where
  split_request : CommunicatorRequest → ℤ → ℤ → Request
  group_request : CommunicatorRequest → ℤ → List ℤ → Request
  dup_request free_request finalize_request : CommunicatorRequest → Request

-- A constructor reads from the stream; `none` is an exception.
abbrev pub Reader : Type 0 → Type 0
Reader A = List ℕ → Option (A × List ℕ)

infixl 5 ◌>>=◌
abbrev ◌>>=◌ : {A B : Type 0} → Option A → (A → Option B) → Option B
none >>= f = none
some a >>= f = f a

-- DataInputStream.readInt
unfoldable pub read_int : Reader ℤ
read_int [] = none
read_int (w ∷ ws) = some (int_of (ntohl w), ws)

-- The fields that all requests have; the opcode has been read.
unfoldable pub communicator_request : ℕ → Reader CommunicatorRequest
communicator_request opcode stream = do
  (source, stream) ← read_int stream
  (destination, stream) ← read_int stream
  (length, stream) ← read_int stream
  (communicator, stream) ← read_int stream
  (rank, stream) ← read_int stream
  some (
    record {
      opcode = pos opcode;
      source = source;
      destination = destination;
      length = length;
      communicator = communicator;
      rank = rank;
    },
    stream,
  )

unfoldable pub read_split : Reader Request
read_split stream = do
  (r, stream) ← communicator_request opcode_split stream
  (color, stream) ← read_int stream
  (key, stream) ← read_int stream
  some (split_request r color key, stream)

-- The loop that reads the array of pids.
unfoldable pub read_pids : ℕ → Reader (List ℤ)
read_pids zero stream = some ([], stream)
read_pids (suc n) stream = do
  (pid, stream) ← read_int stream
  (pids, stream) ← read_pids n stream
  some (pid ∷ pids, stream)

-- A negative size is an exception.
abbrev pub read_array : ℤ → Reader (List ℤ)
read_array (pos n) stream = read_pids n stream
read_array (negsuc n) stream = none

unfoldable pub read_group : Reader Request
read_group stream = do
  (r, stream) ← communicator_request opcode_group stream
  (size, stream) ← read_int stream
  (pids, stream) ← read_array size stream
  some (group_request r size pids, stream)

abbrev pub read_plain : ℕ → (CommunicatorRequest → Request) → Reader Request
read_plain opcode kind stream = do
  (r, stream) ← communicator_request opcode stream
  some (kind r, stream)

-- What receiveMessage reads: the request that it delivers, or the end of the link.
pub data Message : Type 0 where
  deliver : Request → Message
  close_link : Message

abbrev pub delivered : Option (Request × List ℕ) → Option (Message × List ℕ)
delivered none = none
delivered (some (r, stream)) = some (deliver r, stream)

-- The `switch` on the opcode.
unfoldable pub read_by_opcode : ℕ → Reader Message
read_by_opcode opcode stream =
    if opcode == opcode_split
    then delivered (read_split stream)
    else if opcode == opcode_group
    then delivered (read_group stream)
    else if opcode == opcode_dup
    then delivered (read_plain opcode_dup dup_request stream)
    else if opcode == opcode_free
    then delivered (read_plain opcode_free free_request stream)
    else if opcode == opcode_finalize
    then delivered (read_plain opcode_finalize finalize_request stream)
    else if opcode == opcode_close_link
    then some (close_link, stream)
    else none

-- An opcode is compared as the word that it is.
unfoldable pub receive_message : Reader Message
receive_message [] = none
receive_message (w ∷ stream) = read_by_opcode (ntohl w) stream

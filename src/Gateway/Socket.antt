-- ===== src/Gateway/Socket.antt =====
-- `socket_info` of src/backend/gateway.c and the environment of its socket. The queue that a socket
-- reads into is the list of the messages that this socket put there, as bytes.
use e_salsa_mpi.Prelude.{ℕ, ◌+◌, ◌*◌, Option, none, List, [], get_or}

-- TYPE_SERVER, TYPE_DATA
pub data SocketType : Type 0 where
  server peer : SocketType

-- The fields that concern reading.
pub record SocketInfo : Type 0 where
  pub type : SocketType
  pub inbuf : Option (List ℕ)
  pub inpos : ℕ
  pub incount : ℕ
  pub in_bytes : ℕ
  pub in_messages : ℕ
  pub in_queue : List (List ℕ)

-- `sizeof(generic_message)`, the size of a message header.
abbrev pub header_size : ℕ
header_size = 16

-- What the kernel does at a call of read: it has at most `k + 1` bytes at hand, or none
-- (EAGAIN), or the other side has closed the connection (0), or it reports another error.
pub data ReadEvent : Type 0 where
  ready : ℕ → ReadEvent
  again eof broken : ReadEvent

-- A 32-bit number in network order, as ntohl reads it, and in the order of a little-endian host.
abbrev pub be32 : ℕ → ℕ → ℕ → ℕ → ℕ
be32 a b c d = ((a * 256 + b) * 256 + c) * 256 + d

abbrev pub le32 : ℕ → ℕ → ℕ → ℕ → ℕ
le32 a b c d = be32 d c b a

-- The header's `length`, its fourth word: in network order from the server.
unfoldable pub length_field : SocketType → List ℕ → ℕ
length_field server m = be32 (get_or m 12 0) (get_or m 13 0) (get_or m 14 0) (get_or m 15 0)
length_field peer m = le32 (get_or m 12 0) (get_or m 13 0) (get_or m 14 0) (get_or m 15 0)

-- init_socket_info
unfoldable pub init_socket_info : SocketType → SocketInfo
init_socket_info type = record {
  type = type;
  inbuf = none;
  inpos = 0;
  incount = 0;
  in_bytes = 0;
  in_messages = 0;
  in_queue = [];
}

-- ===== src/Wire/Reading.antt =====
-- The server reads the requests of the processes as they were sent, one after the other.
use e_salsa_mpi.Prelude.{
  ℕ, zero, suc, ◌+◌, ◌*◌, ◌/◌, ◌%◌, ◌^◌, ◌≤◌, ◌<◌, true, some, List, [], ◌∷◌, ◌++◌, length,
  length-map, length-take, take, map, ℤ, pos, ◌≡◌, ◌∙◌, refl, ap, arith,
}
use e_salsa_mpi.Codes.{ok}
use e_salsa_mpi.Communicator.Defs.{Communicator}
use e_salsa_mpi.Groups.Defs.{Group}
use e_salsa_mpi.Wire.Words.{ntohl, htonl, word_of, int_of}
use e_salsa_mpi.Wire.Replies.{messaging_finalize, receive_server_message}
use e_salsa_mpi.Wire.Order.{IsInt, ntohl-htonl, word_of_below, int_of-word_of}
use e_salsa_mpi.Wire.Requests.{
  Pids, Sent, send_server_request, messaging_comm_split_send, messaging_comm_create_send,
  messaging_comm_dup_send, messaging_comm_free_send, finalize_send, CommunicatorRequest, Request,
  split_request, group_request, dup_request, free_request, finalize_request, read_int,
  communicator_request, read_split, read_pids, read_group, deliver, read_by_opcode, receive_message,
  request_words, opcode_group, group_request_msg_size,
}

-- A call of one of the functions that send a request.
pub data SendCall : Type 0 where
  split : Communicator → ℤ → ℤ → SendCall
  create : Communicator → Group → SendCall
  dup free finalize : Communicator → SendCall

-- The call, where malloc gives memory and the calls of MPI succeed.
abbrev pub send_request : Pids → SendCall → Sent
send_request ids (split c color key) = messaging_comm_split_send 0 ids c color key
send_request ids (create c g) = messaging_comm_create_send true 0 ids c g
send_request ids (dup c) = messaging_comm_dup_send 0 ids c
send_request ids (free c) = messaging_comm_free_send 0 ids c
send_request ids (finalize c) = messaging_finalize 0 ids c 0 [] 0

-- The fields that the server has of each request.
abbrev pub fields_of : Pids → Communicator → ℕ → ℕ → CommunicatorRequest
fields_of ids c opcode len = record {
  opcode = pos opcode;
  source = int_of ids.my_pid;
  destination = int_of ids.server_pid;
  length = pos len;
  communicator = c.handle;
  rank = pos c.global_rank;
}

abbrev pub request_of : Pids → SendCall → Request
request_of ids (split c color key) = split_request (fields_of ids c 51 32) color key
request_of ids (create c g) =
    group_request (fields_of ids c 53 (28 + g.size * 4)) (pos g.size)
      (map int_of (take g.size g.members))
request_of ids (dup c) = dup_request (fields_of ids c 55 24)
request_of ids (free c) = free_request (fields_of ids c 57 24)
request_of ids (finalize c) = finalize_request (fields_of ids c 58 24)

-- The numbers of a communicator are `int`s, and so are the arguments and the size of the message.
pub record IsSender (c : Communicator) : Type 0 where
  pub handle : IsInt c.handle
  pub rank : c.global_rank < 2 ^ 31

abbrev pub AllWords : List ℕ → Type 0
AllWords [] = Unit {0}
AllWords (w ∷ ws) = (w < 2 ^ 32) × AllWords ws

abbrev pub IsCall : SendCall → Type 0
IsCall (split c color key) = IsSender c × IsInt color × IsInt key
IsCall (create c g) =
    IsSender c × (28 + g.size * 4 < 2 ^ 31) × (g.size ≤ length g.members) × AllWords g.members
IsCall (dup c) = IsSender c
IsCall (free c) = IsSender c
IsCall (finalize c) = IsSender c

pub record IsPids (ids : Pids) : Type 0 where
  pub my_pid : ids.my_pid < 2 ^ 32
  pub server_pid : ids.server_pid < 2 ^ 32

int-read : (n : ℤ) → IsInt n → int_of (ntohl (htonl (word_of n))) ≡ n
int-read n h = ap int_of (ntohl-htonl (word_of n) (word_of_below n)) ∙ int_of-word_of n h

length-read : (n : ℕ) → n < 2 ^ 31 → int_of (ntohl (htonl n)) ≡ pos n
unfolding word_of
length-read n h =
    ap (λ w. int_of (ntohl (htonl w))) {x = n} {y = n % 2 ^ 32} (omega arith) ∙ int-read (pos n) h

pids-read :
    (n : ℕ) (ms rest : List ℕ)
    → n ≤ length ms
    → AllWords ms
    → read_pids n (map htonl (take n ms) ++ rest) ≡ some (map int_of (take n ms), rest)
unfolding read_pids read_int
pids-read zero ms rest h a = refl
pids-read (suc n) [] rest h a = absurd (omega arith)
pids-read (suc n) (m ∷ ms) rest h (w, a) = rw (pids-read n ms rest (omega arith) a, ntohl-htonl m w)

take_all : (ws : List ℕ) (n : ℕ) → n ≡ length ws → take n ws ≡ ws
take_all [] n e = ap (λ k. take k []) e
take_all (w ∷ ws) n e = ap (λ k. take k (w ∷ ws)) e ∙ ap (◌∷◌ w) (take_all ws (length ws) refl)

-- The fields behind the opcode.
communicator_request-read :
    (ids : Pids) (c : Communicator) (opcode len : ℕ) (rest : List ℕ)
    → IsPids ids
    → IsSender c
    → len < 2 ^ 31
    → communicator_request opcode (
        htonl ids.my_pid
        ∷ htonl ids.server_pid
        ∷ htonl len
        ∷ htonl (word_of c.handle)
        ∷ htonl (word_of (pos c.global_rank))
        ∷ rest)
      ≡ some (fields_of ids c opcode len, rest)
unfolding communicator_request read_int
communicator_request-read ids c opcode len rest p s h = rw (
  ntohl-htonl ids.my_pid p.my_pid,
  ntohl-htonl ids.server_pid p.server_pid,
  length-read len h,
  int-read c.handle s.handle,
  int-read (pos c.global_rank) s.rank,
)

-- The words that a function that sends a request gives to PMPI_Send are, where malloc and MPI succeed
-- and for numbers that an `int` holds, read by receiveMessage as one request with the same numbers
-- and arrays, and what follows them is left.
pub send_request-roundtrip :
    (ids : Pids) (call : SendCall) (rest : List ℕ)
    → IsPids ids
    → IsCall call
    → (words : List ℕ) × (send_request ids call ≡ (some words, ok tt))
      × (receive_message (words ++ rest) ≡ some (deliver (request_of ids call), rest))
unfolding messaging_comm_split_send messaging_comm_create_send messaging_comm_dup_send
    messaging_comm_free_send messaging_finalize receive_server_message finalize_send
    send_server_request receive_message read_by_opcode read_split read_group read_int
send_request-roundtrip ids (split c color key) rest p (s, co, ke) = (
  _,
  refl,
  rw (
    ntohl-htonl 51 (omega arith),
    communicator_request-read ids c 51 32 (htonl (word_of color) ∷ htonl (word_of key) ∷ rest) p s
        (omega arith),
    int-read color co,
    int-read key ke,
  ),
)
send_request-roundtrip ids (create c g) rest p (s, size, le, ws) =
    let members = map htonl (take g.size g.members) in
    let words =
      request_words ids opcode_group (group_request_msg_size + g.size * 4) c
        (htonl (word_of (pos g.size)) ∷ members) in
    let all : (group_request_msg_size + g.size * 4) / 4 ≡ length words =
      omega (arith, length-map htonl (take g.size g.members), length-take g.size g.members) in
    (
      words,
      ap (λ ws'. (some ws', ok tt))
          (take_all words ((group_request_msg_size + g.size * 4) / 4) all),
      rw (
        ntohl-htonl 53 (omega arith),
        communicator_request-read ids c 53 (28 + g.size * 4)
            (htonl (word_of (pos g.size)) ∷ (members ++ rest)) p s size,
        int-read (pos g.size) (omega arith),
        pids-read g.size g.members rest le ws,
      ),
    )
send_request-roundtrip ids (dup c) rest p s = (
  _,
  refl,
  rw (ntohl-htonl 55 (omega arith), communicator_request-read ids c 55 24 rest p s (omega arith)),
)
send_request-roundtrip ids (free c) rest p s = (
  _,
  refl,
  rw (ntohl-htonl 57 (omega arith), communicator_request-read ids c 57 24 rest p s (omega arith)),
)
send_request-roundtrip ids (finalize c) rest p s = (
  _,
  refl,
  rw (ntohl-htonl 58 (omega arith), communicator_request-read ids c 58 24 rest p s (omega arith)),
)

-- ===== src/Wire/Replies.antt =====
-- The replies of the server: the classes of src/server/src/esalsa that write them, and the functions
-- of src/backend/messaging.c that receive them.
use e_salsa_mpi.Prelude.{
  ℕ, zero, suc, ◌+◌, ◌*◌, ◌==◌, if◌then◌else◌, Bool, not, Option, none, some, List, [], ◌∷◌, ◌++◌,
  drop, ℤ, pos, negsuc, pos_part, ◌==ℤ◌, ltb_ℤ,
}
use e_salsa_mpi.Codes.{err_intern, mpi, Result, ok, err}
use e_salsa_mpi.Wire.Words.{
  ntohl, htonl, word_of, Access, value, failed, overrun, ◌>>=◌, host_word, host_int,
}
use e_salsa_mpi.Communicator.Defs.{Communicator}
use e_salsa_mpi.Wire.Requests.{
  Pids, Sent, finalize_send, message_header_size, opcode_split_reply, opcode_group_reply,
  opcode_dup_reply,
}

-- The distribution of a communicator over the clusters, in a reply. An array that is null has no
-- entries.
pub record Distribution : Type 0 where
  pub size : ℕ
  pub cluster_count : ℕ
  pub coordinators : List ℤ
  pub cluster_sizes : List ℤ
  pub members : List ℤ
  pub cluster_ranks : List ℤ
  pub member_cluster_index : List ℤ
  pub local_ranks : List ℤ

pub record SplitReply : Type 0 where
  pub destination : ℤ
  pub new_comm : ℤ
  pub rank : ℤ
  pub color : ℤ
  pub key : ℤ
  pub flags : ℤ
  pub distribution : Distribution

-- GroupReply has a constructor for processes outside of the group, with or without a member in the
-- group from their cluster, and one for its members.
pub data GroupReply : Type 0 where
  outside : ℤ → Bool → GroupReply
  active : ℤ → ℤ → ℤ → ℤ → Distribution → GroupReply

pub record DupReply : Type 0 where
  pub destination : ℤ
  pub new_comm : ℤ

-- DataOutputStream.writeInt
unfoldable pub write_int : ℤ → ℕ
write_int n = htonl (word_of n)

-- Message.write, with the length that the constructor sets.
unfoldable pub write_message : ℕ → ℤ → ℕ → List ℕ → List ℕ
write_message opcode destination payload_size rest =
    write_int (pos opcode)
    ∷ write_int (negsuc 0)
    ∷ write_int destination
    ∷ write_int (pos (message_header_size + payload_size))
    ∷ rest

-- A loop that writes the first `n` entries of an array; `none` is an exception.
unfoldable pub write_array : ℕ → List ℤ → Option (List ℕ)
write_array zero xs = some []
write_array (suc n) [] = none
write_array (suc n) (x ∷ xs) = elim (write_array n xs) [
  | none ↦ none
  | some ws ↦ some (write_int x ∷ ws)
]

-- One loop after the other.
abbrev pub then_write : Option (List ℕ) → Option (List ℕ) → Option (List ℕ)
then_write (some ws) (some vs) = some (ws ++ vs)
then_write (some ws) none = none
then_write none rest = none

unfoldable pub write_distribution : Distribution → Option (List ℕ)
write_distribution d = then_write (write_array d.cluster_count d.coordinators) (
    then_write (write_array d.cluster_count d.cluster_sizes) (
      then_write (write_array d.cluster_count d.cluster_ranks) (
        then_write (write_array d.size d.members) (
          then_write (write_array d.size d.member_cluster_index)
            (then_write (write_array d.size d.local_ranks) (some []))))))

abbrev pub after : List ℕ → Option (List ℕ) → Option (List ℕ)
after front none = none
after front (some ws) = some (front ++ ws)

-- The number of bytes of the arrays.
abbrev pub arrays_size : Distribution → ℕ
arrays_size d = d.cluster_count * 4 * 3 + d.size * 4 * 3

-- SplitReply.write
unfoldable pub write_split_reply : SplitReply → Option (List ℕ)
write_split_reply r =
    let d = r.distribution in
    after
      (write_message opcode_split_reply r.destination (7 * 4 + arrays_size d) (
        write_int r.new_comm
        ∷ write_int r.rank
        ∷ write_int (pos d.size)
        ∷ write_int r.color
        ∷ write_int r.key
        ∷ write_int (pos d.cluster_count)
        ∷ write_int r.flags
        ∷ []))
      (write_distribution d)

-- GROUP_TYPE_ACTIVE, GROUP_TYPE_SEPERATIST, GROUP_TYPE_IDLE
abbrev pub group_type_active : ℤ
group_type_active = pos 0

abbrev pub group_type_seperatist : ℤ
group_type_seperatist = pos 1

abbrev pub group_type_idle : ℤ
group_type_idle = pos 2

abbrev pub outside_type : Bool → ℤ
outside_type overlap = if overlap then group_type_seperatist else group_type_idle

-- GroupReply.write; outside of the group the counts are -1, and no array is written.
unfoldable pub write_group_reply : GroupReply → Option (List ℕ)
write_group_reply (outside destination overlap) = some (
    write_message opcode_group_reply destination (6 * 4) (
      write_int (negsuc 0)
      ∷ write_int (negsuc 0)
      ∷ write_int (negsuc 0)
      ∷ write_int (outside_type overlap)
      ∷ write_int (negsuc 0)
      ∷ write_int (negsuc 0)
      ∷ []))
write_group_reply (active destination new_comm rank flags d) =
    after
      (write_message opcode_group_reply destination (6 * 4 + arrays_size d) (
        write_int new_comm
        ∷ write_int rank
        ∷ write_int (pos d.size)
        ∷ write_int group_type_active
        ∷ write_int (pos d.cluster_count)
        ∷ write_int flags
        ∷ []))
      (write_distribution d)

-- DupReply.write
unfoldable pub write_dup_reply : DupReply → List ℕ
write_dup_reply r = write_message opcode_dup_reply r.destination 4 (write_int r.new_comm ∷ [])

-- What the calls of MPI and malloc give in one run of receive_server_message_varlen; 0 is
-- MPI_SUCCESS.
pub record VarlenCalls : Type 0 where
  pub probe_error : ℕ
  pub count_error : ℕ
  pub buffer : Bool
  pub recv_error : ℕ
  pub received : List ℕ

-- receive_server_message, with the error of PMPI_Recv and what it receives.
unfoldable pub receive_server_message : ℕ → List ℕ → Access (List ℕ)
receive_server_message error received = if error == 0 then value received else failed (mpi error)

-- Without memory it returns MPI_ERR_INTERN, a code of the MPI library.
unfoldable pub receive_server_message_varlen : ℕ → VarlenCalls → Access (List ℕ)
receive_server_message_varlen mpi_err_intern call =
    if not (call.probe_error == 0)
    then failed (mpi call.probe_error)
    else if not (call.count_error == 0)
    then failed (mpi call.count_error)
    else if not call.buffer
    then failed (mpi mpi_err_intern)
    else receive_server_message call.recv_error call.received

-- The six arrays of comm_reply and group_reply, `none` is NULL. An entry is its 32-bit word.
pub record Arrays : Type 0 where
  pub coordinators : Option (List ℕ)
  pub cluster_sizes : Option (List ℕ)
  pub cluster_ranks : Option (List ℕ)
  pub members : Option (List ℕ)
  pub member_cluster_index : Option (List ℕ)
  pub local_ranks : Option (List ℕ)

pub record CommReply : Type 0 where
  pub new_comm : ℤ
  pub rank : ℤ
  pub size : ℤ
  pub color : ℤ
  pub key : ℤ
  pub cluster_count : ℤ
  pub flags : ℤ
  pub arrays : Arrays

-- `type` of the source is `kind`.
pub record ReceivedGroup : Type 0 where
  pub new_comm : ℤ
  pub rank : ℤ
  pub size : ℤ
  pub kind : ℤ
  pub cluster_count : ℤ
  pub flags : ℤ
  pub arrays : Arrays

-- The loop of copy_int_array.
unfoldable pub copy_words : ℕ → List ℕ → Access (List ℕ)
copy_words zero src = value []
copy_words (suc n) [] = overrun
copy_words (suc n) (w ∷ ws) = copy_words n ws >>= λ rest. value (ntohl w ∷ rest)

-- `memory` is whether malloc gives the block, which for a negative `len` it never does. `none` is
-- NULL.
unfoldable pub copy_int_array : Bool → List ℕ → ℕ → ℤ → Access (Option (List ℕ))
copy_int_array memory src offset (negsuc len) = value none
copy_int_array memory src offset (pos len) =
    if memory
    then (copy_words len (drop offset src) >>= λ result. value (some result))
    else value none

-- The test on NULL after each call.
abbrev pub or_error : Option (List ℕ) → Access (Option (List ℕ))
or_error none = failed err_intern
or_error (some xs) = value (some xs)

-- The arrays with an entry for each member: `n` is 3*cluster_count.
unfoldable pub member_arrays :
    (ℕ → Bool)
    → List ℕ
    → ℕ
    → ℤ
    → (Option (List ℕ) → Option (List ℕ) → Option (List ℕ) → Arrays)
    → Access Arrays
member_arrays memory payload n size make =
    if ltb_ℤ (pos 0) size
    then (do
      members ← copy_int_array (memory 3) payload n size >>= or_error
      index ← copy_int_array (memory 4) payload (n + pos_part size) size >>= or_error
      ranks ← copy_int_array (memory 5) payload (n + 2 * pos_part size) size >>= or_error
      value (make members index ranks))
    else value (make none none none)

-- `memory i` is the result of malloc for array `i`.
unfoldable pub copy_arrays : (ℕ → Bool) → List ℕ → ℤ → ℤ → Access Arrays
copy_arrays memory payload count size = do
  coordinators ← copy_int_array (memory 0) payload 0 count >>= or_error
  sizes ← copy_int_array (memory 1) payload (pos_part count) count >>= or_error
  ranks ← copy_int_array (memory 2) payload (2 * pos_part count) count >>= or_error
  member_arrays memory payload (3 * pos_part count) size (λ members index locals. record {
    coordinators = coordinators;
    cluster_sizes = sizes;
    cluster_ranks = ranks;
    members = members;
    member_cluster_index = index;
    local_ranks = locals;
  })

-- The test on the opcode, and what follows it.
abbrev pub check_opcode {ℓ} : {A : Type ℓ} → ℕ → List ℕ → Access A → Access A
check_opcode expected msg next =
    host_word msg 0 >>= λ opcode. (if opcode == expected then next else failed err_intern)

unfoldable pub split_reply_of : (ℕ → Bool) → List ℕ → Access CommReply
split_reply_of memory msg = do
  new_comm ← host_int msg 4
  rank ← host_int msg 5
  size ← host_int msg 6
  color ← host_int msg 7
  key ← host_int msg 8
  count ← host_int msg 9
  flags ← host_int msg 10
  arrays ← copy_arrays memory (drop 11 msg) count size
  value (record {
    new_comm = new_comm;
    rank = rank;
    size = size;
    color = color;
    key = key;
    cluster_count = count;
    flags = flags;
    arrays = arrays;
  })

unfoldable pub messaging_comm_split_receive : ℕ → VarlenCalls → (ℕ → Bool) → Access CommReply
messaging_comm_split_receive mpi_err_intern call memory = do
  msg ← receive_server_message_varlen mpi_err_intern call
  check_opcode opcode_split_reply msg (split_reply_of memory msg)

abbrev pub no_arrays : Arrays
no_arrays = record {
  coordinators = none;
  cluster_sizes = none;
  cluster_ranks = none;
  members = none;
  member_cluster_index = none;
  local_ranks = none;
}

abbrev pub group_arrays : (ℕ → Bool) → List ℕ → ℤ → ℤ → ℤ → Access Arrays
group_arrays memory payload kind count size =
    if kind ==ℤ group_type_active then copy_arrays memory payload count size else value no_arrays

unfoldable pub group_reply_of : (ℕ → Bool) → List ℕ → Access ReceivedGroup
group_reply_of memory msg = do
  new_comm ← host_int msg 4
  rank ← host_int msg 5
  size ← host_int msg 6
  kind ← host_int msg 7
  count ← host_int msg 8
  flags ← host_int msg 9
  arrays ← group_arrays memory (drop 10 msg) kind count size
  value (record {
    new_comm = new_comm;
    rank = rank;
    size = size;
    kind = kind;
    cluster_count = count;
    flags = flags;
    arrays = arrays;
  })

unfoldable pub messaging_comm_create_receive : ℕ → VarlenCalls → (ℕ → Bool) → Access ReceivedGroup
messaging_comm_create_receive mpi_err_intern call memory = do
  msg ← receive_server_message_varlen mpi_err_intern call
  check_opcode opcode_group_reply msg (group_reply_of memory msg)

-- The result is newComm.
unfoldable pub messaging_comm_dup_receive : ℕ → List ℕ → Access ℤ
messaging_comm_dup_receive recv_error received = do
  msg ← receive_server_message recv_error received
  check_opcode opcode_dup_reply msg (host_int msg 4)

-- The second half of messaging_finalize: the reply, whose opcode is not looked at, and the end of MPI;
-- the code of the barrier is not looked at either.
abbrev pub finalized : ℕ → Access (List ℕ) → Result (Unit {0})
finalized finalize_error (value reply) =
    if finalize_error == 0 then ok tt else err (mpi finalize_error)
finalized finalize_error (failed e) = err e
finalized finalize_error overrun = err err_intern

abbrev pub finalize_rest : ℕ → List ℕ → ℕ → Sent → Sent
finalize_rest recv_error received finalize_error (words, ok _) =
    (words, finalized finalize_error (receive_server_message recv_error received))
finalize_rest recv_error received finalize_error (words, err e) = (words, err e)

-- The errors are those of PMPI_Send, PMPI_Recv and PMPI_Finalize.
unfoldable pub messaging_finalize : ℕ → Pids → Communicator → ℕ → List ℕ → ℕ → Sent
messaging_finalize send_error ids c recv_error received finalize_error =
    finalize_rest recv_error received finalize_error (finalize_send send_error ids c)

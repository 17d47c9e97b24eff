-- ===== src/Wire/RoundTrip.antt =====
-- What the server writes in a reply is what a process receives.
use e_salsa_mpi.Prelude.{
  ℕ, ◌+◌, ◌*◌, ◌%◌, ◌^◌, ◌<◌, true, false, some, List, [], ◌∷◌, ◌++◌, ℤ, pos, negsuc, ◌≡◌, ◌∙◌,
  refl, ap, arith,
}
use e_salsa_mpi.Wire.Words.{ntohl, htonl, word_of, int_of, value, host_word, host_int}
use e_salsa_mpi.Wire.Order.{IsInt, ntohl-htonl, word_of_below, int_of-word_of}
use e_salsa_mpi.Wire.Requests.{opcode_split_reply, opcode_group_reply}
use e_salsa_mpi.Wire.Replies.{
  Distribution, SplitReply, GroupReply, outside, active, DupReply, write_int, write_message, after,
  write_split_reply, write_group_reply, write_dup_reply, VarlenCalls, receive_server_message,
  receive_server_message_varlen, CommReply, ReceivedGroup, split_reply_of,
  messaging_comm_split_receive, no_arrays, group_reply_of, messaging_comm_create_receive,
  messaging_comm_dup_receive, arrays_size, outside_type, group_type_active,
}
use e_salsa_mpi.Wire.Layout.{lay}
use e_salsa_mpi.Wire.Arrays.{
  IsDistribution, parts, arrays_of, write_distribution-parts, copy_arrays-parts,
}

-- A field that holds an `int`.
int-read : (n : ℤ) → IsInt n → int_of (ntohl (write_int n)) ≡ n
unfolding write_int
int-read n h = ap int_of (ntohl-htonl (word_of n) (word_of_below n)) ∙ int_of-word_of n h

-- The opcode.
opcode-read : (n : ℕ) → n < 2 ^ 32 → ntohl (write_int (pos n)) ≡ n
unfolding write_int word_of
opcode-read n h = ap ntohl (ap htonl {x = n % 2 ^ 32} {y = n} (omega arith)) ∙ ntohl-htonl n h

-- All calls of MPI succeed, and there is memory.
abbrev pub undisturbed : List ℕ → VarlenCalls
undisturbed words = record {
  probe_error = 0;
  count_error = 0;
  buffer = true;
  recv_error = 0;
  received = words;
}

pub record IsSplitReply (r : SplitReply) : Type 0 where
  pub new_comm : IsInt r.new_comm
  pub rank : IsInt r.rank
  pub color : IsInt r.color
  pub key : IsInt r.key
  pub flags : IsInt r.flags
  pub distribution : IsDistribution r.distribution

-- The words before the arrays.
abbrev split_front : SplitReply → List ℕ
split_front r =
    write_message opcode_split_reply r.destination (7 * 4 + arrays_size r.distribution) (
      write_int r.new_comm
      ∷ write_int r.rank
      ∷ write_int (pos r.distribution.size)
      ∷ write_int r.color
      ∷ write_int r.key
      ∷ write_int (pos r.distribution.cluster_count)
      ∷ write_int r.flags
      ∷ [])

-- What a process receives of a SplitReply.
abbrev pub comm_reply_of : SplitReply → CommReply
comm_reply_of r = record {
  new_comm = r.new_comm;
  rank = r.rank;
  size = pos r.distribution.size;
  color = r.color;
  key = r.key;
  cluster_count = pos r.distribution.cluster_count;
  flags = r.flags;
  arrays = arrays_of r.distribution;
}

-- SplitReply.write, on a reply whose numbers are `int`s and whose arrays have the entries that its
-- counts say, gives a message. From this messaging_comm_split_receive, where the calls of MPI and
-- malloc succeed, reads the same numbers and arrays, and NULL for the arrays of an empty membership;
-- it does not read behind the message.
pub split_reply-roundtrip :
    (mpi_err_intern : ℕ) (r : SplitReply)
    → IsSplitReply r
    → (words : List ℕ) × (write_split_reply r ≡ some words)
      × (messaging_comm_split_receive mpi_err_intern (undisturbed words) (λ _. true)
          ≡ value (comm_reply_of r))
unfolding write_split_reply write_message messaging_comm_split_receive receive_server_message_varlen
    receive_server_message split_reply_of host_word host_int
split_reply-roundtrip mpi_err_intern r h =
    let d = h.distribution in
    (
      split_front r ++ lay (parts r.distribution),
      ap (after (split_front r)) (write_distribution-parts r.distribution d),
      rw (
        opcode-read 52 (omega arith),
        int-read r.new_comm h.new_comm,
        int-read r.rank h.rank,
        int-read (pos r.distribution.size) d.size,
        int-read r.color h.color,
        int-read r.key h.key,
        int-read (pos r.distribution.cluster_count) d.cluster_count,
        int-read r.flags h.flags,
        copy_arrays-parts r.distribution d,
      ),
    )

abbrev pub IsGroupReply : GroupReply → Type 0
IsGroupReply (outside destination overlap) = Unit {0}
IsGroupReply (active destination new_comm rank flags d) =
    IsInt new_comm × IsInt rank × IsInt flags × IsDistribution d

-- What a process receives of a GroupReply.
abbrev pub group_reply_received : GroupReply → ReceivedGroup
group_reply_received (outside destination overlap) = record {
  new_comm = negsuc 0;
  rank = negsuc 0;
  size = negsuc 0;
  kind = outside_type overlap;
  cluster_count = negsuc 0;
  flags = negsuc 0;
  arrays = no_arrays;
}
group_reply_received (active destination new_comm rank flags d) = record {
  new_comm = new_comm;
  rank = rank;
  size = pos d.size;
  kind = group_type_active;
  cluster_count = pos d.cluster_count;
  flags = flags;
  arrays = arrays_of d;
}

abbrev group_front : ℤ → ℤ → ℤ → ℤ → Distribution → List ℕ
group_front destination new_comm rank flags d =
    write_message opcode_group_reply destination (6 * 4 + arrays_size d) (
      write_int new_comm
      ∷ write_int rank
      ∷ write_int (pos d.size)
      ∷ write_int group_type_active
      ∷ write_int (pos d.cluster_count)
      ∷ write_int flags
      ∷ [])

-- GroupReply.write, on a reply to a member whose numbers are `int`s and whose arrays have the entries
-- that its counts say, or on a reply to another process, gives a message. From this
-- messaging_comm_create_receive, where the calls of MPI and malloc succeed, reads the same numbers
-- and arrays, and NULL for the arrays of an empty membership or in another process; it does not
-- read behind the message.
pub group_reply-roundtrip :
    (mpi_err_intern : ℕ) (r : GroupReply)
    → IsGroupReply r
    → (words : List ℕ) × (write_group_reply r ≡ some words)
      × (messaging_comm_create_receive mpi_err_intern (undisturbed words) (λ _. true)
          ≡ value (group_reply_received r))
unfolding write_group_reply write_message messaging_comm_create_receive
    receive_server_message_varlen receive_server_message group_reply_of host_word host_int
group_reply-roundtrip mpi_err_intern (outside destination true) h = (
  _,
  refl,
  rw (
    opcode-read 54 (omega arith),
    int-read (negsuc 0) (omega arith),
    int-read (pos 1) (omega arith),
  ),
)
group_reply-roundtrip mpi_err_intern (outside destination false) h = (
  _,
  refl,
  rw (
    opcode-read 54 (omega arith),
    int-read (negsuc 0) (omega arith),
    int-read (pos 2) (omega arith),
  ),
)
group_reply-roundtrip mpi_err_intern (active destination new_comm rank flags d) (c, k, f, h) = (
  group_front destination new_comm rank flags d ++ lay (parts d),
  ap (after (group_front destination new_comm rank flags d)) (write_distribution-parts d h),
  rw (
    opcode-read 54 (omega arith),
    int-read new_comm c,
    int-read rank k,
    int-read (pos d.size) h.size,
    int-read (pos 0) (omega arith),
    int-read (pos d.cluster_count) h.cluster_count,
    int-read flags f,
    copy_arrays-parts d h,
  ),
)

-- From the message that DupReply.write gives, where the receive succeeds and newComm is an `int`,
-- messaging_comm_dup_receive reads newComm.
pub dup_reply-roundtrip :
    (r : DupReply)
    → IsInt r.new_comm
    → messaging_comm_dup_receive 0 (write_dup_reply r) ≡ value r.new_comm
unfolding write_dup_reply write_message messaging_comm_dup_receive receive_server_message host_word
    host_int
dup_reply-roundtrip r h = rw (opcode-read 56 (omega arith), int-read r.new_comm h)

-- ===== src/Wire/Examples.antt =====
-- A group request and the replies of the server, on a communicator over two clusters.
use e_salsa_mpi.Prelude.{ℕ, true, false, some, List, [], ◌∷◌, ◌++◌, pos, negsuc, ◌≡◌, refl, arith}
use e_salsa_mpi.Codes.{ok}
use e_salsa_mpi.Communicator.Defs.{Communicator}
use e_salsa_mpi.Groups.Defs.{Group}
use e_salsa_mpi.Wire.Words.{value, ntohl, int_of, word_of}
use e_salsa_mpi.Wire.Requests.{Pids, receive_message, deliver}
use e_salsa_mpi.Wire.Replies.{
  Distribution, SplitReply, GroupReply, active, write_split_reply, write_group_reply,
  messaging_comm_split_receive, messaging_comm_create_receive,
}
use e_salsa_mpi.Wire.Arrays.{IsDistribution}
use e_salsa_mpi.Wire.RoundTrip.{
  undisturbed, comm_reply_of, split_reply-roundtrip, group_reply_received, group_reply-roundtrip,
}
use e_salsa_mpi.Wire.Reading.{create, send_request, request_of, send_request-roundtrip}

swapped : ntohl 0x01020304 ≡ 0x04030201
unfolding ntohl
swapped = refl

minus_one : int_of (word_of (negsuc 0)) ≡ negsuc 0
unfolding int_of word_of
minus_one = refl

-- Three processes in two clusters.
abbrev two_clusters : Distribution
two_clusters = record {
  size = 3;
  cluster_count = 2;
  coordinators = pos 0 ∷ pos 2 ∷ [];
  cluster_sizes = pos 2 ∷ pos 1 ∷ [];
  members = pos 0 ∷ pos 1 ∷ pos 16777216 ∷ [];
  cluster_ranks = pos 0 ∷ pos 1 ∷ [];
  member_cluster_index = pos 0 ∷ pos 0 ∷ pos 1 ∷ [];
  local_ranks = pos 0 ∷ pos 1 ∷ pos 0 ∷ [];
}

two_clusters-IsDistribution : IsDistribution two_clusters
two_clusters-IsDistribution = record {
  size = omega arith;
  cluster_count = omega arith;
  coordinators = omega arith;
  cluster_sizes = omega arith;
  cluster_ranks = omega arith;
  members = omega arith;
  member_cluster_index = omega arith;
  local_ranks = omega arith;
}

abbrev split_example : SplitReply
split_example = record {
  destination = pos 1;
  new_comm = pos 7;
  rank = pos 1;
  color = pos 4;
  key = negsuc 2;
  flags = pos 12;
  distribution = two_clusters;
}

split_reply-roundtrip_example :
    (words : List ℕ) × (write_split_reply split_example ≡ some words)
    × (messaging_comm_split_receive 16 (undisturbed words) (λ _. true)
        ≡ value (comm_reply_of split_example))
split_reply-roundtrip_example = split_reply-roundtrip 16 split_example (record {
  new_comm = omega arith;
  rank = omega arith;
  color = omega arith;
  key = omega arith;
  flags = omega arith;
  distribution = two_clusters-IsDistribution;
})

abbrev group_example : GroupReply
group_example = active (pos 1) (pos 7) (pos 1) (pos 12) two_clusters

group_reply-roundtrip_example :
    (words : List ℕ) × (write_group_reply group_example ≡ some words)
    × (messaging_comm_create_receive 16 (undisturbed words) (λ _. true)
        ≡ value (group_reply_received group_example))
group_reply-roundtrip_example =
    group_reply-roundtrip 16 group_example
      (omega arith, omega arith, omega arith, two_clusters-IsDistribution)

-- A communicator, of which only handle and rank are sent.
abbrev sender : Communicator
sender = record {
  handle = pos 5;
  comm = 0;
  flags = record { world = false; self = false; local = true; remote = true };
  local_rank = 1;
  local_size = 2;
  global_rank = 1;
  global_size = 3;
  cluster_count = 2;
  my_coordinator = 0;
  coordinators = 0 ∷ 2 ∷ [];
  cluster_sizes = 2 ∷ 1 ∷ [];
  members = 0 ∷ 1 ∷ 16777216 ∷ [];
  cluster_ranks = 0 ∷ 1 ∷ [];
  member_cluster_index = 0 ∷ 0 ∷ 1 ∷ [];
  local_ranks = 0 ∷ 1 ∷ 0 ∷ [];
}

abbrev pair : Group
pair = record { handle = pos 2; rank = pos 0; size = 2; members = 1 ∷ 16777216 ∷ [] }

abbrev pids : Pids
pids = record { my_pid = 1; server_pid = 16777215 }

-- Another message follows in the stream.
send_request-roundtrip_example :
    (words : List ℕ) × (send_request pids (create sender pair) ≡ (some words, ok tt))
    × (receive_message (words ++ 55 ∷ 0 ∷ [])
        ≡ some (deliver (request_of pids (create sender pair)), 55 ∷ 0 ∷ []))
send_request-roundtrip_example =
    send_request-roundtrip pids (create sender pair) (55 ∷ 0 ∷ [])
      (record { my_pid = omega arith; server_pid = omega arith })
      (
        record { handle = omega arith; rank = omega arith },
        omega arith,
        omega arith,
        (omega arith, (omega arith, tt)),
      )

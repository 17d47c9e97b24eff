-- ===== src/Calls/Examples.antt =====
-- A split and a duplication of a communicator of three processes in two clusters.
use e_salsa_mpi.Prelude.{
  ℕ, ◌==◌, if◌then◌else◌, true, false, Option, none, some, List, [], ◌∷◌, pos, negsuc, ◌≡◌, refl,
  arith,
}
use e_salsa_mpi.Codes.{ok}
use e_salsa_mpi.Communicator.Defs.{Communicator, Table, handle_to_communicator}
use e_salsa_mpi.Wire.Words.{value}
use e_salsa_mpi.Wire.Replies.{
  Distribution, SplitReply, DupReply, write_int, write_message, write_array, write_distribution,
  write_split_reply, write_dup_reply,
}
use e_salsa_mpi.Wire.RoundTrip.{undisturbed, IsSplitReply}
use e_salsa_mpi.Calls.Split.{SplitCalls, comm_split, DupCalls, comm_dup}
use e_salsa_mpi.Calls.Laws.{IsFree, Registers, reply_communicator, comm_split-Registers}

abbrev world : Communicator
world = record {
  handle = pos 0;
  comm = 7;
  flags = record { world = true; self = false; local = true; remote = true };
  local_rank = 0;
  local_size = 2;
  global_rank = 0;
  global_size = 3;
  cluster_count = 2;
  my_coordinator = 0;
  coordinators = 0 ∷ 2 ∷ [];
  cluster_sizes = 2 ∷ 1 ∷ [];
  members = 0 ∷ 1 ∷ 0x01000000 ∷ [];
  cluster_ranks = 0 ∷ 1 ∷ [];
  member_cluster_index = 0 ∷ 0 ∷ 1 ∷ [];
  local_ranks = 0 ∷ 1 ∷ 0 ∷ [];
}

abbrev comms : Table
comms k = if k == 0 then some world else none

world-found : handle_to_communicator (pos 0) comms ≡ some world
unfolding handle_to_communicator
world-found = refl

-- A new communicator of one process.
abbrev alone : Distribution
alone = record {
  size = 1;
  cluster_count = 1;
  coordinators = pos 0 ∷ [];
  cluster_sizes = pos 1 ∷ [];
  members = pos 0 ∷ [];
  cluster_ranks = pos 0 ∷ [];
  member_cluster_index = pos 0 ∷ [];
  local_ranks = pos 0 ∷ [];
}

abbrev reply : SplitReply
reply = record {
  destination = pos 0;
  new_comm = pos 3;
  rank = pos 0;
  color = pos 5;
  key = pos 0;
  flags = pos 1;
  distribution = alone;
}

reply-IsSplitReply : IsSplitReply reply
reply-IsSplitReply = record {
  new_comm = omega arith;
  rank = omega arith;
  color = omega arith;
  key = omega arith;
  flags = omega arith;
  distribution = record {
    size = omega arith;
    cluster_count = omega arith;
    coordinators = omega arith;
    cluster_sizes = omega arith;
    cluster_ranks = omega arith;
    members = omega arith;
    member_cluster_index = omega arith;
    local_ranks = omega arith;
  };
}

abbrev written_or_none : Option (List ℕ) → List ℕ
written_or_none none = []
written_or_none (some words) = words

abbrev words : List ℕ
words = written_or_none (write_split_reply reply)

reply-words : write_split_reply reply ≡ some words
unfolding write_split_reply write_message write_int write_distribution write_array
reply-words = refl

abbrev split_calls : SplitCalls
split_calls = record {
  ids = record { my_pid = 0; server_pid = 0xFFFFFFFF };
  mpi_undefined = negsuc 32765;
  mpi_err_intern = 16;
  send_error = 0;
  receive = undisturbed words;
  memory = λ _. true;
  comm_split = λ color key. ok (some 9);
  comm_rank = ok 0;
  comm_size = ok 1;
}

three-IsFree : IsFree comms 3
three-IsFree = record { not_reserved = omega arith; below = omega arith; entry = refl }

comm_split-Registers_example :
    Registers 0 3 (reply_communicator 9 0 1 reply) comms (value (pos 3)) (
      comm_split split_calls
        (record { cluster_rank = 0; malloc = some 0; comms = comms })
        (pos 0)
        (pos 5)
        (pos 0))
comm_split-Registers_example =
    comm_split-Registers split_calls 0 0 comms (pos 0) (pos 5) (pos 0) world reply words 3 5 9 0 1
      world-found reply-IsSplitReply reply-words refl refl three-IsFree
      (record {
        sent = refl;
        replied = refl;
        memory = refl;
        made = refl;
        rank_of = refl;
        size_of = refl;
      })

abbrev dup_reply : DupReply
dup_reply = record { destination = pos 0; new_comm = pos 3 }

abbrev dup_calls : DupCalls
dup_calls = record {
  ids = record { my_pid = 0; server_pid = 0xFFFFFFFF };
  send_error = 0;
  recv_error = 0;
  received = write_dup_reply dup_reply;
  comm_dup = ok 9;
  copies = λ _. true;
}

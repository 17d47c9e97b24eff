-- ===== src/Sending/Examples.antt =====
-- Messages of the second process of the second cluster, in a run of two clusters with two and three
-- processes.
use e_salsa_mpi.Prelude.{ℕ, zero, suc, ◌+◌, ◌<◌, none, some, [], ◌∷◌, map, ◌≡◌, refl, arith, pos}
use e_salsa_mpi.Codes.{ok, err, mpi}
use e_salsa_mpi.Pid.Defs.{get_cluster_rank, get_process_rank}
use e_salsa_mpi.Communicator.Init.{Start, comm_world}
use e_salsa_mpi.Communicator.World.{IsLayout}
use e_salsa_mpi.Messaging.Defs.{DataMessage}
use e_salsa_mpi.Sending.Defs.{messaging_send, messaging_bcast, do_send}
use e_salsa_mpi.Sending.World.{undisturbed, IsTaken, messaging_send-IsTaken}
use e_salsa_mpi.Sending.Broadcast.{bcast_message, others, messaging_bcast-sends}

abbrev offsets : ℕ → ℕ
offsets zero = 0
offsets (suc zero) = 2
offsets (suc (suc c)) = 5

abbrev second : Start
second = record {
  rank = 1;
  size = 3;
  world = 91;
  cluster_rank = 1;
  cluster_count = 2;
  cluster_sizes = 2 ∷ 3 ∷ [];
  cluster_offsets = offsets;
  my_pid = 0x01000001;
  mpi_comm_self = 92;
  mpi_comm_null = 93;
}

second-IsLayout : IsLayout offsets 2
second-IsLayout = (refl, positive)
  where
    positive : (c : ℕ) → c < 2 → offsets c < offsets (suc c)
    positive zero h = omega arith
    positive (suc zero) h = omega arith
    positive (suc (suc c)) h = absurd (omega arith)

-- The size of the packed data cannot be had.
no_size :
    messaging_send 7
      (record (undisturbed 4 []) { size_error = 3 })
      (pos 1)
      0
      (pos 9)
      (comm_world second)
    ≡ some (none, err (mpi 3))
unfolding messaging_send do_send
no_size = refl

messaging_send-IsTaken_example :
    (m : DataMessage) × (messaging_send 0x01000001
        (undisturbed 2 (5 ∷ 6 ∷ []))
        (pos 2)
        1
        (pos 9)
        (comm_world second)
      ≡ some (some m, ok tt))
    × (m.payload ≡ 5 ∷ 6 ∷ [])
    × (m.header.length ≡ 38)
    × (get_cluster_rank m.header.dst_pid < 2)
    × (offsets (get_cluster_rank m.header.dst_pid) + get_process_rank m.header.dst_pid ≡ 1)
    × (1 < offsets (suc (get_cluster_rank m.header.dst_pid)))
    × IsTaken m (pos 0) (pos 3) (pos 9)
messaging_send-IsTaken_example =
    messaging_send-IsTaken second second-IsLayout (omega arith) (pos 2) 1 (pos 9) 2 (5 ∷ 6 ∷ [])
      (omega arith) (omega arith) (omega arith) (omega arith)

messaging_bcast-sends_example :
    messaging_bcast 0x01000001 1 2 (λ _. undisturbed 2 (5 ∷ 6 ∷ [])) (pos 2) (comm_world second)
    ≡ some (
      map
          (bcast_message second second-IsLayout (omega arith) (pos 2) 2 (5 ∷ 6 ∷ []))
          (others 1 2 0),
      ok tt,
    )
messaging_bcast-sends_example =
    messaging_bcast-sends second second-IsLayout (omega arith) (pos 2) 2 (5 ∷ 6 ∷ [])

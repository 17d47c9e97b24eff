-- ===== src/Communicator/Examples.antt =====
-- Two clusters, of two and three processes; this process is the second of the second cluster.
use e_salsa_mpi.Prelude.{
  ℕ, zero, suc, ◌+◌, ◌^◌, ◌<◌, ◌==◌, true, not, none, some, [], ◌∷◌, ◌≡◌, refl, arith, pos,
}
use e_salsa_mpi.Pid.Defs.{set_pid}
use e_salsa_mpi.Codes.{ok}
use e_salsa_mpi.Communicator.Defs.{
  Communicator, Member, create_communicator, handle_to_communicator, get_global_rank,
  get_local_rank,
}
use e_salsa_mpi.Communicator.Init.{Start, Mallocs, comm_self, comm_world, init_communicators}
use e_salsa_mpi.Communicator.World.{IsLayout, IsAt}
use e_salsa_mpi.Communicator.Ranks.{init_communicators-get_global_rank}
use e_salsa_mpi.Communicator.Locality.{
  get_pid, get_rank_cluster, rank_is_local, rank_is_remote, rank_is_local-IsAt,
}
use e_salsa_mpi.Communicator.Laws.{Creates, create_communicator-Creates}

abbrev offsets : ℕ → ℕ
offsets zero = 0
offsets (suc zero) = 2
offsets (suc (suc c)) = 5

abbrev second : Start
second = record {
  rank = 1;
  size = 3;
  world = 91;
  cluster_rank = 1;
  cluster_count = 2;
  cluster_sizes = 2 ∷ 3 ∷ [];
  cluster_offsets = offsets;
  my_pid = 0x01000001;
  mpi_comm_self = 92;
  mpi_comm_null = 93;
}

second-IsLayout : IsLayout offsets 2
second-IsLayout = (refl, positive)
  where
    positive : (c : ℕ) → c < 2 → offsets c < offsets (suc c)
    positive zero h = omega arith
    positive (suc zero) h = omega arith
    positive (suc (suc c)) h = absurd (omega arith)

abbrev memory : Mallocs
memory = record {
  coordinators = true;
  world_arrays = true;
  self_arrays = true;
  world = some 0;
  self = some 0;
  null = some 0;
}

init_communicators-get_global_rank_example :
    ((init_communicators memory second (λ j. none)).0 ≡ ok 2)
    × ((w : Communicator) × (handle_to_communicator
            (pos 0)
            (init_communicators memory second (λ j. none)).1
          ≡ some w)
        × ((cluster q : ℕ)
            → 2 + q < 5
            → (get_global_rank w cluster q ≡ some (2 + q))
              × (get_local_rank w (pos (2 + q)) ≡ some q)))
init_communicators-get_global_rank_example =
    init_communicators-get_global_rank second second-IsLayout (omega arith) 0 0 0 (λ j. none)
      (omega arith) (omega arith)

abbrev self_like : Communicator
unfolding comm_self
self_like = comm_self second

create_communicator-Creates_example :
    Creates 1
      (some 0)
      (pos 3)
      self_like
      (λ j. none)
      (create_communicator 1 (some 0) (pos 3) self_like (λ j. none))
create_communicator-Creates_example =
    create_communicator-Creates 1 (some 0) (pos 3) self_like (λ j. none)

abbrev world_like : Communicator
unfolding comm_world
world_like = comm_world second

second_small : (c i : ℕ) → c < 2 → i < offsets (suc c) → i < offsets c + 2 ^ 24
second_small zero i h k = omega arith
second_small (suc zero) i h k = omega arith
second_small (suc (suc c)) i h k = absurd (omega arith)

-- The global rank 4 is the third process of the second cluster.
rank_is_local-IsAt_example :
    (m : Member) × IsAt offsets 2 4 m
    × (get_rank_cluster world_like 4 ≡ some m.cluster)
    × (get_pid world_like 4 ≡ some (set_pid m.cluster m.process))
    × (rank_is_local 1 world_like 4 ≡ some (m.cluster == 1))
    × (rank_is_remote 1 world_like 4 ≡ some (not (m.cluster == 1)))
unfolding comm_world
rank_is_local-IsAt_example =
    rank_is_local-IsAt second second-IsLayout (omega arith) (omega arith) second_small world_like
      refl 1 4 (omega arith)

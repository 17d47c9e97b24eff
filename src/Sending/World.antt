-- ===== src/Sending/World.antt =====
-- A message on EMPI_COMM_WORLD reaches the process that it is for, and a receive there takes it.
use e_salsa_mpi.Prelude.{
  ℕ, suc, ◌+◌, ◌≤◌, ◌<◌, ◌^◌, Bool, true, false, some, List, get_elem?-map, ◌≡◌, ◌∙◌, refl, sym, ap,
  subst, arith, ℤ, pos, ==ℤ_self, ◌||◌, ◌==ℤ◌,
}
use e_salsa_mpi.Codes.{ok, any_source, any_tag}
use e_salsa_mpi.Pid.Defs.{
  get_cluster_rank, get_process_rank, max_clusters, max_processes_per_cluster,
}
use e_salsa_mpi.Pid.Laws.{set_pid_roundtrip}
use e_salsa_mpi.Communicator.Defs.{Member}
use e_salsa_mpi.Communicator.Init.{Start, comm_world, world_members}
use e_salsa_mpi.Communicator.World.{IsLayout}
use e_salsa_mpi.Communicator.Ranks.{world_members-IsAt}
use e_salsa_mpi.Communicator.Locality.{get_pid}
use e_salsa_mpi.Messaging.Defs.{DataMessage, match_message}
use e_salsa_mpi.Sending.Defs.{
  PackCalls, create_data_message, send_to, do_send, messaging_send, opcode_data, data_message_size,
}

-- All calls of MPI succeed, and there is memory.
abbrev pub undisturbed : ℕ → List ℕ → PackCalls
undisturbed bytes packed = record {
  size_error = 0;
  bytes = bytes;
  memory = true;
  pack_error = 0;
  packed = packed;
  send_error = 0;
}

-- A receive for the communicator that asks for this source and this tag, or for any, takes the
-- message.
abbrev pub IsTaken : DataMessage → ℤ → ℤ → ℤ → Type 0
IsTaken m comm source tag =
    (match_message m comm source tag ≡ true)
    × (match_message m comm any_source tag ≡ true)
    × (match_message m comm source any_tag ≡ true)
    × (match_message m comm any_source any_tag ≡ true)

or_true : (b : Bool) → (b || true) ≡ true
or_true true = refl
or_true false = refl

own-IsTaken : (m : DataMessage) → IsTaken m m.comm m.source m.tag
unfolding match_message
own-IsTaken m =
    let c = ==ℤ_self m.comm in
    let s = ==ℤ_self m.source in
    let t = ==ℤ_self m.tag in
    let s' = or_true (m.source ==ℤ any_source) in
    let t' = or_true (m.tag ==ℤ any_tag) in
    (rw (c, s, t, s', t') refl, rw (c, t, t') refl, rw (c, s, s') refl, rw c refl)

module _ (a : Start) (lay : IsLayout a.cluster_offsets a.cluster_count)
    (some_cluster : 0 < a.cluster_count) where
  -- The message that a send of `count` elements with the tag `tag` hands to the gateway, to the
  -- process with rank `g`.
  abbrev pub world_message : ℤ → ℕ → ℤ → ℕ → List ℕ → ℕ → DataMessage
  world_message count g tag bytes packed pid =
      record (create_data_message a.my_pid opcode_data pid (pos 0)
        (pos (a.cluster_offsets a.cluster_rank + a.rank)) (pos g) tag count bytes) {
          payload = packed;
        }

  -- For a layout of at least one cluster, each with a process, within MAX_CLUSTERS and with less than
  -- MAX_PROCESSES_PER_CLUSTER processes in all, and calls of MPI and malloc that succeed:
  -- messaging_send on EMPI_COMM_WORLD, to a rank of it, hands one message to the gateway, with the
  -- packed data and its length. The ranks that GET_CLUSTER_RANK and GET_PROCESS_RANK give for its
  -- destination name the cluster with this rank and the process there. A receive on the communicator
  -- for the sender's rank and this tag, or for any of the two, takes the message.
  pub messaging_send-IsTaken :
      (count : ℤ) (g : ℕ) (tag : ℤ) (bytes : ℕ) (packed : List ℕ)
      → a.cluster_count ≤ max_clusters
      → a.cluster_offsets a.cluster_count < max_processes_per_cluster
      → g < a.cluster_offsets a.cluster_count
      → data_message_size + bytes < 2 ^ 32
      → (m : DataMessage) × (messaging_send a.my_pid
            (undisturbed bytes packed)
            count
            g
            tag
            (comm_world a)
          ≡ some (some m, ok tt))
        × (m.payload ≡ packed)
        × (m.header.length ≡ data_message_size + bytes)
        × (get_cluster_rank m.header.dst_pid < a.cluster_count)
        × (a.cluster_offsets (get_cluster_rank m.header.dst_pid) + get_process_rank m.header.dst_pid
            ≡ g)
        × (g < a.cluster_offsets (suc (get_cluster_rank m.header.dst_pid)))
        × IsTaken m (pos 0) (pos (a.cluster_offsets a.cluster_rank + a.rank)) tag
  unfolding messaging_send do_send get_pid create_data_message comm_world
  messaging_send-IsTaken count g tag bytes packed few small inside fits =
      let (x, e, (c, o, u, p)) = world_members-IsAt a lay some_cluster g inside in
      let (rc, rp) = set_pid_roundtrip x.cluster x.process (omega arith) (omega arith) in
      let cluster : get_cluster_rank x.pid ≡ x.cluster = ap get_cluster_rank p ∙ rc in
      let process : get_process_rank x.pid ≡ x.process = ap get_process_rank p ∙ rp in
      let m = world_message count g tag bytes packed x.pid in
      (
        m,
        ap (send_to a.my_pid (undisturbed bytes packed) opcode_data count g tag (comm_world a))
            (get_elem?-map (λ (y : Member). y.pid) (world_members a) g x e),
        refl,
        omega arith,
        omega (arith, cluster),
        ap (λ k. a.cluster_offsets k + get_process_rank x.pid) cluster
            ∙ ap (λ k. a.cluster_offsets x.cluster + k) process
            ∙ o,
        subst (λ k. g < a.cluster_offsets (suc k)) (sym cluster) u,
        own-IsTaken m,
      )

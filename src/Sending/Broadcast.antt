-- ===== src/Sending/Broadcast.antt =====
-- A broadcast on EMPI_COMM_WORLD sends one message to the coordinator of every other cluster.
use e_salsa_mpi.Prelude.{
  ℕ, zero, suc, ◌+◌, ◌<◌, ◌==◌, if◌then◌else◌, Bool-cases, some, List, [], ◌∷◌, ◌++◌, map,
  get_elem?, get_elem?-map, append-nil, append_assoc, ◌≡◌, inl, inr, ◌∙◌, sym, ap, arith, ℤ, pos,
}
use e_salsa_mpi.Codes.{ok}
use e_salsa_mpi.Pid.Defs.{set_pid}
use e_salsa_mpi.Communicator.Defs.{Member}
use e_salsa_mpi.Communicator.Init.{Start, comm_world, world_members, tabulate}
use e_salsa_mpi.Communicator.World.{IsLayout, cluster_unique, cluster_offsets_mono}
use e_salsa_mpi.Communicator.Ranks.{world_members-IsAt}
use e_salsa_mpi.Communicator.Locality.{get_pid}
use e_salsa_mpi.Messaging.Defs.{DataMessage}
use e_salsa_mpi.Sending.Defs.{
  create_data_message, send_to, do_send, opcode_collective_bcast, bcast_tag, bcast_loop,
  messaging_bcast,
}
use e_salsa_mpi.Sending.World.{undisturbed}

-- The clusters from `i` on for `n` rounds, but for the own one.
abbrev pub others : ℕ → ℕ → ℕ → List ℕ
others own zero i = []
others own (suc n) i = if i == own then others own n (suc i) else i ∷ others own n (suc i)

get_elem?-tabulate :
    (f : ℕ → ℕ) (n i k : ℕ) → k < n → get_elem? (tabulate f n i) k ≡ some (f (i + k))
get_elem?-tabulate f zero i k h = absurd (omega arith)
get_elem?-tabulate f (suc n) i zero h = ap (λ j. some (f j)) {x = i} {y = i + 0} (omega arith)
get_elem?-tabulate f (suc n) i (suc k) h =
    get_elem?-tabulate f n (suc i) k (omega arith)
    ∙ ap (λ j. some (f j)) {x = suc i + k} {y = i + suc k} (omega arith)

module _ (a : Start) (lay : IsLayout a.cluster_offsets a.cluster_count)
    (some_cluster : 0 < a.cluster_count) (count : ℤ) (bytes : ℕ) (packed : List ℕ) where
  -- The message for the coordinator of cluster `i`, its first process.
  abbrev pub bcast_message : ℕ → DataMessage
  bcast_message i =
      record (create_data_message a.my_pid opcode_collective_bcast (set_pid i 0) (pos 0)
        (pos (a.cluster_offsets a.cluster_rank + a.rank)) (pos (a.cluster_offsets i)) bcast_tag
        count bytes) { payload = packed }

  coordinator_pid :
      (i : ℕ)
      → i < a.cluster_count
      → get_pid (comm_world a) (a.cluster_offsets i) ≡ some (set_pid i 0)
  unfolding get_pid comm_world
  coordinator_pid i h =
      let here = lay.1 i h in
      let (m, e, (c, o, u, p)) = world_members-IsAt a lay some_cluster (a.cluster_offsets i) (
        omega (
          arith,
          cluster_offsets_mono a.cluster_offsets a.cluster_count lay (suc i) a.cluster_count
              (omega arith) (omega arith),
        )) in
      let same : m.cluster ≡ i =
        cluster_unique a.cluster_offsets a.cluster_count lay m.cluster i (a.cluster_offsets i) c h
          (omega arith) u (omega arith) here in
      let first : m.process ≡ 0 = omega (arith, ap a.cluster_offsets same) in
      get_elem?-map (λ (y : Member). y.pid) (world_members a) (a.cluster_offsets i) m e
      ∙ ap some (p ∙ ap (λ k. set_pid k m.process) same ∙ ap (set_pid i) first)

  coordinator-send :
      (i : ℕ)
      → i < a.cluster_count
      → do_send a.my_pid
          (undisturbed bytes packed)
          opcode_collective_bcast
          count
          (a.cluster_offsets i)
          bcast_tag
          (comm_world a)
        ≡ some (some (bcast_message i), ok tt)
  unfolding do_send create_data_message comm_world
  coordinator-send i h =
      ap
        (send_to a.my_pid (undisturbed bytes packed) opcode_collective_bcast count
          (a.cluster_offsets i) bcast_tag (comm_world a))
        (coordinator_pid i h)

  -- The entry of cluster `i` in the array of coordinators.
  coordinator :
      (i : ℕ)
      → i < a.cluster_count
      → get_elem? (comm_world a).coordinators i ≡ some (a.cluster_offsets i)
  unfolding comm_world
  coordinator i h =
      get_elem?-tabulate a.cluster_offsets a.cluster_count 0 i h
      ∙ ap (λ k. some (a.cluster_offsets k)) {x = 0 + i} {y = i} (omega arith)

  bcast_loop-sends :
      (n i : ℕ) (sent : List DataMessage)
      → i + n ≡ a.cluster_count
      → bcast_loop a.my_pid a.cluster_rank
          (λ _. undisturbed bytes packed)
          count
          (comm_world a)
          n
          i
          sent
        ≡ some (sent ++ map bcast_message (others a.cluster_rank n i), ok tt)
  unfolding bcast_loop
  bcast_loop-sends zero i sent e = ap (λ l. some (l, ok tt)) (sym (append-nil sent))
  bcast_loop-sends (suc n) i sent e = elim (Bool-cases (i == a.cluster_rank)) [
    | inl own ↦ rw own (bcast_loop-sends n (suc i) sent (omega (arith, e)))
    | inr other ↦
        rw (other, coordinator i (omega (arith, e)), coordinator-send i (omega (arith, e)))
          (bcast_loop-sends n (suc i) (sent ++ bcast_message i ∷ []) (omega (arith, e))
            ∙ ap (λ l. some (l, ok tt))
                (append_assoc sent (bcast_message i ∷ [])
                  (map bcast_message (others a.cluster_rank n (suc i)))))
  ]

  -- For a layout of at least one cluster, each with a process, and calls of MPI and malloc that
  -- succeed: messaging_bcast on EMPI_COMM_WORLD returns EMPI_SUCCESS and hands to the gateway, in the
  -- order of the clusters, one message for the first process of every cluster but the own one, with
  -- the rank and the pid of this process and the packed data.
  pub messaging_bcast-sends :
      messaging_bcast a.my_pid a.cluster_rank a.cluster_count
        (λ _. undisturbed bytes packed)
        count
        (comm_world a)
      ≡ some (map bcast_message (others a.cluster_rank a.cluster_count 0), ok tt)
  unfolding messaging_bcast
  messaging_bcast-sends = bcast_loop-sends a.cluster_count 0 [] (omega arith)

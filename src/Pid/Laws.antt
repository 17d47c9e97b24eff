-- ===== src/Pid/Laws.antt =====
-- A pid is a pair of ranks: building one and taking it apart are inverse to one another.
use e_salsa_mpi.Prelude.{ℕ, ◌+◌, ◌*◌, ◌/◌, ◌%◌, ◌^◌, ◌<◌, ◌≡◌, ◌∙◌, ap, arith}
use e_salsa_mpi.Prelude.Bits.{bit_and-ones, bit_or-shift, bit_and-shift}
use Prim.Native.Nat.{bit_and}
use e_salsa_mpi.Pid.Defs.{
  set_pid, get_cluster_rank, get_process_rank, max_clusters, max_processes_per_cluster,
}

and_byte : (x : ℕ) → bit_and x 0xFF ≡ x % 256
and_byte x =
    ap (λ (n : ℕ). bit_and n 0xFF) (omega arith) ∙ bit_and-ones 8 (x / 256) (x % 256) (omega arith)

and_low : (x : ℕ) → bit_and x 0xFFFFFF ≡ x % 2 ^ 24
and_low x =
    ap (λ (n : ℕ). bit_and n 0xFFFFFF) (omega arith)
    ∙ bit_and-ones 24 (x / 2 ^ 24) (x % 2 ^ 24) (omega arith)

-- What SET_PID computes, read as arithmetic.
pub set_pid_value : (x y : ℕ) → set_pid x y ≡ x % 256 * 2 ^ 24 + y % 2 ^ 24
unfolding set_pid
set_pid_value x y =
    let fits : x % 256 * 2 ^ 24 % 2 ^ 32 ≡ x % 256 * 2 ^ 24 = omega arith in
    rw (and_byte, and_low, fits) (bit_or-shift 24 (x % 256) (y % 2 ^ 24) (omega arith))

pub get_cluster_rank_value : (x : ℕ) → get_cluster_rank x ≡ x / 2 ^ 24 % 256
unfolding get_cluster_rank
get_cluster_rank_value x =
    let parts : x ≡ x / 2 ^ 24 * 2 ^ 24 + x % 2 ^ 24 = omega arith in
    let shifted : bit_and x 0xFF000000 ≡ bit_and (x / 2 ^ 24) 0xFF * 2 ^ 24 =
      ap (λ (n : ℕ). bit_and n 0xFF000000) parts
      ∙ bit_and-shift 24 (x / 2 ^ 24) (x % 2 ^ 24) 0xFF (omega arith) in
    rw (shifted, and_byte) (omega arith)

pub get_process_rank_value : (x : ℕ) → get_process_rank x ≡ x % 2 ^ 24
unfolding get_process_rank
get_process_rank_value x = and_low x

-- The cluster rank and the process rank that SET_PID packs into a pid are read back unchanged
-- when they are below the limits of settings.h.
pub set_pid_roundtrip :
    (cluster process : ℕ)
    → cluster < max_clusters
    → process < max_processes_per_cluster
    → (get_cluster_rank (set_pid cluster process) ≡ cluster)
      × (get_process_rank (set_pid cluster process) ≡ process)
set_pid_roundtrip cluster process h k =
    rw (get_cluster_rank_value, get_process_rank_value, set_pid_value) (omega arith)

-- Every 32-bit pid is rebuilt from its two ranks.
pub set_pid-get_rank :
    (pid : ℕ) → pid < 2 ^ 32 → set_pid (get_cluster_rank pid) (get_process_rank pid) ≡ pid
set_pid-get_rank pid h =
    rw (get_cluster_rank_value, get_process_rank_value, set_pid_value) (omega arith)

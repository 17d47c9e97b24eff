-- ===== src/Pid/Defs.antt =====
-- The macros of src/shared/settings.h on process identifiers, which are uint32_t values.
use Prim.Native.Nat.{bit_and, bit_or}
use e_salsa_mpi.Prelude.{ℕ, ◌*◌, ◌/◌, ◌%◌, ◌^◌}

abbrev pub max_clusters : ℕ
max_clusters = 256

abbrev pub max_processes_per_cluster : ℕ
max_processes_per_cluster = 16777216

-- SET_PID(X, Y): `((X & 0xFF) << 24 | (Y & 0xFFFFFF))`, the shift on 32 bits.
unfoldable pub set_pid : ℕ → ℕ → ℕ
set_pid x y = bit_or (bit_and x 0xFF * 2 ^ 24 % 2 ^ 32) (bit_and y 0xFFFFFF)

-- GET_CLUSTER_RANK(X): `((X & 0xFF000000) >> 24)`.
unfoldable pub get_cluster_rank : ℕ → ℕ
get_cluster_rank x = bit_and x 0xFF000000 / 2 ^ 24

-- GET_PROCESS_RANK(X): `(X & 0x00FFFFFF)`.
unfoldable pub get_process_rank : ℕ → ℕ
get_process_rank x = bit_and x 0x00FFFFFF

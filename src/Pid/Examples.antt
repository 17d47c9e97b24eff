-- ===== src/Pid/Examples.antt =====
-- A pid of cluster 3.
use e_salsa_mpi.Prelude.{◌≡◌, refl}
use e_salsa_mpi.Pid.Defs.{set_pid}

set_pid_3_17 : set_pid 3 17 ≡ 0x03000011
unfolding set_pid
set_pid_3_17 = refl

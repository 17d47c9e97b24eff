-- ===== src/Pid.antt =====
-- Process identifiers: the macros SET_PID, GET_CLUSTER_RANK and GET_PROCESS_RANK of
-- src/shared/settings.h, on uint32_t values. A pid is the cluster's rank in the top 8 bits and the
-- rank of the process in its cluster in the other 24.
pub mod Defs
pub mod Laws
mod Examples

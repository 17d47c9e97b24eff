-- ===== src/Communicator.antt =====
-- src/backend/communicator.c.
pub mod Defs
pub mod World
pub mod Init
pub mod Ranks
pub mod Locality
pub mod Laws
mod Examples

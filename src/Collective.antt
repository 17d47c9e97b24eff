-- ===== src/Collective.antt =====
-- src/backend/empi.c: the collective operations.
pub mod Counts
pub mod CountLaws
mod Examples

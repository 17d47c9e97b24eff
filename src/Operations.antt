-- ===== src/Operations.antt =====
-- src/backend/operation.c.
pub mod Defs
pub mod Laws
mod Examples

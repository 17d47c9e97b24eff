-- ===== src/Requests.antt =====
-- src/backend/request.c.
pub mod Defs
pub mod Laws
mod Examples
pub mod Probe
pub mod Receive
mod ReceiveExamples

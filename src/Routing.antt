-- ===== src/Routing.antt =====
-- The routes of messages through a gateway: the second half of src/backend/gateway.c.
pub mod Defs
pub mod Process
pub mod Post
pub mod Routes
pub mod Rounds
pub mod Carried
pub mod Forward
pub mod Polling
mod Examples

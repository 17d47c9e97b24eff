-- ===== src/Sending.antt =====
-- Sending wide area messages: do_send and its callers in src/backend/messaging.c.
pub mod Defs
pub mod World
pub mod Broadcast
mod Examples

-- ===== src/Messaging.antt =====
-- Wide area messages: src/backend/messaging.c, and the queues of src/backend/communicator.c.
pub mod Defs
pub mod Stream
pub mod Receive
mod Examples

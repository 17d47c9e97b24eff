-- ===== src/Queue.antt =====
-- The message queue of src/backend/message_queue.c.
pub mod Defs
pub mod Spec
pub mod Chain
pub mod Unlink
pub mod Matching
pub mod Loop
pub mod Fifo
pub mod Session
mod Examples
pub mod Refine

-- ===== src/Calls.antt =====
-- src/backend/empi.c: the calls that make communicators, over the messages to the server and the table.
pub mod Defs
pub mod Split
pub mod Create
pub mod Laws
pub mod Duplicate
mod Examples

-- ===== src/Gateway.antt =====
-- The gateway process: the sockets of src/backend/gateway.c.
pub mod Socket
pub mod Read
pub mod Framing
pub mod Assembly
pub mod Message
pub mod Messages
pub mod Write
pub mod Sent
pub mod Writes
pub mod Link
pub mod Delivery
pub mod Event
mod Examples
mod LinkExamples

-- ===== src/Wire.antt =====
-- The messages between the processes and the server: the end of src/backend/messaging.c, and the
-- classes of src/server/src/esalsa that the server reads and writes them with.
pub mod Words
pub mod Order
pub mod Requests
pub mod Replies
pub mod Layout
pub mod Arrays
pub mod RoundTrip
pub mod Reading
mod Examples

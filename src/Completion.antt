-- ===== src/Completion.antt =====
-- src/backend/empi.c and status.c: how requests complete (EMPI_Test, EMPI_Wait and their kin).
pub mod Status
pub mod Defs
pub mod Probe
pub mod Wait
pub mod Ends
pub mod Kept
pub mod Handles
pub mod Settles
pub mod Remote
pub mod Arrays
pub mod GetStatus
pub mod All
pub mod Sends
mod Examples

-- ===== src/Reduce.antt =====
-- src/backend/reduce_ops.c: the predefined reduction operations.
pub mod Types
pub mod Cases
pub mod LogicCases
pub mod Defs
pub mod Dispatch
pub mod Loop
pub mod Order
pub mod Range
pub mod Wrapping
pub mod Digits
pub mod Integers
pub mod Agreement
pub mod Choice
pub mod Location
pub mod Laws
mod Examples

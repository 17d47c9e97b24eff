-- ===== src/Groups.antt =====
-- src/backend/group.c, and EMPI_Group_translate_ranks of src/backend/empi.c.
pub mod Defs
pub mod Range
pub mod Table
pub mod Members
pub mod Incl
pub mod Union
pub mod Expand
pub mod Backward
pub mod RangeIncl
pub mod Init
pub mod Translate
mod Examples

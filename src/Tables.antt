-- ===== src/Tables.antt =====
-- src/backend/info.c, file.c and datatype.c: the tables of handles.
pub mod Slots
pub mod Infos
pub mod SlotLaws
pub mod Datatypes
pub mod DatatypeLaws
mod Examples

-- ===== src/Tables/Datatypes.antt =====
-- src/backend/datatype.c: the table of datatypes, but for init_datatypes.
--
-- A pointer to a datatype is the index of its entry. A read behind the table, or through a pointer to an
-- entry that is not in use, is `none`. MPI's datatypes are numbers.
use e_salsa_mpi.Prelude.{
  ℕ, ◌-◌, ltb, leb, ◌==◌, if◌then◌else◌, Bool, true, false, not, Option, none, some, ℤ, pos, negsuc,
}
use e_salsa_mpi.Codes.{Result, ok, err, err_intern, err_type, max_datatypes}
use e_salsa_mpi.Tables.Slots.{Entry, put_slot, find_slot}

abbrev pub Types : Type 0
Types = ℕ → Option (Entry ℕ)

-- EMPI_DEFINED_DATATYPES
abbrev pub defined_datatypes : ℕ
defined_datatypes = 42

abbrev pub add_at_free : Bool → ℕ → ℕ → Types → Option (Entry ℕ) → Result (Unit {0}) × Types
add_at_free memory handle type types (some d) = (err err_intern, types)
add_at_free false handle type types none = (err err_intern, types)
add_at_free true handle type types none =
    (ok tt, put_slot types handle (some (record { handle = handle; content = type })))

-- `memory` is whether malloc gives the entry.
unfoldable pub intern_add_datatype : Bool → ℤ → ℕ → Types → Result (Unit {0}) × Types
intern_add_datatype memory (negsuc n) type types = (err err_intern, types)
intern_add_datatype memory (pos handle) type types =
    if leb max_datatypes handle
    then (err err_intern, types)
    else add_at_free memory handle type types (types handle)

abbrev pub added : ℕ → Result (Unit {0}) × Types → Option ℕ × Types
added i (ok u, types) = (some i, types)
added i (err e, types) = (none, types)

abbrev pub add_found : Bool → ℕ → Types → Option ℕ → Option ℕ × Types
add_found memory mtype types none = (none, types)
add_found memory mtype types (some i) = added i (intern_add_datatype memory (pos i) mtype types)

unfoldable pub add_datatype : Bool → ℕ → Types → Option ℕ × Types
add_datatype memory mtype types =
    add_found memory mtype types
      (find_slot types (max_datatypes - defined_datatypes) defined_datatypes)

-- The entry that `handle` names is compared with the pointer `k`.
abbrev pub free_checked : ℕ → ℕ → Types → Option (Result (Unit {0}) × Types)
free_checked k handle types =
    if ltb max_datatypes handle
    then some (err err_type, types)
    else if ltb handle defined_datatypes
    then some (err err_type, types)
    else if handle == max_datatypes
    then none
    else if not (k == handle)
    then some (err err_type, types)
    else some (ok tt, put_slot types handle none)

abbrev pub free_pointed : ℕ → Types → Option (Entry ℕ) → Option (Result (Unit {0}) × Types)
free_pointed k types none = none
free_pointed k types (some d) = free_checked k d.handle types

unfoldable pub free_datatype : Option ℕ → Types → Option (Result (Unit {0}) × Types)
free_datatype none types = some (err err_type, types)
free_datatype (some k) types = free_pointed k types (types k)

unfoldable pub is_derived_datatype : ℤ → Bool
is_derived_datatype (pos k) = leb defined_datatypes k
is_derived_datatype (negsuc k) = false

unfoldable pub handle_to_datatype : ℤ → Types → Option (Option (Entry ℕ))
handle_to_datatype (negsuc n) types = some none
handle_to_datatype (pos k) types =
    if ltb max_datatypes k then some none else if k == max_datatypes then none else some (types k)

-- `none` for NULL gives EMPI_DATATYPE_NULL.
unfoldable pub datatype_to_handle : Option (Entry ℕ) → ℕ
datatype_to_handle none = 0
datatype_to_handle (some d) = d.handle

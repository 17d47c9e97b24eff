-- ===== src/Reduce/LogicCases.antt =====
-- src/backend/reduce_ops.c: the switch of each EMPI_REDUCE_ function over integers and over pairs.
use e_salsa_mpi.Prelude.{Option, none, some}
use e_salsa_mpi.Reduce.Types.{
  Datatype, char, short, int, long, long_long_int, signed_char, unsigned_char, unsigned_short,
  unsigned, unsigned_long, unsigned_long_long, wchar, byte, float_int, double_int, long_int,
  two_int, short_int, long_double_int, integer, logical, two_real, two_double_precision,
  two_integer, Integer, c_char, c_short, c_int, c_long, c_long_long, c_signed_char, c_unsigned_char,
  c_unsigned_short, c_unsigned, c_unsigned_long, c_unsigned_long_long, c_float, c_double, whole,
  floating, Pair,
}

-- The cases of EMPI_REDUCE_LAND.
abbrev pub land_case : Datatype → Option Integer
land_case t = elim t [
  | char ↦ some c_char
  | short ↦ some c_short
  | int ↦ some c_int
  | logical ↦ some c_int
  | long ↦ some c_long
  | long_long_int ↦ some c_long_long
  | signed_char ↦ some c_signed_char
  | unsigned_char ↦ some c_unsigned_char
  | unsigned_short ↦ some c_unsigned_short
  | wchar ↦ some c_unsigned_short
  | unsigned ↦ some c_unsigned
  | unsigned_long ↦ some c_unsigned_long
  | unsigned_long_long ↦ some c_unsigned_long_long
  | _ ↦ none
]

-- The cases of EMPI_REDUCE_LOR.
abbrev pub lor_case : Datatype → Option Integer
lor_case t = elim t [
  | char ↦ some c_char
  | short ↦ some c_short
  | int ↦ some c_int
  | logical ↦ some c_int
  | long ↦ some c_long
  | long_long_int ↦ some c_long_long
  | signed_char ↦ some c_signed_char
  | unsigned_char ↦ some c_unsigned_char
  | unsigned_short ↦ some c_unsigned_short
  | wchar ↦ some c_unsigned_short
  | unsigned ↦ some c_unsigned
  | unsigned_long ↦ some c_unsigned_long
  | unsigned_long_long ↦ some c_unsigned_long_long
  | _ ↦ none
]

-- The cases of EMPI_REDUCE_LXOR.
abbrev pub lxor_case : Datatype → Option Integer
lxor_case t = elim t [
  | char ↦ some c_char
  | short ↦ some c_short
  | int ↦ some c_int
  | logical ↦ some c_int
  | long ↦ some c_long
  | long_long_int ↦ some c_long_long
  | signed_char ↦ some c_signed_char
  | unsigned_char ↦ some c_unsigned_char
  | unsigned_short ↦ some c_unsigned_short
  | wchar ↦ some c_unsigned_short
  | unsigned ↦ some c_unsigned
  | unsigned_long ↦ some c_unsigned_long
  | unsigned_long_long ↦ some c_unsigned_long_long
  | _ ↦ none
]

-- The cases of EMPI_REDUCE_BAND.
abbrev pub band_case : Datatype → Option Integer
band_case t = elim t [
  | char ↦ some c_char
  | short ↦ some c_short
  | int ↦ some c_int
  | integer ↦ some c_int
  | long ↦ some c_long
  | long_long_int ↦ some c_long_long
  | signed_char ↦ some c_signed_char
  | unsigned_char ↦ some c_unsigned_char
  | byte ↦ some c_unsigned_char
  | unsigned_short ↦ some c_unsigned_short
  | wchar ↦ some c_unsigned_short
  | unsigned ↦ some c_unsigned
  | unsigned_long ↦ some c_unsigned_long
  | unsigned_long_long ↦ some c_unsigned_long_long
  | _ ↦ none
]

-- The cases of EMPI_REDUCE_BOR.
abbrev pub bor_case : Datatype → Option Integer
bor_case t = elim t [
  | char ↦ some c_char
  | short ↦ some c_short
  | int ↦ some c_int
  | integer ↦ some c_int
  | long ↦ some c_long
  | long_long_int ↦ some c_long_long
  | signed_char ↦ some c_signed_char
  | unsigned_char ↦ some c_unsigned_char
  | byte ↦ some c_unsigned_char
  | unsigned_short ↦ some c_unsigned_short
  | wchar ↦ some c_unsigned_short
  | unsigned ↦ some c_unsigned
  | unsigned_long ↦ some c_unsigned_long
  | unsigned_long_long ↦ some c_unsigned_long_long
  | _ ↦ none
]

-- The cases of EMPI_REDUCE_BXOR.
abbrev pub bxor_case : Datatype → Option Integer
bxor_case t = elim t [
  | char ↦ some c_char
  | short ↦ some c_short
  | int ↦ some c_int
  | integer ↦ some c_int
  | long ↦ some c_long
  | long_long_int ↦ some c_long_long
  | signed_char ↦ some c_signed_char
  | unsigned_char ↦ some c_unsigned_char
  | byte ↦ some c_unsigned_char
  | unsigned_short ↦ some c_unsigned_short
  | wchar ↦ some c_unsigned_short
  | unsigned ↦ some c_unsigned
  | unsigned_long ↦ some c_unsigned_long
  | unsigned_long_long ↦ some c_unsigned_long_long
  | _ ↦ none
]

-- The cases of EMPI_REDUCE_MAXLOC, by the members of the structs.
abbrev pub maxloc_case : Datatype → Option Pair
maxloc_case t = elim t [
  | two_real ↦ some (record { value_type = floating c_float; loc_type = floating c_float })
  | two_double_precision ↦
      some (record { value_type = floating c_double; loc_type = floating c_double })
  | two_int ↦ some (record { value_type = whole c_int; loc_type = whole c_int })
  | two_integer ↦ some (record { value_type = whole c_int; loc_type = whole c_int })
  | float_int ↦ some (record { value_type = floating c_float; loc_type = whole c_int })
  | double_int ↦ some (record { value_type = floating c_double; loc_type = whole c_int })
  | long_int ↦ some (record { value_type = whole c_long; loc_type = whole c_int })
  | short_int ↦ some (record { value_type = whole c_short; loc_type = whole c_int })
  | long_double_int ↦ some (record { value_type = floating c_double; loc_type = whole c_int })
  | _ ↦ none
]

-- The cases of EMPI_REDUCE_MINLOC, by the members of the structs.
abbrev pub minloc_case : Datatype → Option Pair
minloc_case t = elim t [
  | two_real ↦ some (record { value_type = floating c_float; loc_type = floating c_float })
  | two_double_precision ↦
      some (record { value_type = floating c_double; loc_type = floating c_double })
  | two_int ↦ some (record { value_type = whole c_int; loc_type = whole c_int })
  | two_integer ↦ some (record { value_type = whole c_int; loc_type = whole c_int })
  | float_int ↦ some (record { value_type = floating c_float; loc_type = whole c_int })
  | double_int ↦ some (record { value_type = floating c_double; loc_type = whole c_int })
  | long_int ↦ some (record { value_type = whole c_long; loc_type = whole c_int })
  | short_int ↦ some (record { value_type = whole c_short; loc_type = whole c_int })
  | long_double_int ↦ some (record { value_type = floating c_double; loc_type = whole c_int })
  | _ ↦ none
]

-- ===== src/Reduce/Cases.antt =====
-- src/backend/reduce_ops.c: the switch of each EMPI_REDUCE_ function over numbers; `none` is the default.
use e_salsa_mpi.Prelude.{Option, none, some}
use e_salsa_mpi.Reduce.Types.{
  Datatype, char, short, int, long, long_long_int, signed_char, unsigned_char, unsigned_short,
  unsigned, unsigned_long, unsigned_long_long, float, double, long_double, wchar, integer, real,
  double_precision, complex, double_complex, integer1, integer2, integer4, integer8, real4, real8,
  real16, c_char, c_short, c_int, c_long, c_long_long, c_signed_char, c_unsigned_char,
  c_unsigned_short, c_unsigned, c_unsigned_long, c_unsigned_long_long, c_float, c_double,
  c_long_double, Number, whole, floating, Arithmetic, number, complex_of,
}

-- The cases of EMPI_REDUCE_MAX.
abbrev pub max_case : Datatype → Option Number
max_case t = elim t [
  | char ↦ some (whole c_char)
  | short ↦ some (whole c_short)
  | integer2 ↦ some (whole c_short)
  | int ↦ some (whole c_int)
  | integer ↦ some (whole c_int)
  | integer4 ↦ some (whole c_int)
  | long ↦ some (whole c_long)
  | long_long_int ↦ some (whole c_long_long)
  | integer8 ↦ some (whole c_long_long)
  | signed_char ↦ some (whole c_signed_char)
  | integer1 ↦ some (whole c_signed_char)
  | unsigned_char ↦ some (whole c_unsigned_char)
  | unsigned_short ↦ some (whole c_unsigned_short)
  | wchar ↦ some (whole c_unsigned_short)
  | unsigned ↦ some (whole c_unsigned)
  | unsigned_long ↦ some (whole c_unsigned_long)
  | unsigned_long_long ↦ some (whole c_unsigned_long_long)
  | float ↦ some (floating c_float)
  | real ↦ some (floating c_float)
  | real4 ↦ some (floating c_float)
  | double ↦ some (floating c_double)
  | double_precision ↦ some (floating c_double)
  | real8 ↦ some (floating c_double)
  | long_double ↦ some (floating c_long_double)
  | real16 ↦ some (floating c_long_double)
  | _ ↦ none
]

-- The cases of EMPI_REDUCE_MIN.
abbrev pub min_case : Datatype → Option Number
min_case t = elim t [
  | char ↦ some (whole c_char)
  | short ↦ some (whole c_short)
  | integer2 ↦ some (whole c_short)
  | int ↦ some (whole c_int)
  | integer ↦ some (whole c_int)
  | integer4 ↦ some (whole c_int)
  | long ↦ some (whole c_long)
  | long_long_int ↦ some (whole c_long_long)
  | integer8 ↦ some (whole c_long_long)
  | signed_char ↦ some (whole c_signed_char)
  | integer1 ↦ some (whole c_signed_char)
  | unsigned_char ↦ some (whole c_unsigned_char)
  | unsigned_short ↦ some (whole c_unsigned_short)
  | wchar ↦ some (whole c_unsigned_short)
  | unsigned ↦ some (whole c_unsigned)
  | unsigned_long ↦ some (whole c_unsigned_long)
  | unsigned_long_long ↦ some (whole c_unsigned_long_long)
  | float ↦ some (floating c_float)
  | real ↦ some (floating c_float)
  | real4 ↦ some (floating c_float)
  | double ↦ some (floating c_double)
  | double_precision ↦ some (floating c_double)
  | real8 ↦ some (floating c_double)
  | long_double ↦ some (floating c_long_double)
  | real16 ↦ some (floating c_long_double)
  | _ ↦ none
]

-- The cases of EMPI_REDUCE_SUM.
abbrev pub sum_case : Datatype → Option Arithmetic
sum_case t = elim t [
  | char ↦ some (number (whole c_char))
  | short ↦ some (number (whole c_short))
  | integer2 ↦ some (number (whole c_short))
  | int ↦ some (number (whole c_int))
  | integer ↦ some (number (whole c_int))
  | integer4 ↦ some (number (whole c_int))
  | long ↦ some (number (whole c_long))
  | long_long_int ↦ some (number (whole c_long_long))
  | integer8 ↦ some (number (whole c_long_long))
  | signed_char ↦ some (number (whole c_signed_char))
  | unsigned_char ↦ some (number (whole c_unsigned_char))
  | unsigned_short ↦ some (number (whole c_unsigned_short))
  | wchar ↦ some (number (whole c_unsigned_short))
  | unsigned ↦ some (number (whole c_unsigned))
  | unsigned_long ↦ some (number (whole c_unsigned_long))
  | unsigned_long_long ↦ some (number (whole c_unsigned_long_long))
  | float ↦ some (number (floating c_float))
  | real ↦ some (number (floating c_float))
  | real4 ↦ some (number (floating c_float))
  | double ↦ some (number (floating c_double))
  | double_precision ↦ some (number (floating c_double))
  | real8 ↦ some (number (floating c_double))
  | long_double ↦ some (number (floating c_long_double))
  | real16 ↦ some (number (floating c_long_double))
  | complex ↦ some (complex_of c_float)
  | double_complex ↦ some (complex_of c_double)
  | _ ↦ none
]

-- The cases of EMPI_REDUCE_PROD.
abbrev pub prod_case : Datatype → Option Arithmetic
prod_case t = elim t [
  | char ↦ some (number (whole c_char))
  | short ↦ some (number (whole c_short))
  | integer2 ↦ some (number (whole c_short))
  | int ↦ some (number (whole c_int))
  | integer ↦ some (number (whole c_int))
  | integer4 ↦ some (number (whole c_int))
  | long ↦ some (number (whole c_long))
  | long_long_int ↦ some (number (whole c_long_long))
  | integer8 ↦ some (number (whole c_long_long))
  | signed_char ↦ some (number (whole c_signed_char))
  | unsigned_char ↦ some (number (whole c_unsigned_char))
  | unsigned_short ↦ some (number (whole c_unsigned_short))
  | wchar ↦ some (number (whole c_unsigned_short))
  | unsigned ↦ some (number (whole c_unsigned))
  | unsigned_long ↦ some (number (whole c_unsigned_long))
  | unsigned_long_long ↦ some (number (whole c_unsigned_long_long))
  | float ↦ some (number (floating c_float))
  | real ↦ some (number (floating c_float))
  | real4 ↦ some (number (floating c_float))
  | double ↦ some (number (floating c_double))
  | double_precision ↦ some (number (floating c_double))
  | real8 ↦ some (number (floating c_double))
  | long_double ↦ some (number (floating c_long_double))
  | real16 ↦ some (number (floating c_long_double))
  | complex ↦ some (complex_of c_float)
  | double_complex ↦ some (complex_of c_double)
  | _ ↦ none
]

-- ===== src/Reduce/Types.antt =====
-- src/backend/empi.h and reduce_ops.c: the basic datatypes, the C types that reductions cast a buffer
-- to, and which case of each `switch (*type)` applies.
use e_salsa_mpi.Prelude.{ℕ, Bool, true, false}

-- The datatypes by their EMPI_ constants; `other` is any handle that has no constant.
pub data Datatype : Type 0 where
  datatype_null char short int long long_long_int signed_char unsigned_char unsigned_short :
      Datatype
  unsigned unsigned_long unsigned_long_long float double long_double wchar byte packed : Datatype
  float_int double_int long_int two_int short_int long_double_int : Datatype
  integer real double_precision complex logical character double_complex : Datatype
  integer1 integer2 integer4 integer8 real2 real4 real8 real16 : Datatype
  two_real two_double_precision two_integer : Datatype
  other : ℕ → Datatype

-- The C types of the functions that REDUCE_FUNC generates, on the LP64 platforms with a signed `char`.
pub data Integer : Type 0 where
  c_char c_short c_int c_long c_long_long c_signed_char c_unsigned_char c_unsigned_short : Integer
  c_unsigned c_unsigned_long c_unsigned_long_long : Integer

pub data Floating : Type 0 where
  c_float c_double c_long_double : Floating

pub data Number : Type 0 where
  whole : Integer → Number
  floating : Floating → Number

-- The argument types of SUM and PROD: empi_complex_type is two floats, empi_doublecomplex_type two
-- doubles.
pub data Arithmetic : Type 0 where
  number : Number → Arithmetic
  complex_of : Floating → Arithmetic

-- A struct with a value and a location.
pub record Pair : Type 0 where
  pub value_type : Number
  pub loc_type : Number

abbrev pub bits : Integer → ℕ
bits c_char = 8
bits c_signed_char = 8
bits c_unsigned_char = 8
bits c_short = 16
bits c_unsigned_short = 16
bits c_int = 32
bits c_unsigned = 32
bits c_long = 64
bits c_long_long = 64
bits c_unsigned_long = 64
bits c_unsigned_long_long = 64

abbrev pub is_signed : Integer → Bool
is_signed c_unsigned_char = false
is_signed c_unsigned_short = false
is_signed c_unsigned = false
is_signed c_unsigned_long = false
is_signed c_unsigned_long_long = false
is_signed c_char = true
is_signed c_signed_char = true
is_signed c_short = true
is_signed c_int = true
is_signed c_long = true
is_signed c_long_long = true

-- The cases of EMPI_REDUCE_MAX; `none` is the default.

-- ===== src/Reduce/Agreement.antt =====
-- src/backend/reduce_ops.c: the switches of the twelve functions accept the same datatypes where they
-- should, and cast them to the same types.
use e_salsa_mpi.Prelude.{Option, none, some, ◌≡◌, refl}
use e_salsa_mpi.Reduce.Types.{
  Datatype, other, datatype_null, char, short, int, long, long_long_int, signed_char, unsigned_char,
  unsigned_short, unsigned, unsigned_long, unsigned_long_long, float, double, long_double, wchar,
  byte, packed, float_int, double_int, long_int, two_int, short_int, long_double_int, integer, real,
  double_precision, complex, logical, character, double_complex, integer1, integer2, integer4,
  integer8, real2, real4, real8, real16, two_real, two_double_precision, two_integer, Integer,
  Number, whole,
}
use e_salsa_mpi.Reduce.Cases.{max_case, min_case, sum_case, prod_case}
use e_salsa_mpi.Reduce.LogicCases.{
  land_case, lor_case, lxor_case, band_case, bor_case, bxor_case, maxloc_case, minloc_case,
}

-- Two switches that both accept a datatype use the same C type for it.
abbrev pub IsSameType : Option Integer → Option Number → Type 0
IsSameType none n = Unit
IsSameType (some k) none = Unit
IsSameType (some k) (some n) = n ≡ whole k

abbrev pub Agree : Datatype → Type 0
Agree t =
    (max_case t ≡ min_case t)
    × (sum_case t ≡ prod_case t)
    × (land_case t ≡ lor_case t)
    × (lor_case t ≡ lxor_case t)
    × (band_case t ≡ bor_case t)
    × (bor_case t ≡ bxor_case t)
    × (maxloc_case t ≡ minloc_case t)
    × IsSameType (land_case t) (max_case t)
    × IsSameType (band_case t) (max_case t)

-- For every datatype: MAX and MIN have the same case, so have SUM and PROD, the three logical
-- operations, the three bitwise ones, and MAXLOC and MINLOC; and the logical and the bitwise operations
-- use the same C type as MAX for each datatype that both accept.
pub cases-Agree : (t : Datatype) → Agree t
cases-Agree datatype_null = (refl, refl, refl, refl, refl, refl, refl, tt, tt)
cases-Agree char = (refl, refl, refl, refl, refl, refl, refl, refl, refl)
cases-Agree short = (refl, refl, refl, refl, refl, refl, refl, refl, refl)
cases-Agree int = (refl, refl, refl, refl, refl, refl, refl, refl, refl)
cases-Agree long = (refl, refl, refl, refl, refl, refl, refl, refl, refl)
cases-Agree long_long_int = (refl, refl, refl, refl, refl, refl, refl, refl, refl)
cases-Agree signed_char = (refl, refl, refl, refl, refl, refl, refl, refl, refl)
cases-Agree unsigned_char = (refl, refl, refl, refl, refl, refl, refl, refl, refl)
cases-Agree unsigned_short = (refl, refl, refl, refl, refl, refl, refl, refl, refl)
cases-Agree unsigned = (refl, refl, refl, refl, refl, refl, refl, refl, refl)
cases-Agree unsigned_long = (refl, refl, refl, refl, refl, refl, refl, refl, refl)
cases-Agree unsigned_long_long = (refl, refl, refl, refl, refl, refl, refl, refl, refl)
cases-Agree float = (refl, refl, refl, refl, refl, refl, refl, tt, tt)
cases-Agree double = (refl, refl, refl, refl, refl, refl, refl, tt, tt)
cases-Agree long_double = (refl, refl, refl, refl, refl, refl, refl, tt, tt)
cases-Agree wchar = (refl, refl, refl, refl, refl, refl, refl, refl, refl)
cases-Agree byte = (refl, refl, refl, refl, refl, refl, refl, tt, tt)
cases-Agree packed = (refl, refl, refl, refl, refl, refl, refl, tt, tt)
cases-Agree float_int = (refl, refl, refl, refl, refl, refl, refl, tt, tt)
cases-Agree double_int = (refl, refl, refl, refl, refl, refl, refl, tt, tt)
cases-Agree long_int = (refl, refl, refl, refl, refl, refl, refl, tt, tt)
cases-Agree two_int = (refl, refl, refl, refl, refl, refl, refl, tt, tt)
cases-Agree short_int = (refl, refl, refl, refl, refl, refl, refl, tt, tt)
cases-Agree long_double_int = (refl, refl, refl, refl, refl, refl, refl, tt, tt)
cases-Agree integer = (refl, refl, refl, refl, refl, refl, refl, tt, refl)
cases-Agree real = (refl, refl, refl, refl, refl, refl, refl, tt, tt)
cases-Agree double_precision = (refl, refl, refl, refl, refl, refl, refl, tt, tt)
cases-Agree complex = (refl, refl, refl, refl, refl, refl, refl, tt, tt)
cases-Agree logical = (refl, refl, refl, refl, refl, refl, refl, tt, tt)
cases-Agree character = (refl, refl, refl, refl, refl, refl, refl, tt, tt)
cases-Agree double_complex = (refl, refl, refl, refl, refl, refl, refl, tt, tt)
cases-Agree integer1 = (refl, refl, refl, refl, refl, refl, refl, tt, tt)
cases-Agree integer2 = (refl, refl, refl, refl, refl, refl, refl, tt, tt)
cases-Agree integer4 = (refl, refl, refl, refl, refl, refl, refl, tt, tt)
cases-Agree integer8 = (refl, refl, refl, refl, refl, refl, refl, tt, tt)
cases-Agree real2 = (refl, refl, refl, refl, refl, refl, refl, tt, tt)
cases-Agree real4 = (refl, refl, refl, refl, refl, refl, refl, tt, tt)
cases-Agree real8 = (refl, refl, refl, refl, refl, refl, refl, tt, tt)
cases-Agree real16 = (refl, refl, refl, refl, refl, refl, refl, tt, tt)
cases-Agree two_real = (refl, refl, refl, refl, refl, refl, refl, tt, tt)
cases-Agree two_double_precision = (refl, refl, refl, refl, refl, refl, refl, tt, tt)
cases-Agree two_integer = (refl, refl, refl, refl, refl, refl, refl, tt, tt)
cases-Agree (other n) = (refl, refl, refl, refl, refl, refl, refl, tt, tt)

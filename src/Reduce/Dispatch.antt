-- ===== src/Reduce/Dispatch.antt =====
-- src/backend/reduce_ops.c: the functions EMPI_REDUCE_MAX .. EMPI_REDUCE_MINLOC.
--
-- The result is the new EMPI_Op_errno and the new `inoutvec`, or `none` where FATAL ends the program;
-- the first argument is EMPI_Op_errno before the call.
use e_salsa_mpi.Prelude.{ℕ, ◌+◌, ◌*◌, ◌%◌, ◌^◌, ltb, ◌==◌, Bool, Option, none, some, ℤ}
use e_salsa_mpi.Codes.{Code}
use e_salsa_mpi.Reduce.Types.{
  Datatype, Integer, Floating, Number, whole, floating, Arithmetic, number, complex_of, Pair, bits,
}
use e_salsa_mpi.Reduce.Cases.{max_case, min_case, sum_case, prod_case}
use e_salsa_mpi.Reduce.LogicCases.{
  land_case, lor_case, lxor_case, band_case, bor_case, bxor_case, maxloc_case, minloc_case,
}
use e_salsa_mpi.Reduce.Defs.{
  Floats, order_key, macro_land, macro_lor, macro_lxor, macro_band, macro_bor, macro_bxor,
  macro_max, macro_min, Located, maxloc_body, minloc_body, reduce_func,
}

-- `none` is EMPI_SUCCESS.
abbrev pub Errno : Type 0
Errno = Option Code

-- What `(TYPE *)` makes of a buffer in the case of the switch that applies, if one does.
abbrev pub Buffer : {K : Type 0} → (K → Type 0) → Option K → Type 0
Buffer El none = Unit
Buffer El (some k) = ℕ → El k

-- A switch; the default calls FATAL.
unfoldable pub dispatch :
    {K : Type 0} {El : K → Type 0}
    → ((k : K) → El k → El k → El k)
    → Errno
    → (c : Option K) → Buffer El c
    → Buffer El c
    → ℤ
    → Option (Errno × Buffer El c)
dispatch op errno none invec inoutvec len = none
dispatch op errno (some k) invec inoutvec len = some (errno, reduce_func (op k) invec inoutvec len)

-- MACRO_SUM and MACRO_PROD at an integer type: the result is truncated to the type.
abbrev pub macro_sum : Integer → ℕ → ℕ → ℕ
macro_sum k a b = (a + b) % 2 ^ bits k

abbrev pub macro_prod : Integer → ℕ → ℕ → ℕ
macro_prod k a b = a * b % 2 ^ bits k

abbrev pub less_int : Integer → ℕ → ℕ → Bool
less_int k a b = ltb (order_key k a) (order_key k b)

abbrev pub equal_int : Integer → ℕ → ℕ → Bool
equal_int k a b = order_key k a == order_key k b

-- empi_complex_type and empi_doublecomplex_type.
pub record Complex (R : Type 0) : Type 0 where
  pub re : R
  pub im : R

module _ {R : Type 0} (fl : Floats R) where
  abbrev pub Value : Number → Type 0
  Value (whole k) = ℕ
  Value (floating p) = R

  abbrev pub Element : Arithmetic → Type 0
  Element (number n) = Value n
  Element (complex_of p) = Complex R

  abbrev pub Struct : Pair → Type 0
  Struct p = Located (Value p.value_type) (Value p.loc_type)

  abbrev pub less : (n : Number) → Value n → Value n → Bool
  less (whole k) a b = less_int k a b
  less (floating p) a b = fl.is_less p a b

  abbrev pub equal : (n : Number) → Value n → Value n → Bool
  equal (whole k) a b = equal_int k a b
  equal (floating p) a b = fl.is_equal p a b

  -- The bodies of the loops, first `invec[i]`, then `inoutvec[i]`.
  abbrev pub max_op : (n : Number) → Value n → Value n → Value n
  max_op n = macro_max (less n)

  abbrev pub min_op : (n : Number) → Value n → Value n → Value n
  min_op n = macro_min (less n)

  -- COMPLEX_SUM_FUNC and COMPLEX_PROD_FUNC name the first array `b` and the second one `a`.
  abbrev pub complex_sum : Floating → Complex R → Complex R → Complex R
  complex_sum p b a = record { re = fl.plus p a.re b.re; im = fl.plus p a.im b.im }

  abbrev pub complex_prod : Floating → Complex R → Complex R → Complex R
  complex_prod p b a = record {
    re = fl.minus p (fl.times p a.re b.re) (fl.times p a.im b.im);
    im = fl.plus p (fl.times p a.im b.re) (fl.times p a.re b.im);
  }

  abbrev pub sum_op : (c : Arithmetic) → Element c → Element c → Element c
  sum_op (number (whole k)) a b = macro_sum k a b
  sum_op (number (floating p)) a b = fl.plus p a b
  sum_op (complex_of p) a b = complex_sum p a b

  abbrev pub prod_op : (c : Arithmetic) → Element c → Element c → Element c
  prod_op (number (whole k)) a b = macro_prod k a b
  prod_op (number (floating p)) a b = fl.times p a b
  prod_op (complex_of p) a b = complex_prod p a b

  abbrev pub maxloc_op : (p : Pair) → Struct p → Struct p → Struct p
  maxloc_op p = maxloc_body (equal p.value_type) (less p.value_type) (less p.loc_type)

  abbrev pub minloc_op : (p : Pair) → Struct p → Struct p → Struct p
  minloc_op p = minloc_body (equal p.value_type) (less p.value_type) (less p.loc_type)

  unfoldable pub reduce_max :
      Errno
      → (t : Datatype) → Buffer Value (max_case t)
      → Buffer Value (max_case t)
      → ℤ
      → Option (Errno × Buffer Value (max_case t))
  reduce_max errno t = dispatch max_op none (max_case t)

  unfoldable pub reduce_min :
      Errno
      → (t : Datatype) → Buffer Value (min_case t)
      → Buffer Value (min_case t)
      → ℤ
      → Option (Errno × Buffer Value (min_case t))
  reduce_min errno t = dispatch min_op none (min_case t)

  unfoldable pub reduce_sum :
      Errno
      → (t : Datatype) → Buffer Element (sum_case t)
      → Buffer Element (sum_case t)
      → ℤ
      → Option (Errno × Buffer Element (sum_case t))
  reduce_sum errno t = dispatch sum_op none (sum_case t)

  unfoldable pub reduce_prod :
      Errno
      → (t : Datatype) → Buffer Element (prod_case t)
      → Buffer Element (prod_case t)
      → ℤ
      → Option (Errno × Buffer Element (prod_case t))
  reduce_prod errno t = dispatch prod_op none (prod_case t)

  unfoldable pub reduce_maxloc :
      Errno
      → (t : Datatype) → Buffer Struct (maxloc_case t)
      → Buffer Struct (maxloc_case t)
      → ℤ
      → Option (Errno × Buffer Struct (maxloc_case t))
  reduce_maxloc errno t = dispatch maxloc_op none (maxloc_case t)

  unfoldable pub reduce_minloc :
      Errno
      → (t : Datatype) → Buffer Struct (minloc_case t)
      → Buffer Struct (minloc_case t)
      → ℤ
      → Option (Errno × Buffer Struct (minloc_case t))
  reduce_minloc errno t = dispatch minloc_op none (minloc_case t)

abbrev pub WholeBuffer : Option Integer → Type 0
WholeBuffer c = Buffer (λ (k : Integer). ℕ) c

unfoldable pub reduce_land :
    Errno
    → (t : Datatype) → WholeBuffer (land_case t)
    → WholeBuffer (land_case t)
    → ℤ
    → Option (Errno × WholeBuffer (land_case t))
reduce_land errno t = dispatch (λ _. macro_land) none (land_case t)

unfoldable pub reduce_lor :
    Errno
    → (t : Datatype) → WholeBuffer (lor_case t)
    → WholeBuffer (lor_case t)
    → ℤ
    → Option (Errno × WholeBuffer (lor_case t))
reduce_lor errno t = dispatch (λ _. macro_lor) none (lor_case t)

-- EMPI_REDUCE_LXOR does not set EMPI_Op_errno.
unfoldable pub reduce_lxor :
    Errno
    → (t : Datatype) → WholeBuffer (lxor_case t)
    → WholeBuffer (lxor_case t)
    → ℤ
    → Option (Errno × WholeBuffer (lxor_case t))
reduce_lxor errno t = dispatch (λ _. macro_lxor) errno (lxor_case t)

unfoldable pub reduce_band :
    Errno
    → (t : Datatype) → WholeBuffer (band_case t)
    → WholeBuffer (band_case t)
    → ℤ
    → Option (Errno × WholeBuffer (band_case t))
reduce_band errno t = dispatch macro_band none (band_case t)

unfoldable pub reduce_bor :
    Errno
    → (t : Datatype) → WholeBuffer (bor_case t)
    → WholeBuffer (bor_case t)
    → ℤ
    → Option (Errno × WholeBuffer (bor_case t))
reduce_bor errno t = dispatch macro_bor none (bor_case t)

unfoldable pub reduce_bxor :
    Errno
    → (t : Datatype) → WholeBuffer (bxor_case t)
    → WholeBuffer (bxor_case t)
    → ℤ
    → Option (Errno × WholeBuffer (bxor_case t))
reduce_bxor errno t = dispatch macro_bxor none (bxor_case t)

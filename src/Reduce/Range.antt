-- ===== src/Reduce/Range.antt =====
-- src/backend/reduce_ops.c: the bit patterns of an integer type.
use e_salsa_mpi.Prelude.{ℕ, ◌+◌, ◌-◌, ◌^◌, ◌<◌, ◌≡◌, refl, arith}
use e_salsa_mpi.Reduce.Types.{
  Integer, bits, c_char, c_short, c_int, c_long, c_long_long, c_signed_char, c_unsigned_char,
  c_unsigned_short, c_unsigned, c_unsigned_long, c_unsigned_long_long,
}

abbrev pub InRange : Integer → ℕ → Type 0
InRange k a = a < 2 ^ bits k

pub two_halves : (k : Integer) → 2 ^ bits k ≡ 2 ^ (bits k - 1) + 2 ^ (bits k - 1)
two_halves c_char = refl
two_halves c_short = refl
two_halves c_int = refl
two_halves c_long = refl
two_halves c_long_long = refl
two_halves c_signed_char = refl
two_halves c_unsigned_char = refl
two_halves c_unsigned_short = refl
two_halves c_unsigned = refl
two_halves c_unsigned_long = refl
two_halves c_unsigned_long_long = refl

-- Wider than a bit: 1 is in the range of every type.
pub one-InRange : (k : Integer) → 1 < 2 ^ bits k
one-InRange c_char = omega arith
one-InRange c_short = omega arith
one-InRange c_int = omega arith
one-InRange c_long = omega arith
one-InRange c_long_long = omega arith
one-InRange c_signed_char = omega arith
one-InRange c_unsigned_char = omega arith
one-InRange c_unsigned_short = omega arith
one-InRange c_unsigned = omega arith
one-InRange c_unsigned_long = omega arith
one-InRange c_unsigned_long_long = omega arith

-- ===== src/Reduce/Integers.antt =====
-- src/backend/reduce_ops.c: the operations on integers are commutative and associative, also where they
-- wrap around.
use e_salsa_mpi.Prelude.{ℕ, ◌+◌, ◌-◌, ◌^◌, ltb, if◌then◌else◌, Bool, true, false, ◌≡◌, arith}
use e_salsa_mpi.Reduce.Types.{Integer, bits, is_signed}
use e_salsa_mpi.Reduce.Defs.{
  order_key, macro_land, macro_lor, macro_lxor, macro_band, macro_bor, macro_bxor, macro_max,
  macro_min,
}
use e_salsa_mpi.Reduce.Dispatch.{less_int, macro_sum, macro_prod}
use e_salsa_mpi.Reduce.Range.{InRange, two_halves, one-InRange}
use e_salsa_mpi.Reduce.Wrapping.{sum-IsExchangeable, prod-IsExchangeable}
use e_salsa_mpi.Reduce.Digits.{
  bitwise_n-IsExchangeable, min-IsDigitOp, max-IsDigitOp, xor_digit-IsDigitOp,
}
use e_salsa_mpi.Reduce.Order.{IsExchangeable}

pub order_key_injective :
    (k : Integer) (a b : ℕ) → InRange k a → InRange k b → order_key k a ≡ order_key k b → a ≡ b
order_key_injective k a b p q e = signed_or_not (is_signed k) (2 ^ (bits k - 1)) (two_halves k) e
  where
    signed_or_not :
        (s : Bool) (h : ℕ)
        → 2 ^ bits k ≡ h + h
        → (if s then (if ltb a h then a + h else a - h) else a)
          ≡ (if s then (if ltb b h then b + h else b - h) else b)
        → a ≡ b
    signed_or_not true h e f = ground arith
    signed_or_not false h e f = f

module _ (k : Integer) where
  max-IsExchangeable : IsExchangeable (InRange k) (macro_max (less_int k))
  max-IsExchangeable = record {
    stays = λ a b p q. ground arith;
    comm = λ a b p q. ground (arith, order_key_injective k a b p q);
    assoc = λ a b c p q r. ground arith;
  }

  min-IsExchangeable : IsExchangeable (InRange k) (macro_min (less_int k))
  min-IsExchangeable = record {
    stays = λ a b p q. ground arith;
    comm = λ a b p q. ground (arith, order_key_injective k a b p q);
    assoc = λ a b c p q r. ground arith;
  }

  land-IsExchangeable : IsExchangeable (InRange k) macro_land
  land-IsExchangeable = record {
    stays = λ a b p q. ground (arith, one-InRange k);
    comm = λ a b p q. ground arith;
    assoc = λ a b c p q r. ground arith;
  }

  lor-IsExchangeable : IsExchangeable (InRange k) macro_lor
  lor-IsExchangeable = record {
    stays = λ a b p q. ground (arith, one-InRange k);
    comm = λ a b p q. ground arith;
    assoc = λ a b c p q r. ground arith;
  }

  lxor-IsExchangeable : IsExchangeable (InRange k) macro_lxor
  lxor-IsExchangeable = record {
    stays = λ a b p q. ground (arith, one-InRange k);
    comm = λ a b p q. ground arith;
    assoc = λ a b c p q r. ground arith;
  }

-- The body of the loop of each of the ten operations, for the elements of type `k`.
pub data IntegerOp (k : Integer) : (ℕ → ℕ → ℕ) → Type 0 where
  op_max : IntegerOp k (macro_max (less_int k))
  op_min : IntegerOp k (macro_min (less_int k))
  op_sum : IntegerOp k (macro_sum k)
  op_prod : IntegerOp k (macro_prod k)
  op_land : IntegerOp k macro_land
  op_lor : IntegerOp k macro_lor
  op_lxor : IntegerOp k macro_lxor
  op_band : IntegerOp k (macro_band k)
  op_bor : IntegerOp k (macro_bor k)
  op_bxor : IntegerOp k (macro_bxor k)

pub IntegerOp-IsExchangeable :
    (k : Integer) {f : ℕ → ℕ → ℕ} → IntegerOp k f → IsExchangeable (InRange k) f
IntegerOp-IsExchangeable k op_max = max-IsExchangeable k
IntegerOp-IsExchangeable k op_min = min-IsExchangeable k
IntegerOp-IsExchangeable k op_sum = sum-IsExchangeable k
IntegerOp-IsExchangeable k op_prod = prod-IsExchangeable k
IntegerOp-IsExchangeable k op_land = land-IsExchangeable k
IntegerOp-IsExchangeable k op_lor = lor-IsExchangeable k
IntegerOp-IsExchangeable k op_lxor = lxor-IsExchangeable k
IntegerOp-IsExchangeable k op_band = bitwise_n-IsExchangeable min-IsDigitOp k
IntegerOp-IsExchangeable k op_bor = bitwise_n-IsExchangeable max-IsDigitOp k
IntegerOp-IsExchangeable k op_bxor = bitwise_n-IsExchangeable xor_digit-IsDigitOp k

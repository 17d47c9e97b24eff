-- ===== src/Reduce/Digits.antt =====
-- src/backend/reduce_ops.c: MACRO_BAND, MACRO_BOR and MACRO_BXOR, digit by digit.
use e_salsa_mpi.Prelude.{ℕ, zero, suc, ◌+◌, ◌*◌, ◌/◌, ◌%◌, ◌^◌, ◌<◌, ◌≡◌, refl, arith}
use e_salsa_mpi.Reduce.Types.{Integer, bits}
use e_salsa_mpi.Reduce.Defs.{bitwise_n, xor_digit}
use e_salsa_mpi.Reduce.Order.{IsExchangeable}
use Prim.Native.Nat.{min, max}
use native.Mathlib.Nat.{pow-suc}
use e_salsa_mpi.Reduce.Range.{InRange}

-- Operations on the two digits that keep to them.
pub record IsDigitOp (g : ℕ → ℕ → ℕ) : Type 0 where
  small : (a b : ℕ) → a < 2 → b < 2 → g a b < 2
  g_comm : (a b : ℕ) → a < 2 → b < 2 → g a b ≡ g b a
  g_assoc : (a b c : ℕ) → a < 2 → b < 2 → c < 2 → g (g a b) c ≡ g a (g b c)

-- The two parts of a number with the last digit `d`.
high : (x : ℕ) {d : ℕ} → d < 2 → (x * 2 + d) / 2 ≡ x
high x p = omega arith

low : (x : ℕ) {d : ℕ} → d < 2 → (x * 2 + d) % 2 ≡ d
low x p = omega arith

module _ {g : ℕ → ℕ → ℕ} (h : IsDigitOp g) where
  abbrev digit : ℕ → ℕ → ℕ
  digit a b = g (a % 2) (b % 2)

  bitwise_n-InRange : (n a b : ℕ) → bitwise_n g n a b < 2 ^ n
  bitwise_n-InRange zero a b = omega arith
  bitwise_n-InRange (suc n) a b = rw pow-suc (
      omega (
        arith,
        bitwise_n-InRange n (a / 2) (b / 2),
        h.small (a % 2) (b % 2) (omega arith) (omega arith),
      ))

  bitwise_n_comm : (n a b : ℕ) → bitwise_n g n a b ≡ bitwise_n g n b a
  bitwise_n_comm zero a b = refl
  bitwise_n_comm (suc n) a b =
      rw (bitwise_n_comm n (a / 2) (b / 2), h.g_comm (a % 2) (b % 2) (omega arith) (omega arith))
        refl

  bitwise_n_assoc :
      (n a b c : ℕ) → bitwise_n g n (bitwise_n g n a b) c ≡ bitwise_n g n a (bitwise_n g n b c)
  bitwise_n_assoc zero a b c = refl
  bitwise_n_assoc (suc n) a b c =
      let ab : digit a b < 2 = h.small (a % 2) (b % 2) (omega arith) (omega arith) in
      let bc : digit b c < 2 = h.small (b % 2) (c % 2) (omega arith) (omega arith) in
      rw
        (
          high (bitwise_n g n (a / 2) (b / 2)) ab,
          low (bitwise_n g n (a / 2) (b / 2)) ab,
          high (bitwise_n g n (b / 2) (c / 2)) bc,
          low (bitwise_n g n (b / 2) (c / 2)) bc,
          bitwise_n_assoc n (a / 2) (b / 2) (c / 2),
          h.g_assoc (a % 2) (b % 2) (c % 2) (omega arith) (omega arith) (omega arith),
        )
        refl

  pub bitwise_n-IsExchangeable : (k : Integer) → IsExchangeable (InRange k) (bitwise_n g (bits k))
  bitwise_n-IsExchangeable k = record {
    stays = λ a b p q. bitwise_n-InRange (bits k) a b;
    comm = λ a b p q. bitwise_n_comm (bits k) a b;
    assoc = λ a b c p q r. bitwise_n_assoc (bits k) a b c;
  }

pub min-IsDigitOp : IsDigitOp min
min-IsDigitOp = record {
  small = λ a b p q. omega arith;
  g_comm = λ a b p q. omega arith;
  g_assoc = λ a b c p q r. omega arith;
}

pub max-IsDigitOp : IsDigitOp max
max-IsDigitOp = record {
  small = λ a b p q. omega arith;
  g_comm = λ a b p q. omega arith;
  g_assoc = λ a b c p q r. omega arith;
}

pub xor_digit-IsDigitOp : IsDigitOp xor_digit
xor_digit-IsDigitOp = record {
  small = λ a b p q. omega arith;
  g_comm = λ a b p q. omega arith;
  g_assoc = λ a b c p q r. omega arith;
}

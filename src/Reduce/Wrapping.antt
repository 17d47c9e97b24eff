-- ===== src/Reduce/Wrapping.antt =====
-- src/backend/reduce_ops.c: MACRO_SUM and MACRO_PROD on integers that wrap around.
use e_salsa_mpi.Prelude.{ℕ, ◌+◌, ◌*◌, ◌/◌, ◌%◌, ◌^◌, ◌≡◌, sym, ap, ◌∙◌, arith}
use e_salsa_mpi.Reduce.Types.{Integer, bits}
use e_salsa_mpi.Reduce.Dispatch.{macro_sum, macro_prod}
use e_salsa_mpi.Reduce.Order.{IsExchangeable}
use native.Mathlib.Nat.{
  add-mul, mul_comm, mul_assoc, mod-add-mod, add-mod-mod, mod-lt, div-add-mod,
  mul-add-mod_self_left,
}
use e_salsa_mpi.Reduce.Range.{InRange, one-InRange}

gather_factor : (m q r b : ℕ) → m * (q * b) + r * b ≡ (m * q + r) * b
gather_factor m q r b = sym (add-mul (m * q) r b ∙ ap (λ (n : ℕ). n + r * b) (mul_assoc m q b))

mod-mul-mod : (m a b : ℕ) → (a % m * b) % m ≡ (a * b) % m
mod-mul-mod m a b =
    sym (mul-add-mod_self_left m (a / m * b) (a % m * b))
    ∙ ap (λ (n : ℕ). n % m)
        (gather_factor m (a / m) (a % m) b ∙ ap (λ (n : ℕ). n * b) (div-add-mod a m))

mul-mod-mod : (m a b : ℕ) → (a * (b % m)) % m ≡ (a * b) % m
mul-mod-mod m a b =
    ap (λ (n : ℕ). n % m) (mul_comm a (b % m))
    ∙ mod-mul-mod m b a
    ∙ ap (λ (n : ℕ). n % m) (mul_comm b a)

module _ (k : Integer) where
  pub sum-IsExchangeable : IsExchangeable (InRange k) (macro_sum k)
  sum-IsExchangeable = record {
    stays = λ a b p q. mod-lt (a + b) (omega (arith, one-InRange k));
    comm = λ a b p q. ap (λ (n : ℕ). n % 2 ^ bits k) (omega arith);
    assoc = λ a b c p q r.
        mod-add-mod (a + b) (2 ^ bits k) c
        ∙ ap (λ (n : ℕ). n % 2 ^ bits k) (omega arith)
        ∙ sym (add-mod-mod a (b + c) (2 ^ bits k));
  }

  pub prod-IsExchangeable : IsExchangeable (InRange k) (macro_prod k)
  prod-IsExchangeable = record {
    stays = λ a b p q. mod-lt (a * b) (omega (arith, one-InRange k));
    comm = λ a b p q. ap (λ (n : ℕ). n % 2 ^ bits k) (mul_comm a b);
    assoc = λ a b c p q r.
        mod-mul-mod (2 ^ bits k) (a * b) c
        ∙ ap (λ (n : ℕ). n % 2 ^ bits k) (mul_assoc a b c)
        ∙ sym (mul-mod-mod (2 ^ bits k) a (b * c));
  }

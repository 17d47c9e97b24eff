-- ===== src/Prelude/Bits.antt =====
-- Masks and shifts: `&` and `|` of C on unsigned numbers, read as `/`, `%` and `+`.
use Prim.Native.Nat.{
  ℕ, zero, suc, ◌+◌, ◌*◌, ◌/◌, ◌%◌, ◌^◌, ◌≤◌, ◌<◌, min, max, bit_and, bit_or, digits, bitwise,
  bit_and-bitwise, bit_or-bitwise,
}
use mathlib.Core.Path.{◌≡◌, refl, sym, ap, ◌∙◌}
use mathlib.Core.Logic.{dite}
use native.Mathlib.Decide.{dec_le}
use native.Mathlib.Nat.{pow-suc}
use native.Mathlib.Omega.{arith}

-- A digit operation `f`, which leaves `z b` of the digits `b` that stand above the first number.
module _ (z : ℕ → ℕ) (f : ℕ → ℕ → ℕ) where
  -- One round more than the first number asks for is never used.
  spare_round : (n a b : ℕ) → a ≤ n → digits z f (suc n) a b ≡ digits z f n a b
  spare_round n zero b h = at_zero n
    where
      at_zero : (k : ℕ) → z b ≡ digits z f k 0 b
      at_zero zero = refl
      at_zero (suc k) = refl
  spare_round zero (suc a) b h = absurd (omega arith)
  spare_round (suc n) (suc a) b h =
      ap (λ (d : ℕ). d * 2 + f (suc a % 2) (b % 2))
        (spare_round n (suc a / 2) (b / 2) (omega arith))

  enough_rounds : (n a b : ℕ) → a ≤ n → digits z f n a b ≡ bitwise z f a b
  enough_rounds zero zero b h = refl
  enough_rounds zero (suc a) b h = absurd (omega arith)
  enough_rounds (suc n) a b h =
      dite (dec_le a n) (λ below. spare_round n a b below ∙ enough_rounds n a b below)
        (λ above. ap (λ (k : ℕ). digits z f k a b) {x = suc n} {y = a} (omega arith))

  -- The lowest digit and the rest, for a first number that is not 0.
  lowest_digit :
      (a b : ℕ)
      → bitwise z f (suc a) b ≡ bitwise z f (suc a / 2) (b / 2) * 2 + f (suc a % 2) (b % 2)
  lowest_digit a b =
      ap (λ (d : ℕ). d * 2 + f (suc a % 2) (b % 2))
        (enough_rounds a (suc a / 2) (b / 2) (omega arith))

and_step : (a b : ℕ) → bit_and a b ≡ bit_and (a / 2) (b / 2) * 2 + min (a % 2) (b % 2)
and_step zero b = omega (arith, bit_and-bitwise 0 b, bit_and-bitwise 0 (b / 2))
and_step (suc a) b =
    bit_and-bitwise (suc a) b
    ∙ lowest_digit (λ _. zero) min a b
    ∙ ap (λ (d : ℕ). d * 2 + min (suc a % 2) (b % 2)) (sym (bit_and-bitwise (suc a / 2) (b / 2)))

or_step : (a b : ℕ) → bit_or a b ≡ bit_or (a / 2) (b / 2) * 2 + max (a % 2) (b % 2)
or_step zero b = omega (arith, bit_or-bitwise 0 b, bit_or-bitwise 0 (b / 2))
or_step (suc a) b =
    bit_or-bitwise (suc a) b
    ∙ lowest_digit (λ x. x) max a b
    ∙ ap (λ (d : ℕ). d * 2 + max (suc a % 2) (b % 2)) (sym (bit_or-bitwise (suc a / 2) (b / 2)))

and-zero_below : (n a : ℕ) → a ≤ n → bit_and a 0 ≡ 0
and-zero_below n zero h = refl
and-zero_below zero (suc a) h = absurd (omega arith)
and-zero_below (suc n) (suc a) h =
    omega (arith, and_step (suc a) 0, and-zero_below n (suc a / 2) (omega arith))

or-zero_below : (n a : ℕ) → a ≤ n → bit_or a 0 ≡ a
or-zero_below n zero h = refl
or-zero_below zero (suc a) h = absurd (omega arith)
or-zero_below (suc n) (suc a) h =
    omega (arith, or_step (suc a) 0, or-zero_below n (suc a / 2) (omega arith))

and_double :
    (a b i j : ℕ) → i < 2 → j < 2 → bit_and (a * 2 + i) (b * 2 + j) ≡ bit_and a b * 2 + min i j
and_double a b i j p q =
    let x : (a * 2 + i) / 2 ≡ a = omega arith in
    let y : (b * 2 + j) / 2 ≡ b = omega arith in
    let step : bit_and (a * 2 + i) (b * 2 + j)
        ≡ bit_and a b * 2 + min ((a * 2 + i) % 2) ((b * 2 + j) % 2) =
      rw (and_step (a * 2 + i) (b * 2 + j), x, y) refl in
    omega (arith, step)

or_double :
    (a b i j : ℕ) → i < 2 → j < 2 → bit_or (a * 2 + i) (b * 2 + j) ≡ bit_or a b * 2 + max i j
or_double a b i j p q =
    let x : (a * 2 + i) / 2 ≡ a = omega arith in
    let y : (b * 2 + j) / 2 ≡ b = omega arith in
    let step : bit_or (a * 2 + i) (b * 2 + j)
        ≡ bit_or a b * 2 + max ((a * 2 + i) % 2) ((b * 2 + j) % 2) =
      rw (or_step (a * 2 + i) (b * 2 + j), x, y) refl in
    omega (arith, step)

-- A mask of `k` ones; at a numeral it computes.
abbrev pub ones : ℕ → ℕ
ones zero = 0
ones (suc k) = ones k * 2 + 1

-- `a & (2^k - 1)` is `a % 2^k`: the quotient and the remainder are given by parts.
pub bit_and-ones : (k q r : ℕ) → r < 2 ^ k → bit_and (q * 2 ^ k + r) (ones k) ≡ r
bit_and-ones zero q r h = omega (arith, and-zero_below (q * 2 ^ 0 + r) (q * 2 ^ 0 + r))
bit_and-ones (suc k) q r h =
    let below : r / 2 < 2 ^ k = omega (arith, pow-suc 2 k) in
    let halves : q * 2 ^ suc k + r ≡ (q * 2 ^ k + r / 2) * 2 + r % 2 = rw pow-suc (omega arith) in
    rw halves (
      omega
        (arith, and_double (q * 2 ^ k + r / 2) (ones k) (r % 2) 1, bit_and-ones k q (r / 2) below))

pub bit_or-shift : (k h l : ℕ) → l < 2 ^ k → bit_or (h * 2 ^ k) l ≡ h * 2 ^ k + l
bit_or-shift zero h zero p = omega (arith, or-zero_below (h * 2 ^ 0) (h * 2 ^ 0))
bit_or-shift zero h (suc l) p = absurd (omega arith)
bit_or-shift (suc k) h l p =
    let below : l / 2 < 2 ^ k = omega (arith, pow-suc 2 k) in
    let high : h * 2 ^ suc k ≡ h * 2 ^ k * 2 + 0 = rw pow-suc (omega arith) in
    let low : bit_or (h * 2 ^ k * 2 + 0) l ≡ bit_or (h * 2 ^ k * 2 + 0) (l / 2 * 2 + l % 2) =
      ap (bit_or (h * 2 ^ k * 2 + 0)) (omega arith) in
    rw (high, low)
      (omega (arith, or_double (h * 2 ^ k) (l / 2) 0 (l % 2), bit_or-shift k h (l / 2) below))

pub bit_and-shift :
    (k h l m : ℕ) → l < 2 ^ k → bit_and (h * 2 ^ k + l) (m * 2 ^ k) ≡ bit_and h m * 2 ^ k
bit_and-shift zero h zero m p = simp (shift_zero, plus_zero)
  where
    shift_zero : (a : ℕ) → a * 2 ^ 0 ≡ a
    shift_zero a = omega arith

    plus_zero : (a : ℕ) → a + 0 ≡ a
    plus_zero a = omega arith
bit_and-shift zero h (suc l) m p = absurd (omega arith)
bit_and-shift (suc k) h l m p =
    let below : l / 2 < 2 ^ k = omega (arith, pow-suc 2 k) in
    let left : h * 2 ^ suc k + l ≡ (h * 2 ^ k + l / 2) * 2 + l % 2 = rw pow-suc (omega arith) in
    let right : m * 2 ^ suc k ≡ m * 2 ^ k * 2 + 0 = rw pow-suc (omega arith) in
    rw (left, right, pow-suc)
      (omega (
        arith,
        and_double (h * 2 ^ k + l / 2) (m * 2 ^ k) (l % 2) 0,
        bit_and-shift k h (l / 2) m below,
      ))

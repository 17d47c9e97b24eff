-- ===== src/Wire/Order.antt =====
-- Byte order and signs of the words of a message: both conversions are undone by their opposites.
use e_salsa_mpi.Prelude.{ℕ, ◌+◌, ◌*◌, ◌/◌, ◌%◌, ◌^◌, ◌<◌, ℤ, pos, negsuc, ◌≡◌, ◌∙◌, arith, tests}
use e_salsa_mpi.Wire.Words.{ntohl, htonl, word_of, int_of}

-- A number that an `int` holds.
abbrev pub IsInt : ℤ → Type 0
IsInt (pos n) = n < 2 ^ 31
IsInt (negsuc n) = n < 2 ^ 31

bytes :
    (a b c d : ℕ)
    → a < 256
    → b < 256
    → c < 256
    → d < 256
    → ntohl (((a * 256 + b) * 256 + c) * 256 + d) ≡ ((d * 256 + c) * 256 + b) * 256 + a
unfolding ntohl
bytes a b c d p q r s = omega arith

-- ntohl undoes htonl on 32-bit words.
pub ntohl-htonl : (w : ℕ) → w < 2 ^ 32 → ntohl (htonl w) ≡ w
unfolding ntohl
ntohl-htonl w h =
    let a : w
        ≡ ((w / 256 / 256 / 256 * 256 + w / 256 / 256 % 256) * 256 + w / 256 % 256) * 256
          + w % 256 =
      omega arith in
    bytes (w % 256) (w / 256 % 256) (w / 256 / 256 % 256) (w / 256 / 256 / 256 % 256) (omega arith)
      (omega arith) (omega arith) (omega arith)
    ∙ omega arith

pub word_of_below : (n : ℤ) → word_of n < 2 ^ 32
unfolding word_of
word_of_below (pos n) = omega arith
word_of_below (negsuc n) = omega arith

pub int_of-word_of : (n : ℤ) → IsInt n → int_of (word_of n) ≡ n
unfolding int_of word_of
int_of-word_of (pos n) h = grind tests
int_of-word_of (negsuc n) h = grind tests

-- ===== src/Wire/Words.antt =====
-- The words of a message to or from the server.
--
-- A message is the list of its 32-bit words, as a little-endian host reads them from memory; in it
-- the numbers are in network order. An `int` is an integer, a uint32_t a natural number.
use e_salsa_mpi.Prelude.{
  ℕ, ◌+◌, ◌-◌, ◌*◌, ◌/◌, ◌%◌, ◌^◌, ltb, if◌then◌else◌, Option, none, some, List, get_elem?, ℤ, pos,
  negsuc,
}
use e_salsa_mpi.Codes.{Code}

-- ntohl and htonl on a little-endian host: the four bytes in the opposite order.
unfoldable pub ntohl : ℕ → ℕ
ntohl w =
    ((w % 256 * 256 + w / 256 % 256) * 256 + w / 256 / 256 % 256) * 256 + w / 256 / 256 / 256 % 256

abbrev pub htonl : ℕ → ℕ
htonl w = ntohl w

-- The word that holds an `int`, and the `int` that a word holds.
unfoldable pub word_of : ℤ → ℕ
word_of (pos n) = n % 2 ^ 32
word_of (negsuc n) = 2 ^ 32 - 1 - n % 2 ^ 32

unfoldable pub int_of : ℕ → ℤ
int_of w = if ltb w (2 ^ 31) then pos w else negsuc (2 ^ 32 - 1 - w)

-- What a function that reads a message gives: a value, an error code, or a read behind the end of
-- the message.
pub data Access {ℓ} (A : Type ℓ) : Type ℓ where
  value : A → Access A
  failed : Code → Access A
  overrun : Access A

infixl 5 ◌>>=◌
abbrev pub ◌>>=◌ {ℓ κ} : {A : Type ℓ} {B : Type κ} → Access A → (A → Access B) → Access B
value a >>= f = f a
failed e >>= f = failed e
overrun >>= f = overrun

abbrev pub found {ℓ} : {A : Type ℓ} → Option A → Access A
found none = overrun
found (some a) = value a

-- The word at an index, in the order of the host: ntohl(msg[i]).
unfoldable pub host_word : List ℕ → ℕ → Access ℕ
host_word msg i = found (get_elem? msg i) >>= λ w. value (ntohl w)

-- The same as an `int`.
unfoldable pub host_int : List ℕ → ℕ → Access ℤ
host_int msg i = host_word msg i >>= λ w. value (int_of w)

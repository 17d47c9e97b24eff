-- ===== src/Reduce/Defs.antt =====
-- src/backend/reduce_ops.c: the macros on two elements, the loops over two arrays and the functions
-- EMPI_REDUCE_MAX .. EMPI_REDUCE_MINLOC.
--
-- An array is a function of the index. An integer is its bit pattern, a number below 2 ^ bits that
-- wraps around; what the compiler does with floating-point numbers is the parameter `fl`.
use e_salsa_mpi.Prelude.{
  ℕ, zero, suc, ◌+◌, ◌-◌, ◌*◌, ◌/◌, ◌%◌, ◌^◌, ltb, ◌==◌, if◌then◌else◌, Bool, not, ◌&&◌, ◌||◌, ℤ,
  pos, negsuc,
}
use e_salsa_mpi.Reduce.Types.{Integer, Floating, bits, is_signed}
use Prim.Native.Nat.{min, max}

pub record Floats (R : Type 0) : Type 0 where
  pub is_less : Floating → R → R → Bool
  pub is_equal : Floating → R → R → Bool
  pub plus : Floating → R → R → R
  pub minus : Floating → R → R → R
  pub times : Floating → R → R → R

-- Integers: a pattern read as the C type's value, moved up by 2 ^ (bits - 1) where it is signed.
abbrev pub order_key : Integer → ℕ → ℕ
order_key k a =
    if is_signed k
    then (if ltb a (2 ^ (bits k - 1)) then a + 2 ^ (bits k - 1) else a - 2 ^ (bits k - 1))
    else a

abbrev pub truth : ℕ → Bool
truth a = not (a == 0)

abbrev pub of_truth : Bool → ℕ
of_truth b = if b then 1 else 0

-- A digit operation on the lowest `n` binary digits.
abbrev pub bitwise_n : (ℕ → ℕ → ℕ) → ℕ → ℕ → ℕ → ℕ
bitwise_n g zero a b = 0
bitwise_n g (suc n) a b = bitwise_n g n (a / 2) (b / 2) * 2 + g (a % 2) (b % 2)

abbrev pub xor_digit : ℕ → ℕ → ℕ
xor_digit a b = (a + b) % 2

-- MACRO_LAND, MACRO_LOR and MACRO_LXOR, then MACRO_BAND, MACRO_BOR and MACRO_BXOR.
abbrev pub macro_land : ℕ → ℕ → ℕ
macro_land a b = of_truth (truth a && truth b)

abbrev pub macro_lor : ℕ → ℕ → ℕ
macro_lor a b = of_truth (truth a || truth b)

abbrev pub macro_lxor : ℕ → ℕ → ℕ
macro_lxor a b = of_truth ((truth a && not (truth b)) || (not (truth a) && truth b))

abbrev pub macro_band : Integer → ℕ → ℕ → ℕ
macro_band k a b = bitwise_n min (bits k) a b

abbrev pub macro_bor : Integer → ℕ → ℕ → ℕ
macro_bor k a b = bitwise_n max (bits k) a b

abbrev pub macro_bxor : Integer → ℕ → ℕ → ℕ
macro_bxor k a b = bitwise_n xor_digit (bits k) a b

-- MACRO_MAX and MACRO_MIN for a test `A < B`.
abbrev pub macro_max : {A : Type 0} → (A → A → Bool) → A → A → A
macro_max less a b = if less b a then a else b

abbrev pub macro_min : {A : Type 0} → (A → A → Bool) → A → A → A
macro_min less a b = if less a b then a else b

-- An element of one of the MPI_2INT-like structs.
pub record Located (A : Type 0) (B : Type 0) : Type 0 where
  pub value : A
  pub loc : B

-- The body of MAXLOC_FUNC and of MINLOC_FUNC: the new `inoutvec[i]` from `invec[i]` and the old one.
abbrev pub maxloc_body :
    {A B : Type 0}
    → (A → A → Bool)
    → (A → A → Bool)
    → (B → B → Bool)
    → Located A B
    → Located A B
    → Located A B
maxloc_body equal less less_loc x y =
    if equal y.value x.value
    then record { value = y.value; loc = macro_min less_loc y.loc x.loc }
    else (if less y.value x.value then record { value = x.value; loc = x.loc } else y)

abbrev pub minloc_body :
    {A B : Type 0}
    → (A → A → Bool)
    → (A → A → Bool)
    → (B → B → Bool)
    → Located A B
    → Located A B
    → Located A B
minloc_body equal less less_loc x y =
    if equal y.value x.value
    then record { value = y.value; loc = macro_min less_loc y.loc x.loc }
    else (if less x.value y.value then record { value = x.value; loc = x.loc } else y)

-- The loop of REDUCE_FUNC and of its variants: `n` rounds from `i` on.
abbrev pub write : {A : Type 0} → (ℕ → A) → ℕ → A → ℕ → A
write v i a j = if j == i then a else v j

unfoldable pub reduce_from : {A : Type 0} → (A → A → A) → (ℕ → A) → ℕ → ℕ → (ℕ → A) → ℕ → A
reduce_from f invec zero i inoutvec = inoutvec
reduce_from f invec (suc n) i inoutvec =
    reduce_from f invec n (suc i) (write inoutvec i (f (invec i) (inoutvec i)))

-- The rounds of `for (i=0; i < len; i++)`.
abbrev pub rounds : ℤ → ℕ
rounds (pos n) = n
rounds (negsuc n) = 0

unfoldable pub reduce_func : {A : Type 0} → (A → A → A) → (ℕ → A) → (ℕ → A) → ℤ → ℕ → A
reduce_func f invec inoutvec len = reduce_from f invec (rounds len) 0 inoutvec

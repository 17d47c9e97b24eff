-- ===== src/Reduce/Examples.antt =====
-- Reductions of short arrays.
use e_salsa_mpi.Prelude.{ℕ, zero, suc, none, some, pos, [], ◌∷◌, ◌≡◌, refl, arith}
use e_salsa_mpi.Reduce.Types.{c_char, c_int, logical, float}
use e_salsa_mpi.Reduce.Defs.{Located, reduce_func, reduce_from, macro_max, maxloc_body, minloc_body}
use e_salsa_mpi.Reduce.Dispatch.{less_int, equal_int, macro_sum, reduce_lxor, dispatch}
use e_salsa_mpi.Reduce.Loop.{gather, at, column}
use e_salsa_mpi.Reduce.Integers.{op_sum}
use e_salsa_mpi.Reduce.Choice.{IsChosen}
use e_salsa_mpi.Reduce.Location.{integer_comparison, IsUpper, IsSame, IsMaxloc, IsMinloc, IsLike}
use e_salsa_mpi.Reduce.Agreement.{Agree, cases-Agree}
use e_salsa_mpi.Reduce.Laws.{reduce-any_order, reduce-max, reduce-IsMaxloc, reduce-IsMinloc}
use mathlib.Core.List.{Permᴰ}

-- 100, 100, ..  200, 201, ..
abbrev hundreds : ℕ → ℕ
hundreds j = 100

abbrev from_200 : ℕ → ℕ
from_200 zero = 200
from_200 (suc j) = 201

-- 300 wraps around in a char.
sum-wraps : at 0 (gather (macro_sum c_char) (hundreds ∷ from_200 ∷ []) (pos 2)) ≡ some 44
unfolding gather reduce_func reduce_from
sum-wraps = refl

reduce-any_order_example :
    at 1 (gather (macro_sum c_char) (hundreds ∷ from_200 ∷ []) (pos 2))
    ≡ at 1 (gather (macro_sum c_char) (from_200 ∷ hundreds ∷ []) (pos 2))
reduce-any_order_example =
    reduce-any_order c_char op_sum (pos 2) 1 (hundreds ∷ from_200 ∷ []) (from_200 ∷ hundreds ∷ [])
      (Permᴰ.swap refl refl) (omega arith) (omega arith, (omega arith, tt))

-- As signed chars 200 is -56.
reduce-max_example :
    IsChosen
      (IsUpper (integer_comparison c_char))
      (IsSame (integer_comparison c_char))
      (column 0 (hundreds ∷ from_200 ∷ []))
      (at 0 (gather (macro_max (less_int c_char)) (hundreds ∷ from_200 ∷ []) (pos 2)))
reduce-max_example =
    reduce-max (integer_comparison c_char) hundreds (from_200 ∷ []) (pos 2) 0 (omega arith)

max-signed :
    at 0 (gather (macro_max (less_int c_char)) (hundreds ∷ from_200 ∷ []) (pos 2)) ≡ some 100
unfolding gather reduce_func reduce_from
max-signed = refl

-- The value 7 at the location `n`.
abbrev seven_at : ℕ → ℕ → Located ℕ ℕ
seven_at n j = record { value = 7; loc = n }

reduce-IsMaxloc_example :
    IsChosen
      (IsMaxloc (integer_comparison c_int) (integer_comparison c_int))
      (IsLike (integer_comparison c_int) (integer_comparison c_int))
      (column 0 (seven_at 2 ∷ seven_at 1 ∷ []))
      (at 0 (
        gather
          (maxloc_body (equal_int c_int) (less_int c_int) (less_int c_int))
          (seven_at 2 ∷ seven_at 1 ∷ [])
          (pos 1)))
reduce-IsMaxloc_example =
    reduce-IsMaxloc (integer_comparison c_int) (integer_comparison c_int) (seven_at 2)
      (seven_at 1 ∷ []) (pos 1) 0 (omega arith)

reduce-IsMinloc_example :
    IsChosen
      (IsMinloc (integer_comparison c_int) (integer_comparison c_int))
      (IsLike (integer_comparison c_int) (integer_comparison c_int))
      (column 0 (seven_at 2 ∷ seven_at 1 ∷ []))
      (at 0 (
        gather
          (minloc_body (equal_int c_int) (less_int c_int) (less_int c_int))
          (seven_at 2 ∷ seven_at 1 ∷ [])
          (pos 1)))
reduce-IsMinloc_example =
    reduce-IsMinloc (integer_comparison c_int) (integer_comparison c_int) (seven_at 2)
      (seven_at 1 ∷ []) (pos 1) 0 (omega arith)

cases-Agree_example : Agree logical
cases-Agree_example = cases-Agree logical

float-lxor : reduce_lxor none float tt tt (pos 1) ≡ none
unfolding reduce_lxor dispatch
float-lxor = refl

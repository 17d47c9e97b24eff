-- ===== src/Operations/Defs.antt =====
-- src/backend/operation.c: the table of reduction operations.
--
-- An `operation *` is the index of its entry in the table `ops`. Functions and MPI's own operations
-- are numbers that the code only passes on.
use e_salsa_mpi.Prelude.{
  ℕ, suc, ◌==◌, ltb, leb, if◌then◌else◌, Bool, true, false, Option, none, some, List, [], ◌∷◌, ℤ,
  pos, negsuc,
}
use e_salsa_mpi.Codes.{err_intern, Result, ok, err, max_operations}

pub record Operation : Type 0 where
  pub handle : ℤ
  pub function : ℕ
  pub commute : Bool
  pub op : ℕ

-- The static variables `ops` and `next_operation`.
pub record Operations : Type 0 where
  pub ops : ℕ → Option Operation
  pub next_operation : ℕ

-- How init_operation ends; `fault` is an access to the table behind its end.
pub data Outcome : Type 0 where
  done : Result (Unit {0}) → Operations → Outcome
  fault : Outcome

-- The table with the new operation at `k`, and next_operation behind it.
abbrev pub store : ℕ → Operation → Operations → Operations
store k o s = record {
  ops = λ j. if j == k then some o else s.ops j;
  next_operation = if leb s.next_operation k then suc k else s.next_operation;
}

abbrev pub init_entry : Bool → ℕ → Operation → Operations → Option Operation → Outcome
init_entry malloc k o s (some old) = done (err err_intern) s
init_entry false k o s none = done (err err_intern) s
init_entry true k o s none = done (ok tt) (store k o s)

-- The first argument is whether malloc gives a block.
unfoldable pub init_operation : Bool → ℤ → ℕ → ℕ → Bool → Operations → Outcome
init_operation malloc (negsuc k) function op commute s = done (err err_intern) s
init_operation malloc (pos k) function op commute s =
    if ltb max_operations k
    then done (err err_intern) s
    else if k == max_operations
    then fault
    else init_entry malloc k
        (record { handle = pos k; function = function; commute = commute; op = op }) s (s.ops k)

abbrev pub and_then : Outcome → (Operations → Outcome) → Outcome
and_then (done (ok _) s) f = f s
and_then (done (err e) s) f = done (err e) s
and_then fault f = fault

-- The calls of init_operation for the predefined operations, whose handles are the numbers from
-- EMPI_OP_NULL to EMPI_LXOR; `function` and `op` give what EMPI and MPI have for each of them, and
-- `malloc` whether there is memory for it.
unfoldable pub init_all : (ℕ → Bool) → (ℕ → ℕ) → (ℕ → ℕ) → List ℕ → Operations → Outcome
init_all malloc function op [] s = done (ok tt) s
init_all malloc function op (k ∷ ks) s =
    and_then (init_operation (malloc k) (pos k) (function k) (op k) true s)
      (init_all malloc function op ks)

abbrev pub predefined : List ℕ
predefined = 0 ∷ 1 ∷ 2 ∷ 3 ∷ 4 ∷ 5 ∷ 6 ∷ 7 ∷ 8 ∷ 9 ∷ 10 ∷ 11 ∷ 12 ∷ []

unfoldable pub init_operations : (ℕ → Bool) → (ℕ → ℕ) → (ℕ → ℕ) → Operations → Outcome
init_operations malloc function op s =
    init_all malloc function op predefined (record s { ops = λ j. none })

unfoldable pub handle_to_operation : ℤ → Operations → Option Operation
handle_to_operation (pos k) s = if leb max_operations k then none else s.ops k
handle_to_operation (negsuc k) s = none

unfoldable pub operation_to_handle : Option Operation → ℤ
operation_to_handle none = negsuc 0
operation_to_handle (some o) = o.handle

-- What create_operation returns, `none` for NULL, and the table.
pub data Created : Type 0 where
  created : Option ℕ → Operations → Created
  fault : Created

abbrev pub returned : ℕ → Outcome → Created
returned handle (done (ok _) s) = created (some handle) s
returned handle (done (err e) s) = created none s
returned handle fault = fault

unfoldable pub create_operation : Bool → ℕ → ℕ → Bool → Operations → Created
create_operation malloc function op commute s = returned s.next_operation (
    init_operation malloc (pos s.next_operation) function op commute
      (record s { next_operation = suc s.next_operation }))

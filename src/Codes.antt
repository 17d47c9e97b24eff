-- ===== src/Codes.antt =====
-- The return codes and special values of src/backend/empi.h that the modelled code uses, and the
-- table sizes of src/shared/settings.h.
use e_salsa_mpi.Prelude.{ℕ, ℤ, negsuc}

-- The EMPI return codes that the modelled code uses; `mpi e` is an error that a PMPI call returned
-- and TRANSLATE_ERROR, which is the identity in this build, passes on.
pub data Code : Type 0 where
  err_type err_comm err_rank err_request err_group err_op err_arg err_intern err_in_status : Code
  mpi : ℕ → Code

-- What a function returns that has an EMPI return code and one result: EMPI_SUCCESS with the result,
-- or another code.
pub data Result {ℓ} (A : Type ℓ) : Type ℓ where
  ok : A → Result A
  err : Code → Result A

infixl 5 ◌>>=◌
abbrev pub ◌>>=◌ {ℓ κ} : {A : Type ℓ} {B : Type κ} → Result A → (A → Result B) → Result B
ok a >>= f = f a
err e >>= f = err e

abbrev pub max_communicators : ℕ
max_communicators = 1024

abbrev pub max_groups : ℕ
max_groups = 1024

abbrev pub max_requests : ℕ
max_requests = 1024

abbrev pub max_operations : ℕ
max_operations = 256

abbrev pub max_datatypes : ℕ
max_datatypes = 10240

abbrev pub max_infos : ℕ
max_infos = 64

abbrev pub any_source : ℤ
any_source = negsuc 0

abbrev pub any_tag : ℤ
any_tag = negsuc 0

-- EMPI_UNDEFINED, -32766.
abbrev pub undefined : ℤ
undefined = negsuc 32765

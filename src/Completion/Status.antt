-- ===== src/Completion/Status.antt =====
-- src/backend/status.c, and the functions on a status of src/backend/empi.c.
--
-- A pointer to a status is `none` for EMPI_STATUS_IGNORE, and otherwise the status that it points to; a
-- datatype is its handle, and `datatype_null` is EMPI_DATATYPE_NULL.
use e_salsa_mpi.Prelude.{
  ℕ, ◌==◌, if◌then◌else◌, Bool, false, not, Option, none, some, ℤ, pos, ◌==ℤ◌,
}
use e_salsa_mpi.Codes.{Result, ok, err, err_arg, err_type, any_source, any_tag, undefined}

pub record Status : Type 0 where
  pub source : ℤ
  pub tag : ℤ
  pub error : Result (Unit {0})
  pub count : ℤ
  pub cancelled : Bool
  pub type : ℕ

abbrev pub datatype_null : ℕ
datatype_null = 0

unfoldable pub set_status : Option Status → ℤ → ℤ → Result (Unit {0}) → ℕ → ℤ → Bool → Option Status
set_status none source tag error type count cancelled = none
set_status (some s) source tag error type count cancelled = some (record {
  source = source;
  tag = tag;
  error = error;
  count = count;
  cancelled = cancelled;
  type = type;
})

unfoldable pub clear_status : Option Status → Option Status
clear_status none = none
clear_status (some s) = some (record {
  source = any_source;
  tag = any_tag;
  error = ok tt;
  count = pos 0;
  cancelled = false;
  type = datatype_null;
})

unfoldable pub set_status_error : Option Status → ℤ → ℤ → Result (Unit {0}) → ℕ → Option Status
set_status_error s source tag error type = set_status s source tag error type (pos 0) false

-- A type that is NULL is `none`.
abbrev pub handle_of : Option ℕ → ℕ
handle_of none = datatype_null
handle_of (some t) = t

unfoldable pub set_status_count : Option Status → Option ℕ → ℤ → Option Status
set_status_count none type count = none
set_status_count (some s) type count = some (record s { type = handle_of type; count = count })

unfoldable pub set_status_cancelled : Option Status → Bool → Option Status
set_status_cancelled none flag = none
set_status_cancelled (some s) flag = some (record s { cancelled = flag })

abbrev pub count_of_null : Status → Result ℤ
count_of_null s = if s.count ==ℤ pos 0 then ok (pos 0) else ok undefined

-- `*result`, where the function returns EMPI_SUCCESS.
unfoldable pub get_count : Option Status → ℕ → Result ℤ
get_count none t = err err_arg
get_count (some s) t =
    if s.type == datatype_null
    then (if t == datatype_null then count_of_null s else err err_type)
    else if not (s.type == t)
    then err err_type
    else ok s.count

unfoldable pub get_elements : Option Status → ℕ → Result ℤ
get_elements s t = get_count s t

-- The first argument is handle_to_datatype.
unfoldable pub status_set_elements :
    (ℕ → Option ℕ) → Option Status → ℕ → ℤ → Result (Unit {0}) × Option Status
status_set_elements find none t count = (err err_arg, none)
status_set_elements find (some s) t count = found (find t)
  where
    found : Option ℕ → Result (Unit {0}) × Option Status
    found none = (err err_type, some s)
    found (some type) = (ok tt, set_status_count (some s) (some type) count)

unfoldable pub status_set_cancelled : Option Status → Bool → Result (Unit {0}) × Option Status
status_set_cancelled none flag = (err err_arg, none)
status_set_cancelled (some s) flag = (ok tt, set_status_cancelled (some s) flag)

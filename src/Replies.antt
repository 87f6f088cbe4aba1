-- ===== src/Replies.antt =====
-- utilsx/error.go: an error is written into the fields Code and Msg of a response, by reflection.
pub mod Panics
use go_vkit.Prelude.{
  Bool, true, false, List, [], ◌∷◌, Option, none, some, codes, Bytes, ℤ, pos, negsuc,
}
use go_vkit.Errors.{Error, net, errno, other}
use go_vkit.Server.Handler.{Outcome, returned, panicked}

-- A value of `reflect.ValueOf`: the Code of a NetError is an int32, a literal or a parameter an int.
pub data Value : Type 0 where
  of_int : ℤ → Value
  of_int32 : ℤ → Value
  of_string : Bytes → Value

-- What FieldByName finds: no field that can be set, one of type int, int32 or string, an interface that all
-- of these have, or another type that none of these can be assigned to.
pub data Field : Type 0 where
  unset : Field
  int : ℤ → Field
  int32_field : ℤ → Field
  string : Bytes → Field
  any : Value → Field
  other_field : Field

pub record Response : Type 0 where
  pub code : Field
  pub msg : Field

-- `if f.CanSet() { f.Set(v) }`; Set panics where the value cannot be assigned.
pub set_value : Field → Value → Outcome Field
set_value unset v = returned unset
set_value (int n) (of_int m) = returned (int m)
set_value (int32_field n) (of_int32 m) = returned (int32_field m)
set_value (string s) (of_string t) = returned (string t)
set_value (any w) v = returned (any v)
set_value f v = panicked (codes "reflect.Set: value is not assignable")

with_msg : Field → Outcome Field → Outcome Response
with_msg c (returned m) = returned (record { code = c; msg = m })
with_msg c (panicked e) = panicked e

-- Code first, then Msg.
unfoldable pub set_fields : Response → (code msg : Value) → Outcome Response
unfolding set_value with_msg
set_fields resp code msg = elim (set_value resp.code code) [
  | panicked e ↦ panicked e
  | returned c ↦ with_msg c (set_value resp.msg msg)
]

-- `text` is the method Error.
module _ (text : Error → Bytes) where
  fetch_err_with_code : Response → (code : ℤ) → Error → Outcome Response
  unfolding set_fields
  fetch_err_with_code resp code (net e) = set_fields resp (of_int32 e.code) (of_string e.msg)
  fetch_err_with_code resp code (errno e) =
      set_fields resp (of_int code) (of_string (text (errno e)))
  fetch_err_with_code resp code (other e) =
      set_fields resp (of_int code) (of_string (text (other e)))

  pub fetch_err : Response → Error → Outcome Response
  unfolding set_fields
  fetch_err resp (net e) = set_fields resp (of_int32 e.code) (of_string e.msg)
  fetch_err resp (errno e) = set_fields resp (of_int (negsuc 0)) (of_string (text (errno e)))
  fetch_err resp (other e) = set_fields resp (of_int (negsuc 0)) (of_string (text (other e)))

  pub err_msg : Error → Bytes
  err_msg (net e) = e.msg
  err_msg (errno e) = text (errno e)
  err_msg (other e) = text (other e)

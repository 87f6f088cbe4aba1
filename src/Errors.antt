-- ===== src/Errors.antt =====
-- errorsx/errno.go and errorsx/neterrors/neterrors.go: the errors that the parts pass to each other.
-- `sprintf` is fmt.Sprintf on a format with no operands: the code hands it finished messages.
pub mod Codes
use go_vkit.Prelude.{
  ℕ, ◌||◌, Bool, true, false, Option, none, some, ℤ, pos, negsuc, ◌+ℤ◌, ◌*ℤ◌, ltb_ℤ, int32,
  if◌then◌else◌, Bytes, codes,
}

pub record NetError : Type 0 where
  pub code : ℤ
  pub status : ℕ
  pub msg : Bytes

pub record Errno : Type 0 where
  pub project : ℤ
  pub code : ℤ
  pub msg : Bytes

-- A Go `error` that is not nil, by its dynamic type; of other types the code reads the text alone.
pub data Error : Type 0 where
  net : NetError → Error
  errno : Errno → Error
  other : Bytes → Error

-- NewErrno, with `none` for its panics. The code is computed in int32.
pub new_errno : ℤ → ℤ → Bytes → Option Errno
new_errno project code msg =
    if ltb_ℤ (pos 1000) project || ltb_ℤ (pos 999) code
    then none
    else some (record { project = project; code = int32 (project *ℤ 1000 +ℤ code); msg = msg })

-- Fail keeps the codes and takes a message.
pub fail : Errno → Bytes → Errno
fail e msg = record { project = e.project; code = e.code; msg = msg }

module _ (sprintf : Bytes → Bytes) where
  with_status : ℕ → Bytes → NetError
  with_status status format = record { code = negsuc 0; status = status; msg = sprintf format }

  unfoldable pub business_error : ℤ → Bytes → NetError
  business_error code format = record { code = code; status = 200; msg = sprintf format }

  unfoldable pub bad_request : Bytes → NetError
  unfolding with_status
  bad_request = with_status 400

  unfoldable pub forbidden : Bytes → NetError
  unfolding with_status
  forbidden = with_status 403

  unfoldable pub not_found : Bytes → NetError
  unfolding with_status
  not_found = with_status 404

  unfoldable pub timeout : Bytes → NetError
  unfolding with_status
  timeout = with_status 408

  unfoldable pub internal_server_error : Bytes → NetError
  unfolding with_status
  internal_server_error = with_status 500

  unfoldable pub service_unavailable : Bytes → NetError
  unfolding with_status
  service_unavailable = with_status 503

  unfoldable pub unauthorized : Bytes → NetError
  unfolding with_status
  unauthorized = with_status 401

  unfoldable pub method_not_allowed : Bytes → NetError
  unfolding with_status
  method_not_allowed = with_status 405

  unfoldable pub conflict : Bytes → NetError
  unfolding with_status
  conflict = with_status 409

  unfoldable pub not_implemented : Bytes → NetError
  unfolding with_status
  not_implemented = with_status 501

  unfoldable pub bad_gateway : Bytes → NetError
  unfolding with_status
  bad_gateway = with_status 502

  unfoldable pub gateway_timeout : Bytes → NetError
  unfolding with_status
  gateway_timeout = with_status 504

-- What json.Unmarshal does to a new NetError: it fills it, or fails, perhaps with some fields filled.
pub data Unmarshalled : Type 0 where
  whole : NetError → Unmarshalled
  partial : NetError → Unmarshalled

-- `json` is the method Error.
module _ (unmarshal : Bytes → Unmarshalled) (json : NetError → Bytes) where
  parsed : Unmarshalled → NetError
  parsed (whole e) = e
  parsed (partial e) = record e { msg = json e }

  unfoldable pub parse : Bytes → NetError
  unfolding parsed
  parse s = parsed (unmarshal s)

  -- FromError of an error that is not nil, with its method Error.
  unfoldable pub from_error : (Error → Bytes) → Error → NetError
  unfolding parse
  from_error text (net e) = e
  from_error text (errno e) = parse (text (errno e))
  from_error text (other e) = parse (text (other e))

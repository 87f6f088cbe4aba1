-- ===== src/Gate/Front.antt =====
-- What GrpcHandler.Handle and NativeHandler.Handle of gate/ share: the checks of a request before the
-- interceptors, ErrorResponse of gate/function.go, and the handlers' deferred recover.
pub mod Paths
pub mod Replies
use go_vkit.Prelude.{
  ℕ, ◌++◌, Bool, true, false, ◌||◌, not, List, [], ◌∷◌, Option, none, some, codes, Bytes, bytes_eq,
  take, ltb, if◌then◌else◌, negsuc,
}
use go_vkit.Strings.{to_upper, index, split}
use go_vkit.Strings.Decimal.{format_uint}
use go_vkit.Errors.{NetError, Error, net, errno, other, bad_request, internal_server_error}
use go_vkit.Routes.{is_empty}
use go_vkit.Server.Handler.{Outcome, returned, panicked, MaybeError}

-- What is written to the http.ResponseWriter.
pub data Reply : Type 0 where
  nothing : Reply
  error_reply : NetError → Reply
  content : Bytes → Reply

-- The message of an error that is no NetError, in UTF-8.
abbrev pub system_error : Bytes
system_error =
    0xe7 ∷ 0xb3 ∷ 0xbb ∷ 0xe7 ∷ 0xbb ∷ 0x9f ∷ 0xe9 ∷ 0x94 ∷ 0x99 ∷ 0xe8 ∷ 0xaf ∷ 0xaf ∷ []

unfoldable pub net_error_of : Error → NetError
net_error_of (net e) = e
net_error_of (errno e) = record { code = negsuc 0; status = 400; msg = system_error }
net_error_of (other e) = record { code = negsuc 0; status = 400; msg = system_error }

-- WriteHeader of net/http panics for a status of other than three digits.
unfoldable pub error_response : Error → Outcome Reply
unfolding net_error_of
error_response e =
    let n = net_error_of e in
    if ltb n.status 100 || ltb 999 n.status
    then panicked (codes "invalid WriteHeader code " ++ format_uint n.status)
    else returned (error_reply n)

-- DefaultErrHandler
unfoldable pub default_err_handler : (Bytes → Bytes) → Bytes → Outcome Reply
default_err_handler sprintf r =
    error_response
      (net (internal_server_error sprintf (codes "[gate] panic recovered:" ++ (r ++ codes " "))))

-- The deferred recover, with `none` for a nil ErrHandler.
unfoldable pub recovered : Option (Bytes → Outcome Reply) → Outcome Reply → Outcome Reply
recovered handler (returned r) = returned r
recovered none (panicked r) = returned nothing
recovered (some handler) (panicked r) = handler r

unfoldable pub cut_at : Option ℕ → Bytes → Bytes
cut_at none s = s
cut_at (some i) s = take i s

-- The content type without its parameters.
unfoldable pub media_type : Bytes → Bytes
unfolding cut_at
media_type s = cut_at (index s (codes ";")) s

-- `path[2]` and `path[3]`, where the path has more than three parts.
unfoldable pub path_names : List Bytes → Bytes × Bytes
path_names (a ∷ b ∷ service ∷ endpoint ∷ rest) = (service, endpoint)
path_names _ = ([], [])

unfoldable pub names_of : Bytes → Bytes × Bytes
unfolding path_names
names_of uri = path_names (split uri b'/')

-- The messages in which the two handlers differ, of the method and the URL.
pub record Messages : Type 0 where
  pub bad_method : Bytes → Bytes → Bytes
  pub no_service : Bytes → Bytes
  pub no_endpoint : Bytes → Bytes

-- The request goes on with its service and endpoint, or has its reply.
pub data Checked : Type 0 where
  go_on : (service endpoint : Bytes) → Checked
  stop : Outcome Reply → Checked

module _ (sprintf : Bytes → Bytes) (m : Messages) where
  check_names : Bytes → Bytes × Bytes → Checked
  check_names uri (service, endpoint) =
      if is_empty service
      then stop (error_response (net (bad_request sprintf (m.no_service uri))))
      else if is_empty endpoint
      then stop (error_response (net (bad_request sprintf (m.no_endpoint uri))))
      else go_on service endpoint

  -- `auth` is nil, or returns nil or an error on this request, or panics; it is taken to write no reply itself.
  check_auth : Option (Outcome MaybeError) → Bytes → Checked
  unfolding check_names
  check_auth (some (panicked r)) uri = stop (panicked r)
  check_auth (some (returned (some e))) uri = stop (error_response e)
  check_auth (some (returned none)) uri = check_names uri (names_of uri)
  check_auth none uri = check_names uri (names_of uri)

  unfoldable pub check : Option (Outcome MaybeError) → (method uri : Bytes) → Checked
  unfolding check_auth
  check auth method uri =
      let upper = to_upper method in
      if bytes_eq upper (codes "OPTIONS")
      then stop (returned nothing)
      else if not (bytes_eq upper (codes "POST"))
      then stop (error_response (net (bad_request sprintf (m.bad_method upper uri))))
      else check_auth auth uri

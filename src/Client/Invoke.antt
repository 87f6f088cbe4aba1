-- ===== src/Client/Invoke.antt =====
-- Invoke of grpcclient/client.go, and InvokeByGate of grpcclient/utils.go, which the gate calls. What
-- gRPC answers is an argument.
pub mod Lost
pub mod Passed
pub mod Typed
pub mod Removal
use go_vkit.Prelude.{
  ℕ, suc, Bool, true, false, ◌++◌, ◌==◌, List, [], ◌∷◌, Option, none, some, codes, Bytes, GoMap,
  lookup, insert, ltb, if◌then◌else◌, ℤ, pos, negsuc, ◌*ℤ◌, length, drop, is_some,
}
use go_vkit.Strings.{to_lower, index}
use go_vkit.Strings.Decimal.{format_int}
use go_vkit.Codec.{Codec, codec_for}
use go_vkit.Metadata.{Metadata}
use go_vkit.Routes.{method_to_grpc}
use go_vkit.Errors.{
  NetError, Error, net, errno, other, bad_request, timeout, service_unavailable, Unmarshalled,
  parse,
}

-- `header[strings.ToLower(k)] = v`
unfoldable pub lower_keys : Metadata → GoMap Bytes → GoMap Bytes
lower_keys [] header = header
lower_keys ((k, v) ∷ md) header = lower_keys md (insert (to_lower k) v header)

unfoldable pub header_of : Option Metadata → GoMap Bytes
unfolding lower_keys
header_of none = []
header_of (some md) = lower_keys md []

unfoldable pub limit_of : Option ℤ → ℤ → ℤ
limit_of none d = d
limit_of (some r) d = r

unfoldable pub or_default : Option Bytes → Bytes → Bytes
or_default none d = d
or_default (some v) d = v

abbrev pub timeout_key : Bytes
timeout_key = codes "timeout"

abbrev pub x_content_type : Bytes
x_content_type = codes "x-content-type"

-- The time limit of a call without a deadline, from the header where that has a number of seconds.
-- `atoi` is strconv.Atoi, `seconds` the product with time.Second in 64 bits.
unfoldable pub request_timeout : (Bytes → Option ℤ) → (ℤ → ℤ) → ℤ → Option Bytes → ℤ
request_timeout atoi seconds default none = default
request_timeout atoi seconds default (some t) = elim (atoi t) [
  | none ↦ default
  | some n ↦ seconds n
]

-- What a call sends: the path, the headers, the codec if there is one, and the time limit.
pub record Sent : Type 0 where
  pub path : Bytes
  pub header : GoMap Bytes
  pub codec : Option Codec
  pub limit : ℤ

-- `remaining` is the time until the deadline of the context, if that has one.
unfoldable pub prepare :
    (atoi : Bytes → Option ℤ) (seconds : ℤ → ℤ) (default : ℤ)
    → Option Metadata
    → (remaining : Option ℤ) → (service endpoint : Bytes) → Sent
unfolding header_of limit_of or_default request_timeout format_int
prepare atoi seconds default md remaining service endpoint =
    let header = header_of md in
    let xct = or_default (lookup x_content_type header) (codes "application/grpc") in
    let limit =
      limit_of remaining (request_timeout atoi seconds default (lookup timeout_key header)) in
    record {
      path = method_to_grpc service endpoint;
      header = insert x_content_type xct (insert timeout_key (format_int limit) header);
      codec = codec_for xct;
      limit = limit;
    }

-- What becomes of a call: gRPC returns, with the text of its error or `none`, or the time is over first.
pub data Answer : Type 0 where
  answered : Option Bytes → Answer
  expired : (ctx_err : Bytes) → Answer

-- Of a call: the error it returns, what the pool is told of the connection that it took, whether the
-- client was removed; or a panic in the goroutine that calls gRPC, which ends the program.
pub data Invoked : Type 0 where
  before : NetError → Invoked
  after : Option NetError → (released : Option NetError) → (removed : Bool) → Invoked
  crashed : Invoked

-- fmt.Sprintf of a finished message, the conversions between strings and runes, json.Unmarshal into a
-- NetError, and the method Error of a NetError.
pub record Texts : Type 0 where
  pub sprintf : Bytes → Bytes
  pub runes : Bytes → List ℕ
  pub of_runes : List ℕ → Bytes
  pub unmarshal : Bytes → Unmarshalled
  pub json : NetError → Bytes

module _ (texts : Texts) where
  open texts use {sprintf, runes, of_runes, unmarshal, json}

  -- A message with an operand that is put in as it is.
  plain : Bytes → NetError
  plain m = bad_request (λ b. b) m

  -- The index is one of bytes, the slice one of runes, which has none of its elements past the end.
  parse_from : ℕ → Bytes → Option NetError
  parse_from i text =
      if ltb (length (runes text)) i
      then none
      else some (parse unmarshal json (of_runes (drop i (runes text))))

  not_json : Option ℕ → Bytes → NetError
  unfolding plain
  not_json none text = plain (codes "[grpcclient] req fail " ++ text)
  not_json (some i) text = service_unavailable sprintf text

  -- The error for a text of gRPC's, `none` for the panic of the slice.
  error_at : Option ℕ → Bytes → Option NetError
  unfolding parse_from not_json
  error_at none text = some (not_json (index text (codes "code = Unavailable")) text)
  error_at (some i) text = parse_from i text

  unfoldable pub error_of : Bytes → Option NetError
  unfolding error_at
  error_of text = error_at (index text (codes "{\"")) text

  -- The deferred function.
  finish : Option NetError → Invoked
  finish none = after none none false
  finish (some e) = after (some e) (some e) (e.status == 503)

  answer : Answer → Invoked
  unfolding finish plain
  answer (answered none) = finish none
  answer (answered (some text)) = elim (error_of text) [ none ↦ crashed | some e ↦ finish (some e) ]
  answer (expired ctx_err) =
      finish (some (timeout (λ b. b) (codes "[grpcclient] req fail " ++ ctx_err)))

  connected : Option Bytes → Answer → Invoked
  unfolding answer plain
  connected (some e) a = before (plain (codes "[grpcclient] Error sending request: " ++ e))
  connected none a = answer a

  with_codec : Option Codec → Option Bytes → Answer → Invoked
  unfolding connected
  with_codec none dial a = before (bad_request sprintf (codes "[grpcclient] codec not found"))
  with_codec (some c) dial a = connected dial a

  -- `dial` is the error of getConn.
  unfoldable pub invoke : Sent → (dial : Option Bytes) → Answer → Invoked
  unfolding with_codec
  invoke sent dial a = with_codec sent.codec dial a

  -- The error that InvokeByGate returns: every error of Invoke is a NetError.
  unfoldable pub invoke_by_gate : Invoked → Option NetError
  invoke_by_gate (before e) = some e
  invoke_by_gate (after e released removed) = e
  invoke_by_gate crashed = none

-- ===== src/Server/Process.antt =====
-- processRequest, processStream and handler of grpcserver/grpcserver.go, as a whole. The stream and the
-- service's method are arguments: what they return or whether they panic.
pub mod Answers
pub mod Called
pub mod Errors
use go_vkit.Prelude.{
  ℕ, ◌++◌, Bool, true, false, ◌||◌, List, [], ◌∷◌, Option, none, some, codes, Bytes, GoMap,
  if◌then◌else◌, ℤ, negsuc,
}
use go_vkit.Errors.{NetError, Error, net, errno, other, business_error, bad_request, not_found}
use go_vkit.Codec.{Codec, json, proto, codec_for}
use go_vkit.Server.Registry.{HandlerInfo, Handlers}
use go_vkit.Server.Wrappers.{wrap_all}
use go_vkit.Server.Headers.{Headers, read_headers}
use go_vkit.Server.Handler.{
  Outcome, returned, panicked, MaybeError, Texts, Route, to, refused, route, recovered, call_method,
}

-- GrpcRequest, less its payload: the pointer to the parameter, which the functions here hold anyway.
pub record GrpcRequest : Type 0 where
  pub service : Bytes
  pub content_type : Bytes
  pub method : Bytes
  pub stream : Bool

-- HandlerFunc, with the pointer to the reply left out in the same way.
abbrev pub HandlerFunc {ℓ} : Type ℓ → Type ℓ
HandlerFunc Ctx = Ctx → GrpcRequest → Outcome MaybeError

-- The fields Code and Msg of the parameter: one of them is missing or cannot be set; both can be set to an int32 and
-- a string; or reflect panics with this text, as Set does for a field of another type and FieldByName
-- for a parameter that is no struct.
pub data Fields : Type 0 where
  fixed : Fields
  settable : Fields
  clashing : Bytes → Fields

-- What a unary call meets: the errors of RecvMsg, of the codec's Unmarshal, of Validate and of SendMsg,
-- `none` for nil; the service's method; and what FieldByName finds of the fields Code and Msg of the parameter.
pub record Unary {ℓ} (Ctx : Type ℓ) : Type ℓ where
  pub receive : Option Bytes
  pub unmarshal : Option Bytes
  pub invalid : Option Bytes
  pub method : Ctx → Outcome MaybeError
  pub fields : Fields
  pub send : Option Bytes

-- How a unary call ends: what processRequest returns, and whether it sent the reply.
pub record Ended : Type 0 where
  pub outcome : Outcome MaybeError
  pub sent : Bool

-- The panic of a call on a nil interface or a nil type.
abbrev nil_pointer : Bytes
nil_pointer = codes "runtime error: invalid memory address or nil pointer dereference"

abbrev pub fails : NetError → Ended
fails e = record { outcome = returned (some (net e)); sent = false }

module _ (texts : Texts) where
  open texts use {sprintf, text}

  send_reply : Option Bytes → Ended
  send_reply none = record { outcome = returned none; sent = true }
  send_reply (some e) =
      fails (business_error sprintf (negsuc 1) (codes "[Grpcserver] send error: " ++ e))

  -- A NetError is written to the parameter, where that has the fields for it, and the reply is sent.
  set_fields : Fields → Option Bytes → NetError → Ended
  unfolding send_reply
  set_fields fixed send e = fails e
  set_fields settable send e = send_reply send
  set_fields (clashing r) send e = record { outcome = panicked r; sent = false }

  -- After the handler.
  conclude : Fields → Option Bytes → Outcome MaybeError → Ended
  unfolding send_reply set_fields
  conclude fields send (panicked r) = record { outcome = panicked r; sent = false }
  conclude fields send (returned none) = send_reply send
  conclude fields send (returned (some (net e))) = set_fields fields send e
  conclude fields send (returned (some e)) = record { outcome = returned (some e); sent = false }

  received : Option Bytes → Ended → Ended
  received none rest = rest
  received (some e) rest = fails (bad_request sprintf (codes "[Grpcserver] RecvMsg error: " ++ e))

  unmarshalled : Option Bytes → Ended → Ended
  unmarshalled none rest = rest
  unmarshalled (some e) rest =
      fails (bad_request sprintf (codes "[Grpcserver] Unmarshal error: " ++ e))

  -- The message arrives by the codec of the exchange; a content type with no codec is a nil interface,
  -- and the call of its method Name panics.
  arrive : Option Codec → Option Bytes → Option Bytes → Ended → Ended
  unfolding received unmarshalled
  arrive none recv unm rest = record { outcome = panicked nil_pointer; sent = false }
  arrive (some proto) recv unm rest = received recv rest
  arrive (some json) recv unm rest = received recv (unmarshalled unm rest)

  module _ {ℓ} {Ctx : Type ℓ} (wrappers : List (HandlerFunc Ctx → HandlerFunc Ctx))
      (service : Bytes) where
    unfoldable pub process_request : Unary Ctx → (ct xct name : Bytes) → Ctx → Ended
    unfolding conclude arrive call_method
    process_request u ct xct name ctx =
        let r : GrpcRequest = record {
          service = service;
          content_type = ct;
          method = name;
          stream = false;
        } in
        let fn : HandlerFunc Ctx =
          wrap_all wrappers (λ c _. call_method texts u.invalid u.method c) in
        arrive (codec_for xct) u.receive u.unmarshal (conclude u.fields u.send (fn ctx r))

    -- The innermost function of processStream. `first` is the error of the first RecvMsg, which only a
    -- method with a parameter makes; what the method returns is returned as it is.
    call_stream : Option ℕ → Option Bytes → (Ctx → Outcome MaybeError) → Ctx → Outcome MaybeError
    call_stream none first method ctx = method ctx
    call_stream (some req) none method ctx = method ctx
    call_stream (some req) (some e) method ctx = returned (some (other e))

    unfoldable pub process_stream :
        HandlerInfo
        → Option Bytes
        → (Ctx → Outcome MaybeError)
        → (ct name : Bytes) → Ctx
        → Outcome MaybeError
    unfolding call_stream
    process_stream h first method ct name ctx =
        let r : GrpcRequest = record {
          service = service;
          content_type = ct;
          method = name;
          stream = false;
        } in
        wrap_all wrappers (λ c _. call_stream h.req_type first method c) ctx r

    -- handler, from the call's full method, metadata and peer to the error that gRPC is given; `make_ctx`
    -- is the context made of the headers, `unary` and `streaming` what a call of the handler meets.
    handle_routed :
        (Headers → Ctx)
        → (HandlerInfo → Unary Ctx)
        → (HandlerInfo → Option Bytes × (Ctx → Outcome MaybeError))
        → Headers
        → Route
        → Outcome MaybeError
    unfolding process_request process_stream
    handle_routed make_ctx unary streaming hs (refused e) = returned (some (net e))
    handle_routed make_ctx unary streaming hs (to h name) =
        if h.client_stream || h.server_stream
        then process_stream h (streaming h).0 (streaming h).1 hs.ct name (make_ctx hs)
        else elim h.req_type [
          | none ↦ panicked nil_pointer
          | some req ↦ (process_request (unary h) hs.ct hs.xct name (make_ctx hs)).outcome
        ]

    unfoldable pub handle :
        (Headers → Ctx)
        → (HandlerInfo → Unary Ctx)
        → (HandlerInfo → Option Bytes × (Ctx → Outcome MaybeError))
        → Handlers
        → Option Bytes
        → Option (GoMap (List Bytes))
        → Option Bytes
        → MaybeError
    unfolding handle_routed
    handle make_ctx unary streaming handlers full incoming remote = recovered texts (
        handle_routed make_ctx unary streaming (read_headers incoming remote)
          (route texts handlers full))

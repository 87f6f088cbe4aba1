-- ===== src/Gate/Proxy.antt =====
-- GrpcHandler.Handle of gate/grpchandler.go: a request becomes a call of the service that its path names.
-- The call itself, grpcclient.InvokeByGate, is an argument.
pub mod Guards
pub mod Passing
use go_vkit.Prelude.{
  ℕ, ◌++◌, Bool, true, false, List, [], ◌∷◌, Option, none, some, codes, Bytes, GoMap,
}
use go_vkit.Strings.Decimal.{format_uint}
use go_vkit.Errors.{NetError, Error, net, errno, other, bad_request}
use go_vkit.Server.Handler.{Outcome, returned, panicked, MaybeError}
use go_vkit.Server.Wrappers.{wrap_all}
use go_vkit.Gate.Request.{Body, Payload, HttpRequest, read}
use go_vkit.Gate.Front.{
  Reply, nothing, error_reply, content, error_response, recovered, media_type, Messages, Checked,
  go_on, stop, check,
}

-- The result of InvokeByGate: the raw JSON of the reply, or an error.
pub data Invoked : Type 0 where
  raw : Bytes → Invoked
  failed : NetError → Invoked

-- A call of InvokeByGate.
pub record ServiceCall : Type 0 where
  pub target : Bytes
  pub service : Bytes
  pub endpoint : Bytes
  pub body : Bytes

-- The request and the content of the response, which the interceptors and the innermost function share; and the
-- calls that were made of services, in their order.
pub record Exchange : Type 0 where
  pub request : HttpRequest
  pub content : Bytes
  pub calls : List ServiceCall

abbrev pub HandlerFunc {ℓ} : Type ℓ → Type ℓ
HandlerFunc Ctx = Ctx → Exchange → Outcome MaybeError × Exchange

pub record Options {ℓ} (Ctx : Type ℓ) : Type ℓ where
  pub grpc_port : ℕ
  pub err_handler : Option (Bytes → Outcome Reply)
  pub wrappers : List (HandlerFunc Ctx → HandlerFunc Ctx)

-- fmt.Sprintf of a finished message, encoding/json on a map of strings, the method Error of an error.
pub record Texts : Type 0 where
  pub sprintf : Bytes → Bytes
  pub json_map : GoMap Bytes → Bytes
  pub text : Error → Bytes

unfoldable pub url_suffix : Bytes → Bytes
url_suffix uri = codes " url:" ++ uri

pub messages : Messages
unfolding url_suffix
messages = record {
  bad_method =
      λ m uri. codes "[gate] req method:" ++ (m ++ (codes " not support" ++ url_suffix uri));
  no_service = λ uri. codes "[gate] service is empty" ++ url_suffix uri;
  no_endpoint = λ uri. codes "[gate] endpoint is empty" ++ url_suffix uri;
}

-- How the two handlers end: the content is written with status 200, an error by ErrorResponse.
module _ (texts : Texts) where
  open texts use {sprintf, json_map, text}

  unfoldable pub conclude : Outcome MaybeError × Exchange → Outcome Reply
  conclude (panicked r, x) = panicked r
  conclude (returned none, x) = returned (content x.content)
  conclude (returned (some (net e)), x) = error_response (net e)
  conclude (returned (some e), x) = error_response (net (bad_request sprintf (text e)))

  module _ {ℓ} {Ctx : Type ℓ} (opts : Options Ctx)
      (invoke : Ctx → (target service endpoint body : Bytes) → Invoked) where
    invoked : Invoked → HttpRequest → Exchange → Outcome MaybeError × Exchange
    invoked (failed e) r x = (returned (some (net e)), record x { request = r })
    invoked (raw b) r x = (returned none, record x { request = r; content = b })

    after_read :
        (service endpoint : Bytes)
        → Ctx
        → Exchange
        → Option Bytes
        → Payload × HttpRequest
        → Outcome MaybeError × Exchange
    unfolding invoked
    after_read service endpoint ctx x (some e) (p, r) = (
      returned
          (some (net (bad_request sprintf (codes "[gate] " ++ (e ++ url_suffix x.request.uri))))),
      record x { request = r },
    )
    after_read service endpoint ctx x none (p, r) =
        let t = service ++ (b':' ∷ format_uint opts.grpc_port) in
        let c : ServiceCall = record {
          target = t;
          service = service;
          endpoint = endpoint;
          body = p.bytes;
        } in
        invoked (invoke ctx t service endpoint p.bytes) r (record x { calls = x.calls ++ (c ∷ []) })

    -- The innermost function.
    call_service : (service endpoint : Bytes) → HandlerFunc Ctx
    unfolding after_read
    call_service service endpoint ctx x =
        let (p, r) = read json_map x.request in after_read service endpoint ctx x p.error (p, r)

    handle_checked :
        Ctx → (method uri content_type : Bytes) → Body → Checked → Outcome Reply × List ServiceCall
    unfolding call_service
    handle_checked ctx method uri content_type body (stop r) = (r, [])
    handle_checked ctx method uri content_type body (go_on service endpoint) =
        let r : HttpRequest = record {
          uri = uri;
          request = body;
          service = service;
          method = method;
          content_type = media_type content_type;
          body = [];
          has_read = false;
          file_map = none;
        } in
        let out =
          wrap_all opts.wrappers (call_service service endpoint) ctx
            (record { request = r; content = []; calls = [] }) in
        (conclude out, out.1.calls)

    -- `auth` is how AuthHandler ends on this request, `none` where there is no such handler; `ctx`
    -- is the context that requestToContext makes of the headers.
    -- With the reply, the calls of services that the request led to.
    unfoldable pub handle_calls :
        Option (Outcome MaybeError)
        → Ctx
        → (method uri content_type : Bytes) → Body
        → Outcome Reply × List ServiceCall
    unfolding handle_checked
    handle_calls auth ctx method uri content_type body =
        let (r, calls) =
          handle_checked ctx method uri content_type body
            (check sprintf messages auth method uri) in
        (recovered opts.err_handler r, calls)

    unfoldable pub handle :
        Option (Outcome MaybeError) → Ctx → (method uri content_type : Bytes) → Body → Outcome Reply
    unfolding handle_calls
    handle auth ctx method uri content_type body =
        (handle_calls auth ctx method uri content_type body).0

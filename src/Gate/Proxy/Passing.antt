-- ===== src/Gate/Proxy/Passing.antt =====
-- A request that passes the checks, whose body can be read, where there are no interceptors.
use go_vkit.Prelude.{◌≡◌, ◌≤◌, refl, ◌++◌, [], ◌∷◌, Option, none, arith, Bytes}
use go_vkit.Strings.Decimal.{format_uint}
use go_vkit.Errors.{NetError, net}
use go_vkit.Server.Handler.{Outcome, returned, MaybeError}
use go_vkit.Server.Wrappers.{wrap_all}
use go_vkit.Gate.Request.{Body, request_payload, read, keep}
use go_vkit.Gate.Front.{error_reply, content, error_response, net_error_of, recovered, go_on, check}
use go_vkit.Gate.Proxy.{
  Invoked, raw, failed, Options, Texts, messages, conclude, invoked, after_read, call_service,
  handle_checked, handle_calls, handle,
}

pub error_response-net :
    (e : NetError)
    → 100 ≤ e.status
    → e.status ≤ 999
    → error_response (net e) ≡ returned (error_reply e)
unfolding error_response net_error_of
error_response-net e low high = ground arith

module _ {ℓ} {Ctx : Type ℓ} (texts : Texts) (opts : Options Ctx)
    (invoke : Ctx → (target service endpoint body : Bytes) → Invoked) (ctx : Ctx)
    (body : Body) where
  module _ (auth : Option (Outcome MaybeError)) (method uri content_type service endpoint : Bytes)
      (passes : check texts.sprintf messages auth method uri ≡ go_on service endpoint)
      (bare : opts.wrappers ≡ [])
      (readable : (request_payload texts.json_map body).error ≡ none) where
    -- The reply of the service goes out with status 200.
    pub handle-raw :
        (b : Bytes)
        → invoke ctx
            (service ++ (b':' ∷ format_uint opts.grpc_port))
            service
            endpoint
            (request_payload texts.json_map body).bytes
          ≡ raw b
        → handle texts opts invoke auth ctx method uri content_type body ≡ returned (content b)
    unfolding handle handle_calls handle_checked call_service after_read invoked read conclude
        wrap_all recovered keep
    handle-raw b calls = rw (passes, bare, readable, calls) refl

    -- A NetError of InvokeByGate goes out with its status.
    pub handle-failed :
        (e : NetError)
        → 100 ≤ e.status
        → e.status ≤ 999
        → invoke ctx
            (service ++ (b':' ∷ format_uint opts.grpc_port))
            service
            endpoint
            (request_payload texts.json_map body).bytes
          ≡ failed e
        → handle texts opts invoke auth ctx method uri content_type body ≡ returned (error_reply e)
    unfolding handle handle_calls handle_checked call_service after_read invoked read conclude
        wrap_all recovered keep
    handle-failed e low high calls =
        rw (passes, bare, readable, calls, error_response-net e low high) refl

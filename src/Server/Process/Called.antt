-- ===== src/Server/Process/Called.antt =====
-- What the handler returns where a call meets no error on its way to the service's method.
use go_vkit.Prelude.{◌≡◌, refl, ℕ, [], Option, none, some, arith, Bytes, GoMap, List}
use go_vkit.Errors.{net, errno, other}
use go_vkit.Codec.{Codec, json, proto, codec_for}
use go_vkit.Server.Registry.{HandlerInfo, Handlers}
use go_vkit.Server.Wrappers.{wrap_all}
use go_vkit.Server.Headers.{Headers, read_headers}
use go_vkit.Server.Handler.{
  Outcome, returned, MaybeError, Texts, to, route, recovered, business, business_outcome,
  call_method,
}
use go_vkit.Server.Process.{
  fixed, Unary, Ended, send_reply, set_fields, conclude, received, unmarshalled, arrive,
  process_request, handle_routed, handle,
}
use go_vkit.Server.Process.Answers.{IsUnary}

-- The message arrives and is valid, the method returns `m`, and the reply can be sent; the parameter
-- has no fields Code and Msg that can be set.
pub record Meets {ℓ} {Ctx : Type ℓ} (u : Unary Ctx) (ctx : Ctx) (m : MaybeError) : Type ℓ where
  pub receives : u.receive ≡ none
  pub unmarshals : u.unmarshal ≡ none
  pub valid : u.invalid ≡ none
  pub sends : u.send ≡ none
  pub no_fields : u.fields ≡ fixed
  pub returns : u.method ctx ≡ returned m

module _ (texts : Texts) where
  concluded :
      (m : MaybeError)
      → (conclude texts fixed none (returned (business texts m))).outcome
        ≡ returned (business texts m)
  unfolding conclude set_fields send_reply business
  concluded none = refl
  concluded (some (net e)) = refl
  concluded (some (other e)) = refl
  concluded (some (errno e)) = ground arith

  arrive-outcome : (c : Codec) (rest : Ended) → arrive texts (some c) none none rest ≡ rest
  unfolding arrive received unmarshalled
  arrive-outcome json rest = refl
  arrive-outcome proto rest = refl

  module _ {ℓ} {Ctx : Type ℓ} (service : Bytes) where
    process_request-business :
        (u : Unary Ctx) (ct xct name : Bytes) (ctx : Ctx) (c : Codec) (m : MaybeError)
        → codec_for xct ≡ some c
        → Meets u ctx m
        → (process_request texts [] service u ct xct name ctx).outcome ≡ returned (business texts m)
    unfolding process_request wrap_all call_method business_outcome
    process_request-business u ct xct name ctx c m known meets =
        rw
          (
            known,
            meets.receives,
            meets.unmarshals,
            meets.no_fields,
            meets.sends,
            meets.valid,
            meets.returns,
            arrive-outcome c _,
          )
          (concluded m)

    -- A call that has a route to a unary method returns the method's error as `business` makes it.
    pub handle-business :
        (make_ctx : Headers → Ctx) (unary : HandlerInfo → Unary Ctx)
        (streaming : HandlerInfo → Option Bytes × (Ctx → Outcome MaybeError)) (handlers : Handlers)
        (full name : Bytes) (incoming : GoMap (List Bytes)) (remote : Option Bytes)
        (h : HandlerInfo) (req : ℕ) (c : Codec) (m : MaybeError)
        → route texts handlers (some full) ≡ to h name
        → IsUnary h
        → h.req_type ≡ some req
        → codec_for (read_headers (some incoming) remote).xct ≡ some c
        → Meets (unary h) (make_ctx (read_headers (some incoming) remote)) m
        → handle texts [] service make_ctx unary streaming handlers
            (some full)
            (some incoming)
            remote
          ≡ business texts m
    unfolding handle handle_routed recovered
    handle-business make_ctx unary streaming handlers full name incoming remote h req c m routes
          is_unary typed known meets =
        rw (routes, is_unary, typed, process_request-business (unary h) _ _ name _ c m known meets)
          refl

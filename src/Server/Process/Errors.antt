-- ===== src/Server/Process/Errors.antt =====
-- Which errors a call through the server can end with.
use go_vkit.Prelude.{◌≡◌, refl, ◌⊎◌, inl, inr, [], Option, none, some, Bytes, is_zero, Bool-cases}
use go_vkit.Errors.{net, errno, other, business_error, bad_request}
use go_vkit.Codec.{Codec, json, proto, codec_for}
use go_vkit.Server.Wrappers.{wrap_all}
use go_vkit.Server.Handler.{
  Outcome, returned, panicked, MaybeError, Texts, recovered, business, business_outcome,
  call_method,
}
use go_vkit.Server.Process.{
  Fields, fixed, settable, clashing, Unary, Ended, send_reply, set_fields, conclude, received,
  unmarshalled, arrive, process_request,
}

-- A NetError with the status of a business error or of a bad request.
abbrev pub IsReported : MaybeError → Type 0
IsReported none = Unit {0}
IsReported (some (net e)) = (e.status ≡ 200) ⊎ (e.status ≡ 400)
IsReported (some (errno e)) = ⊥
IsReported (some (other e)) = ⊥

abbrev Reports : Outcome MaybeError → Type 0
Reports (returned e) = IsReported e
Reports (panicked r) = Unit {0}

module _ (texts : Texts) where
  pub business-IsReported : (e : MaybeError) → IsReported (business texts e)
  unfolding business business_error
  business-IsReported none = tt
  business-IsReported (some (net e)) = inl refl
  business-IsReported (some (other e)) = inl refl
  business-IsReported (some (errno e)) = elim (Bool-cases (is_zero e.code)) [
    | inl z ↦ rw z tt
    | inr z ↦ rw z (inl refl)
  ]

  call_method-Reports {ℓ} :
      {Ctx : Type ℓ} (invalid : Option Bytes) (method : Ctx → Outcome MaybeError) (ctx : Ctx)
      → Reports (call_method texts invalid method ctx)
  unfolding call_method business_outcome business_error
  call_method-Reports (some e) method ctx = inl refl
  call_method-Reports none method ctx = go (method ctx)
    where
      go : (o : Outcome MaybeError) → Reports (business_outcome texts o)
      go (returned e) = business-IsReported e
      go (panicked r) = tt

  send_reply-Reports : (send : Option Bytes) → Reports (send_reply texts send).outcome
  unfolding send_reply business_error
  send_reply-Reports none = tt
  send_reply-Reports (some e) = inl refl

  conclude-Reports :
      (fields : Fields) (send : Option Bytes) (o : Outcome MaybeError)
      → Reports o
      → Reports (conclude texts fields send o).outcome
  unfolding conclude set_fields
  conclude-Reports fields send (panicked r) h = tt
  conclude-Reports fields send (returned none) h = send_reply-Reports send
  conclude-Reports settable send (returned (some (net e))) h = send_reply-Reports send
  conclude-Reports fixed send (returned (some (net e))) h = h
  conclude-Reports (clashing r) send (returned (some (net e))) h = tt
  conclude-Reports fields send (returned (some (errno e))) h = h
  conclude-Reports fields send (returned (some (other e))) h = h

  arrive-Reports :
      (c : Option Codec) (recv unm : Option Bytes) (rest : Ended)
      → Reports rest.outcome
      → Reports (arrive texts c recv unm rest).outcome
  unfolding arrive received unmarshalled bad_request
  arrive-Reports none recv unm rest h = tt
  arrive-Reports (some proto) none unm rest h = h
  arrive-Reports (some proto) (some e) unm rest h = inr refl
  arrive-Reports (some json) none none rest h = h
  arrive-Reports (some json) none (some e) rest h = inr refl
  arrive-Reports (some json) (some e) unm rest h = inr refl

  recovered-Reports : (o : Outcome MaybeError) → Reports o → IsReported (recovered texts o)
  unfolding recovered bad_request
  recovered-Reports (returned e) h = h
  recovered-Reports (panicked r) h = inr refl

  module _ {ℓ} {Ctx : Type ℓ} (service : Bytes) (u : Unary Ctx) (ct xct name : Bytes)
      (ctx : Ctx) where
    -- Without interceptors, a unary call ends on every branch, a panic included, with no error or with a
    -- NetError of status 200 or 400, whatever the service's method, the codec and the stream do.
    pub process_request-IsReported :
        IsReported (recovered texts (process_request texts [] service u ct xct name ctx).outcome)
    unfolding process_request wrap_all
    process_request-IsReported = recovered-Reports _ (
        arrive-Reports (codec_for xct) u.receive u.unmarshal _ (
          conclude-Reports u.fields u.send (call_method texts u.invalid u.method ctx)
            (call_method-Reports u.invalid u.method ctx)))

-- ===== src/Gate/Proxy/Guards.antt =====
-- What the proxy promises of every request.
use go_vkit.Prelude.{
  ◌≡◌, ◌≢◌, ◌⊎◌, inl, inr, refl, List, [], Option, none, some, codes, Bytes, inl, inr,
}
use go_vkit.Strings.{to_upper}
use go_vkit.Gate.Front.Paths.{check-go_on}
use go_vkit.Errors.{net, errno, other}
use go_vkit.Server.Handler.{Outcome, returned, panicked, MaybeError}
use go_vkit.Gate.Request.{Body}
use go_vkit.Gate.Front.{default_err_handler, Checked, go_on, stop, check, names_of}
use go_vkit.Gate.Proxy.{
  ServiceCall, handle_calls, Invoked, Options, Texts, messages, Exchange, conclude, handle_checked,
  handle,
}
use go_vkit.Gate.Front.Replies.{
  HasStatus, Sendable, SendableStop, error_response-Sendable, check-Sendable, recovered-HasStatus,
}

conclude-Sendable :
    (texts : Texts) (method : Bytes) (out : Outcome MaybeError × Exchange)
    → Sendable method (conclude texts out)
unfolding conclude
conclude-Sendable texts method (panicked r, x) = tt
conclude-Sendable texts method (returned none, x) = tt
conclude-Sendable texts method (returned (some (net e)), x) = error_response-Sendable method (net e)
conclude-Sendable texts method (returned (some (errno e)), x) = error_response-Sendable method _
conclude-Sendable texts method (returned (some (other e)), x) = error_response-Sendable method _

handle_checked-Sendable {ℓ} :
    {Ctx : Type ℓ} (texts : Texts) (opts : Options Ctx)
    (invoke : Ctx → (target service endpoint body : Bytes) → Invoked) (ctx : Ctx)
    (method uri content_type : Bytes) (body : Body) (c : Checked)
    → SendableStop method c
    → Sendable method (handle_checked texts opts invoke ctx method uri content_type body c).0
unfolding handle_checked
handle_checked-Sendable texts opts invoke ctx method uri content_type body (stop r) s = s
handle_checked-Sendable texts opts invoke ctx method uri content_type body (go_on service endpoint)
      s =
    conclude-Sendable texts method _

-- With the default ErrHandler every request gets content or an error with a status of three digits, but for one with
-- the method OPTIONS, to which nothing may be written: whether the interceptors, the authorisation or the
-- services fail or panic, no panic leaves the handler and none is left without a reply.
pub handle-HasStatus {ℓ} :
    {Ctx : Type ℓ} (texts : Texts) (opts : Options Ctx)
    (invoke : Ctx → (target service endpoint body : Bytes) → Invoked)
    (auth : Option (Outcome MaybeError)) (ctx : Ctx) (method uri content_type : Bytes) (body : Body)
    → opts.err_handler ≡ some (default_err_handler texts.sprintf)
    → HasStatus method (handle texts opts invoke auth ctx method uri content_type body)
unfolding handle handle_calls
handle-HasStatus texts opts invoke auth ctx method uri content_type body h = rw (h) (
    recovered-HasStatus texts.sprintf method _ (
      handle_checked-Sendable texts opts invoke ctx method uri content_type body _
        (check-Sendable texts.sprintf messages auth method uri)))

-- The calls of services that a request leads to, if any are made, and what it must be for that.
abbrev pub Guarded : Option (Outcome MaybeError) → (method uri : Bytes) → List ServiceCall → Type 0
Guarded auth method uri calls =
    (calls ≡ [])
    ⊎ ((to_upper method ≡ codes "POST")
        × ((auth ≡ none) ⊎ (auth ≡ some (returned none)))
        × ((service : Bytes) × (endpoint : Bytes) × (names_of uri ≡ (service, endpoint))
            × (service ≢ [])
            × (endpoint ≢ [])))

handle_checked-Guarded {ℓ} :
    {Ctx : Type ℓ} (texts : Texts) (opts : Options Ctx)
    (invoke : Ctx → (target service endpoint body : Bytes) → Invoked)
    (auth : Option (Outcome MaybeError)) (ctx : Ctx) (method uri content_type : Bytes) (body : Body)
    (c : Checked)
    → check texts.sprintf messages auth method uri ≡ c
    → Guarded auth method uri
        (handle_checked texts opts invoke ctx method uri content_type body c).1
unfolding handle_checked
handle_checked-Guarded texts opts invoke auth ctx method uri content_type body (stop r) e = inl refl
handle_checked-Guarded texts opts invoke auth ctx method uri content_type body
      (go_on service endpoint) e =
    let (post, authorised, named, ns, ne) =
      check-go_on texts.sprintf messages auth method uri service endpoint e in
    inr (post, authorised, (service, endpoint, named, ns, ne))

-- Whatever the interceptors and the services do, a request leads to a call of a service only if its method is POST
-- in any case, the authorisation, if there is one, returned with no error, and its URL names a service and an
-- endpoint: all others, and those whose authorisation fails or panics, lead to none.
pub handle_calls-Guarded {ℓ} :
    {Ctx : Type ℓ} (texts : Texts) (opts : Options Ctx)
    (invoke : Ctx → (target service endpoint body : Bytes) → Invoked)
    (auth : Option (Outcome MaybeError)) (ctx : Ctx) (method uri content_type : Bytes) (body : Body)
    → Guarded auth method uri
        (handle_calls texts opts invoke auth ctx method uri content_type body).1
unfolding handle_calls
handle_calls-Guarded texts opts invoke auth ctx method uri content_type body =
    handle_checked-Guarded texts opts invoke auth ctx method uri content_type body _ refl

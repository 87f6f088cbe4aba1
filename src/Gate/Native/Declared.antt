-- ===== src/Gate/Native/Declared.antt =====
-- What of a service's methods the gate lets requests call, when they were registered by a list of endpoints.
use go_vkit.Prelude.{◌≡◌, ◌⊎◌, refl, ◌∙◌, List, [], Option, none, some, Bytes, lookup, inl, inr}
use mathlib.Core.Option.{none-ne-some}
use go_vkit.Server.Handler.{Outcome, MaybeError, or_lookup}
use go_vkit.Server.Registry.{ApiEndpoint, Service, HandlerInfo, Handlers}
use go_vkit.Server.Registry.Declared.{Names, register_api_endpoint-declared}
use go_vkit.Server.Handler.{returned}
use go_vkit.Gate.Request.{Body}
use go_vkit.Gate.Front.{content, default_err_handler, check, go_on}
use go_vkit.Gate.Proxy.{Options, Texts}
use go_vkit.Gate.Native.{Found, handle_native, messages}
use go_vkit.Gate.Native.Calls.{handle_native-Called}
use go_vkit.Gate.Native.Registration.{register_native_endpoint}

-- A handler that was found stands under one of the two names.
found_under :
    (endpoint uri : Bytes) (handlers : Handlers) (h : HandlerInfo)
    → or_lookup (lookup endpoint handlers) uri handlers ≡ some h
    → (lookup endpoint handlers ≡ some h) ⊎ (lookup uri handlers ≡ some h)
unfolding or_lookup
found_under endpoint uri handlers h e = go (lookup endpoint handlers) refl
  where
    go :
        (o : Option HandlerInfo)
        → lookup endpoint handlers ≡ o
        → (lookup endpoint handlers ≡ some h) ⊎ (lookup uri handlers ≡ some h)
    go none q = inr (rw (q, or_lookup) at e)
    go (some i) q = inl (q ∙ rw (q, or_lookup) at e)

registered-Names :
    (services : List Service) (list : List ApiEndpoint) (handlers : Handlers) (k : Bytes)
    (h : HandlerInfo)
    → register_native_endpoint services list [] ≡ some handlers
    → lookup k handlers ≡ some h
    → Names k list
unfolding register_native_endpoint lookup
registered-Names services list handlers k h r l =
    elim (register_api_endpoint-declared services list [] handlers k h r l) [
      | inl q ↦ absurd (none-ne-some _ q)
      | inr n ↦ n
    ]

-- The methods of a process that were registered with a list of endpoints, without interceptors and with the
-- default ErrHandler: content is sent only for a request that passed the checks and whose endpoint or URL is the
-- URL or the method of an endpoint of the list.
pub handle_native-declared {ℓ} :
    {Ctx : Type ℓ} (texts : Texts) (found : HandlerInfo → Found Ctx) (services : List Service)
    (list : List ApiEndpoint) (handlers : Handlers) (opts : Options Ctx)
    (auth : Option (Outcome MaybeError)) (ctx : Ctx) (method uri content_type : Bytes) (body : Body)
    (b : Bytes)
    → register_native_endpoint services list [] ≡ some handlers
    → opts.wrappers ≡ []
    → opts.err_handler ≡ some (default_err_handler texts.sprintf)
    → handle_native texts found handlers opts auth ctx method uri content_type body
      ≡ returned (content b)
    → (service endpoint : Bytes) × (check texts.sprintf messages auth method uri
        ≡ go_on service endpoint)
      × (Names endpoint list ⊎ Names uri list)
handle_native-declared texts found services list handlers opts auth ctx method uri content_type body
      b r w d e =
    let (service, endpoint, passed, h, under, codec, called) =
      handle_native-Called texts found handlers opts auth ctx method uri content_type body b w d
        e in
    (
      service,
      endpoint,
      passed,
      elim (found_under endpoint uri handlers h under) [
        | inl l ↦ inl (registered-Names services list handlers endpoint h r l)
        | inr l ↦ inr (registered-Names services list handlers uri h r l)
      ],
    )

-- ===== src/Server/Process/Answers.antt =====
-- What a server of unary methods answers to any call, routed or not.
use go_vkit.Prelude.{
  ◌≤◌, ◌≡◌, refl, inl, inr, false, ◌||◌, List, [], ◌∷◌, ◌++◌, Option, none, some, arith, Bytes,
  GoMap, lookup, bytes_eq, Bool-cases, All, ℕ,
}
use go_vkit.Errors.{NetError, net, errno, other, bad_request, not_found}
use go_vkit.Routes.{service_method}
use go_vkit.Server.Registry.{HandlerInfo, Handlers}
use go_vkit.Server.Headers.{Headers}
use go_vkit.Server.Handler.{
  Outcome, panicked, MaybeError, Texts, Route, to, refused, or_lookup, route_known, route,
  recovered,
}
use go_vkit.Server.Process.{Unary, handle_routed, handle}
use go_vkit.Server.Process.Errors.{IsReported, process_request-IsReported}

-- No error, or a NetError whose status HTTP can carry.
abbrev pub IsAnswer : MaybeError → Type 0
IsAnswer none = Unit {0}
IsAnswer (some (net e)) = (100 ≤ e.status) × (e.status ≤ 999)
IsAnswer (some (errno e)) = ⊥
IsAnswer (some (other e)) = ⊥

abbrev pub IsUnary : HandlerInfo → Type 0
IsUnary h = (h.client_stream || h.server_stream) ≡ false

abbrev pub OnlyUnary : Handlers → Type 0
OnlyUnary = All (λ p. IsUnary p.1)

Routed : Route → Type 0
Routed (to h name) = IsUnary h
Routed (refused e) = e.status ≡ 404

pub reported-IsAnswer : (e : MaybeError) → IsReported e → IsAnswer e
reported-IsAnswer none h = tt
reported-IsAnswer (some (net e)) (inl h) = (omega (arith, h), omega (arith, h))
reported-IsAnswer (some (net e)) (inr h) = (omega (arith, h), omega (arith, h))
reported-IsAnswer (some (errno e)) h = elim h [ ]
reported-IsAnswer (some (other e)) h = elim h [ ]

AllFound : Option HandlerInfo → Type 0
AllFound none = Unit {0}
AllFound (some h) = IsUnary h

lookup-AllFound :
    (k : Bytes) (handlers : Handlers) → OnlyUnary handlers → AllFound (lookup k handlers)
unfolding AllFound lookup
lookup-AllFound k [] u = tt
lookup-AllFound k ((j, h) ∷ handlers) u = elim (Bool-cases (bytes_eq j k)) [
  | inl e ↦ rw (e) u.0
  | inr e ↦ rw (e) (lookup-AllFound k handlers u.1)
]

or_lookup-AllFound :
    (o : Option HandlerInfo) (k : Bytes) (handlers : Handlers)
    → OnlyUnary handlers
    → AllFound o
    → AllFound (or_lookup o k handlers)
unfolding or_lookup
or_lookup-AllFound none k handlers u f = lookup-AllFound k handlers u
or_lookup-AllFound (some h) k handlers u f = f

found-Routed :
    (o : Option HandlerInfo) (e : NetError) (name : Bytes)
    → e.status ≡ 404
    → AllFound o
    → Routed (elim o [ none ↦ refused e | some h ↦ to h name ])
unfolding AllFound Routed
found-Routed none e name s f = s
found-Routed (some h) e name s f = f

module _ (texts : Texts) where
  typed-IsAnswer :
      (o : Option ℕ) (r : Bytes) (out : Outcome MaybeError)
      → IsAnswer (recovered texts out)
      → IsAnswer (recovered texts (elim o [ none ↦ panicked r | some req ↦ out ]))
  unfolding recovered bad_request
  typed-IsAnswer none r out a = (omega arith, omega arith)
  typed-IsAnswer (some req) r out a = a

  route_known-Routed :
      (handlers : Handlers) (full : Bytes) (o : Option (Bytes × Bytes))
      → OnlyUnary handlers
      → Routed (route_known texts handlers full o)
  unfolding route_known Routed AllFound not_found
  route_known-Routed handlers full none u = refl
  route_known-Routed handlers full (some (service, method)) u =
      found-Routed _ _ (service ++ b'.' ∷ method) refl (
        or_lookup-AllFound _ full handlers u
          (lookup-AllFound (service ++ b'.' ∷ method) handlers u))

  route-Routed :
      (handlers : Handlers) (full : Option Bytes)
      → OnlyUnary handlers
      → Routed (route texts handlers full)
  unfolding route Routed not_found
  route-Routed handlers none u = refl
  route-Routed handlers (some full) u = route_known-Routed handlers full (service_method full) u

  module _ {ℓ} {Ctx : Type ℓ} (service : Bytes) (make_ctx : Headers → Ctx)
      (unary : HandlerInfo → Unary Ctx)
      (streaming : HandlerInfo → Option Bytes × (Ctx → Outcome MaybeError)) where
    handle_routed-IsAnswer :
        (hs : Headers) (r : Route)
        → Routed r
        → IsAnswer (recovered texts (handle_routed texts [] service make_ctx unary streaming hs r))
    unfolding handle_routed Routed recovered
    handle_routed-IsAnswer hs (refused e) f = (omega (arith, f), omega (arith, f))
    handle_routed-IsAnswer hs (to h name) f = rw (f) (
        typed-IsAnswer h.req_type _ _ (
          reported-IsAnswer _
            (process_request-IsReported texts service (unary h) hs.ct hs.xct name (make_ctx hs))))

    -- Without interceptors and with unary methods only, the handler ends every call with no error or with a NetError
    -- of a status that HTTP can carry, also where the call has no route or the method panics.
    pub handle-IsAnswer :
        (handlers : Handlers) (full : Option Bytes) (incoming : Option (GoMap (List Bytes)))
        (remote : Option Bytes)
        → OnlyUnary handlers
        → IsAnswer (handle texts [] service make_ctx unary streaming handlers full incoming remote)
    unfolding handle
    handle-IsAnswer handlers full incoming remote u =
        handle_routed-IsAnswer _ _ (route-Routed handlers full u)

-- ===== src/Server/Handler.antt =====
-- GrpcServer.handler and processRequest of grpcserver/grpcserver.go. What a call meets outside the code
-- (the stream, the codec, the service's method and its parameter types) is in the records below.
pub mod Calls
pub mod Registered
use go_vkit.Prelude.{
  ℕ, ◌++◌, Bool, true, false, List, [], ◌∷◌, Option, none, some, codes, Bytes, GoMap, lookup,
  if◌then◌else◌, is_zero, negsuc, ℤ,
}
use go_vkit.Errors.{
  NetError, Errno, Error, net, errno, other, business_error, bad_request, not_found,
}
use go_vkit.Routes.{service_method}
use go_vkit.Codec.{Codec, json, proto}
use go_vkit.Server.Registry.{HandlerInfo, Handlers}
use go_vkit.Server.Wrappers.{wrap_all}

-- A call of Go code: it returns a value, or panics with a value that `%v` prints so.
pub data Outcome {ℓ} (A : Type ℓ) : Type ℓ where
  returned : A → Outcome A
  panicked : Bytes → Outcome A

-- An `error` that may be nil.
abbrev pub MaybeError : Type 0
MaybeError = Option Error

-- fmt.Sprintf of a finished message, strconv.Quote (the verb %q), and the method Error of an error.
pub record Texts : Type 0 where
  pub sprintf : Bytes → Bytes
  pub quote : Bytes → Bytes
  pub text : Error → Bytes

-- `g.handlers[methodName]`, and if there is none `g.handlers[fullMethod]`.
unfoldable pub or_lookup : Option HandlerInfo → Bytes → Handlers → Option HandlerInfo
or_lookup (some h) k handlers = some h
or_lookup none k handlers = lookup k handlers

-- A handler with its method's name, or the error of a call that has none.
pub data Route : Type 0 where
  to : HandlerInfo → Bytes → Route
  refused : NetError → Route

module _ (texts : Texts) where
  open texts use {sprintf, quote, text}

  unfoldable pub route_known : Handlers → Bytes → Option (Bytes × Bytes) → Route
  unfolding or_lookup
  route_known handlers full none = refused (
      not_found sprintf (
        codes "[Grpcserver] ServiceMethod err:" ++ (codes "malformed method name: " ++ quote full)))
  route_known handlers full (some (service, method)) =
      let name = service ++ (b'.' ∷ method) in
      elim (or_lookup (lookup name handlers) full handlers) [
        | none ↦ refused (not_found sprintf (codes "[Grpcserver] unknown method " ++ name))
        | some h ↦ to h name
      ]

  -- From the full method of the stream, if it has one, to the handler.
  unfoldable pub route : Handlers → Option Bytes → Route
  unfolding route_known
  route handlers none =
      refused (not_found sprintf (codes "[Grpcserver] method does not exist in context"))
  route handlers (some full) = route_known handlers full (service_method full)

  -- The deferred recover of the handler.
  unfoldable pub recovered : Outcome MaybeError → MaybeError
  recovered (returned e) = e
  recovered (panicked r) =
      some (net (bad_request sprintf (codes "[Grpcserver] panic recovered:" ++ (r ++ codes " "))))

  -- The error of a service's method, as processRequest passes it on.
  unfoldable pub business : MaybeError → MaybeError
  business none = none
  business (some (errno e)) =
      if is_zero e.code then none else some (net (business_error sprintf e.code e.msg))
  business (some e) =
      some (net (business_error sprintf (negsuc 1) (codes "[Grpcserver] call error: " ++ text e)))

  unfoldable pub business_outcome : Outcome MaybeError → Outcome MaybeError
  business_outcome (returned e) = returned (business e)
  business_outcome (panicked r) = panicked r

  module _ {ℓ} {Ctx : Type ℓ} where
    -- The innermost function: the parameter check, then the method. `invalid` is the text of the error
    -- of Validate, `none` where there is no such method or it returns nil.
    unfoldable pub call_method :
        Option Bytes → (Ctx → Outcome MaybeError) → Ctx → Outcome MaybeError
    unfolding business_outcome
    call_method (some invalid) method ctx = returned (
        some (
          net (business_error sprintf (negsuc 0) (codes "[Grpcserver]  param error: " ++ invalid))))
    call_method none method ctx = business_outcome (method ctx)

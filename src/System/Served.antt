-- ===== src/System/Served.antt =====
-- The result of a service's method is what the HTTP client gets.
use mathlib.Core.Path.{subst}
use go_vkit.Prelude.{
  arith, ◌⊎◌, inl, inr, zero, suc, true, false, pos, negsuc, is_zero, codes, ◌≡◌, ◌∙◌, ◌≢◌, refl, ℤ,
  ℕ, [], ◌∷◌, ◌++◌, Option, none, some, Bytes, GoMap, List, lookup, Distinct, lookup-insert_self,
}
use go_vkit.Metadata.{Context}
use go_vkit.Strings.Laws.{Lacks}
use go_vkit.Strings.Decimal.{format_uint}
use go_vkit.Codec.{Codec, codec_for}
use go_vkit.Errors.{errno, net, other, business_error}
use go_vkit.Server.Headers.{read_headers}
use go_vkit.Server.Headers.Laws.{read_headers_xct}
use go_vkit.Server.Registry.{HandlerInfo}
use go_vkit.Server.Handler.{Outcome, returned, MaybeError, business}
use go_vkit.Server.Handler.Calls.{route-method_to_grpc}
use go_vkit.Server.Process.Answers.{IsAnswer, IsUnary, reported-IsAnswer}
use go_vkit.Server.Process.Errors.{business-IsReported}
use go_vkit.Server.Process.Called.{Meets, handle-business}
use go_vkit.Client.Invoke.{x_content_type, prepare}
use go_vkit.Gate.Request.{Body, request_payload}
use go_vkit.Gate.Front.{Reply, content, error_reply, go_on, check, media_type}
use go_vkit.Gate.Proxy
use go_vkit.Gate.Proxy.{Options, messages}
use go_vkit.Gate.Upgrade.Typed.{Avoids}
use go_vkit.System.Typed.{sent-request_to_context}
use go_vkit.System.{
  request_to_context, Library, text, Wraps, Server, server_texts, serve, sent, request, arrives,
}
use go_vkit.System.Delivered.{Readable, Answers, request-Answers}

-- The incoming metadata are a map, and a content type that has a codec arrives as the one value of its key.
pub record Delivers (lib : Library) : Type 0 where
  pub distinct : (header : GoMap Bytes) → Distinct (lib.incoming header)
  pub typed :
      (header : GoMap Bytes) (v : Bytes) (c : Codec)
      → codec_for v ≡ some c
      → lookup x_content_type header ≡ some v
      → lookup x_content_type (lib.incoming header) ≡ some (v ∷ [])

module _ (lib : Library) (d : Delivers lib) where
  -- The server decodes a message by the codec that the client chose.
  sent-codec :
      (default : ℤ) (md : Context) (service endpoint : Bytes) (remote : Option Bytes) (c : Codec)
      → (sent lib default md service endpoint).codec ≡ some c
      → codec_for
          (read_headers
            (some (lib.incoming (sent lib default md service endpoint).header))
            remote).xct
        ≡ some c
  unfolding sent prepare
  sent-codec default md service endpoint remote c has =
      rw
        (read_headers_xct (lib.incoming (sent lib default md service endpoint).header) remote _
          (d.distinct _) (d.typed _ _ c has (lookup-insert_self x_content_type _ _)))
        has

  module _ {ℓ} {Ctx : Type ℓ} (s : Server Ctx) (service name method : Bytes) (h : HandlerInfo)
      (plain : Lacks b'/' service) (name_ne : name ≢ []) (method_ne : method ≢ [])
      (name_dot : Lacks b'.' name) (name_slash : Lacks b'/' name) (method_dot : Lacks b'.' method)
      (method_slash : Lacks b'/' method)
      (found : lookup (name ++ b'.' ∷ method) s.handlers ≡ some h) where
    serve-business :
        (default : ℤ) (md : Context) (body : Bytes) (req : ℕ) (c : Codec) (m : MaybeError)
        → let out = sent lib default md service (name ++ b'.' ∷ method) in
          IsUnary h
          → h.req_type ≡ some req
          → out.codec ≡ some c
          → Meets
              (s.unary body h)
              (s.make_ctx (read_headers (some (lib.incoming out.header)) s.remote))
              m
          → serve lib s out body ≡ business (server_texts lib) m
    unfolding serve sent prepare
    serve-business default md body req c m is_unary typed has meets =
        handle-business (server_texts lib) s.name s.make_ctx (s.unary body) (s.streaming body)
          s.handlers _ (name ++ b'.' ∷ method) _ s.remote h req c m
          (route-method_to_grpc (server_texts lib) s.handlers h service name method plain name_ne
            method_ne name_dot name_slash method_dot method_slash found)
          is_unary typed (sent-codec default md service (name ++ b'.' ∷ method) s.remote c has)
          meets

-- What the HTTP client gets for the result of a method.
abbrev pub Gets : Library → Bytes → MaybeError → Outcome Reply → Type 0
Gets lib reply none r = r ≡ returned (content reply)
Gets lib reply (some (errno e)) r =
    ((e.code ≡ pos 0) × (r ≡ returned (content reply)))
    ⊎ ((e.code ≢ pos 0)
        × (r
            ≡ returned
                (error_reply (record { code = e.code; status = 200; msg = lib.sprintf e.msg }))))
Gets lib reply (some (net e)) r =
    r
    ≡ returned (
        error_reply (record {
          code = negsuc 1;
          status = 200;
          msg = lib.sprintf (codes "[Grpcserver] call error: " ++ lib.json e);
        }))
Gets lib reply (some (other t)) r =
    r
    ≡ returned (
        error_reply (record {
          code = negsuc 1;
          status = 200;
          msg = lib.sprintf (codes "[Grpcserver] call error: " ++ t);
        }))

code_cases : (z : ℤ) → ((is_zero z ≡ true) × (z ≡ pos 0)) ⊎ ((is_zero z ≡ false) × (z ≢ pos 0))
code_cases (pos zero) = inl (refl, refl)
code_cases (pos (suc n)) = inr (ground arith, λ e. ground arith)
code_cases (negsuc n) = inr (refl, λ e. cc)

Answers-Gets :
    (lib : Library) (reply : Bytes) (m : MaybeError) (r : Outcome Reply)
    → Answers reply (business (server_texts lib) m) r
    → Gets lib reply m r
unfolding business server_texts business_error text
Answers-Gets lib reply none r a = a
Answers-Gets lib reply (some (net e)) r a = a
Answers-Gets lib reply (some (other t)) r a = a
Answers-Gets lib reply (some (errno e)) r a = elim (code_cases e.code) [
  | inl (h, z) ↦ inl (z, rw (h) at a)
  | inr (h, z) ↦ inr (z, rw (h) at a)
]

-- From the HTTP request to the method and back. A POST that passes the checks of a gate without interceptors and
-- whose body can be read, with the endpoint `Struct.Method` of a service whose server, without interceptors, has
-- a unary handler with a parameter under that name: where the message arrives and is valid and the reply can be
-- sent, the HTTP client gets the method's result. That is the reply with status 200 for nil and for an Errno
-- of code 0; an Errno of another code with this code, its message and status 200; any other error with code -2
-- and status 200. The struct's and the method's name are not empty and hold no dot and no slash, the service no
-- slash; the parameter has no fields Code and Msg; the request's content type has a codec, and no header is
-- called x-content-type; gRPC wraps an error as `Wraps` says and hands on metadata as `Delivers` says; and the
-- JSON text of the error is read back.
pub request-business {ℓ} :
    (lib : Library) (prefix : Bytes) (w : Wraps lib prefix) (d : Delivers lib)
    (opts : Options Context) (auth : Option (Outcome MaybeError)) (header : GoMap (List Bytes))
    (verb uri content_type service name method : Bytes) (body : Body) {Ctx : Type ℓ}
    (dead : Proxy.Invoked) (default : ℤ) (servers : Bytes → Server Ctx) (h : HandlerInfo) (req : ℕ)
    (c : Codec) (m : MaybeError)
    → let out =
        sent lib default
          (request_to_context (media_type content_type) header)
          service
          (name ++ b'.' ∷ method) in
      let server = servers (service ++ (b':' ∷ format_uint opts.grpc_port)) in
      let bytes = (request_payload lib.json_map body).bytes in
      check lib.sprintf messages auth verb uri ≡ go_on service (name ++ b'.' ∷ method)
      → opts.wrappers ≡ []
      → (request_payload lib.json_map body).error ≡ none
      → Lacks b'/' service
      → name ≢ []
      → method ≢ []
      → Lacks b'.' name
      → Lacks b'/' name
      → Lacks b'.' method
      → Lacks b'/' method
      → lookup (name ++ b'.' ∷ method) server.handlers ≡ some h
      → IsUnary h
      → h.req_type ≡ some req
      → codec_for (media_type content_type) ≡ some c
      → Avoids x_content_type header
      → Meets
          (server.unary bytes h)
          (server.make_ctx (read_headers (some (lib.incoming out.header)) server.remote))
          m
      → Readable lib (business (server_texts lib) m)
      → Gets lib
          (server.reply out bytes)
          m
          (request lib arrives dead default servers opts auth header verb uri content_type body)
request-business lib prefix w d opts auth header verb uri content_type service name method body dead
      default servers h req c m passes bare reads plain name_ne method_ne name_dot name_slash
      method_dot method_slash found is_unary typed known avoids meets readable =
    let server = servers (service ++ (b':' ∷ format_uint opts.grpc_port)) in
    let md = request_to_context (media_type content_type) header in
    let out = sent lib default md service (name ++ b'.' ∷ method) in
    let bytes = (request_payload lib.json_map body).bytes in
    let has =
      sent-request_to_context lib default (media_type content_type) header service
        (name ++ b'.' ∷ method) avoids
      ∙ known in
    let e =
      serve-business lib d server service name method h plain name_ne method_ne name_dot name_slash
        method_dot method_slash found default md bytes req c m is_unary typed has meets in
    Answers-Gets lib (server.reply out bytes) m _ (
      subst
        (λ r.
          IsAnswer r
          → Readable lib r
          → Answers (server.reply out bytes) r (
              request lib arrives dead default servers opts auth header verb uri content_type body))
        e
        (request-Answers lib prefix w opts auth header verb uri content_type service
          (name ++ b'.' ∷ method) body passes bare reads dead default servers c has)
        (reported-IsAnswer _ (business-IsReported (server_texts lib) m)) readable)

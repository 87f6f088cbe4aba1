-- ===== src/System/Delivered.antt =====
-- What the service's handler returns is what the HTTP client gets.
use go_vkit.Prelude.{
  ◌≡◌, refl, sym, ap, ◌∙◌, ℤ, [], ◌∷◌, ◌++◌, Option, none, some, Bytes, GoMap, List, codes, ◌==◌,
  append_assoc,
}
use go_vkit.Metadata.{Context}
use go_vkit.Strings.Decimal.{format_uint}
use go_vkit.Codec.{Codec, codec_for}
use go_vkit.Errors.{NetError, net, errno, other, whole}
use go_vkit.Server.Handler.{Outcome, returned, MaybeError}
use go_vkit.Server.Process.Answers.{IsAnswer, OnlyUnary, handle-IsAnswer}
use go_vkit.Client.Invoke.{x_content_type, Sent, answered, after, invoke, invoke_by_gate}
use go_vkit.Client.Invoke.Passed.{invoke-passed, invoke-succeeded}
use go_vkit.Gate.Request.{Body, request_payload}
use go_vkit.Gate.Front.{Reply, error_reply, content, go_on, check, media_type}
use go_vkit.Gate.Proxy
use go_vkit.Gate.Proxy.{Options, raw, failed, messages}
use go_vkit.Gate.Proxy.Passing.{handle-raw, handle-failed}
use go_vkit.Gate.Upgrade.Typed.{Avoids}
use go_vkit.System.Typed.{sent-request_to_context}
use go_vkit.System.{
  request_to_context, Library, Wraps, Server, text, server_texts, client_texts, gate_texts, arrival,
  serve, sent, given, call, request, arrives, dial_of, answer_of,
}

-- The JSON text of a NetError is read back, as it is where the message is in UTF-8.
abbrev pub Readable : Library → MaybeError → Type 0
Readable lib none = Unit {0}
Readable lib (some (net e)) = lib.unmarshal (lib.json e) ≡ whole e
Readable lib (some (errno e)) = Unit {0}
Readable lib (some (other t)) = Unit {0}

-- The gate has this outcome of a call.
abbrev Given : Bytes → MaybeError → Proxy.Invoked → Type 0
Given reply none i = i ≡ raw reply
Given reply (some (net e)) i = i ≡ failed e
Given reply (some (errno e)) i = ⊥
Given reply (some (other t)) i = ⊥

-- The HTTP client gets the reply with status 200, or the error with its own status.
abbrev pub Answers : Bytes → MaybeError → Outcome Reply → Type 0
Answers reply none r = r ≡ returned (content reply)
Answers reply (some (net e)) r = r ≡ returned (error_reply e)
Answers reply (some (errno e)) r = ⊥
Answers reply (some (other t)) r = ⊥

module _ (lib : Library) (prefix : Bytes) (w : Wraps lib prefix) where
  invoke-returned :
      (out : Sent) (c : Codec) (e : NetError)
      → out.codec ≡ some c
      → lib.unmarshal (lib.json e) ≡ whole e
      → invoke (client_texts lib) out none (answered (some (lib.grpc_error (lib.json e))))
        ≡ after (some e) (some e) (e.status == 503)
  unfolding client_texts
  invoke-returned out c e has reads =
      let (rest, o) = w.object e in
      let t : prefix ++ lib.json e ≡ prefix ++ codes "{\"" ++ rest =
        ap (λ j. prefix ++ j) o ∙ sym (append_assoc prefix (codes "{\"") rest) in
      rw (w.wrapped (lib.json e), t)
        (invoke-passed (client_texts lib) out c e prefix rest has w.lacks (rw (← t) (w.long e))
          (rw (← t) (w.cut e ∙ o)) (rw (← o) reads))

  invoked-Given :
      (dead : Proxy.Invoked) (out : Sent) (c : Codec) (reply : Bytes) (m : MaybeError)
      → out.codec ≡ some c
      → IsAnswer m
      → Readable lib m
      → Given reply m
          (given lib dead reply (invoke (client_texts lib) out none (answered (arrival lib m))))
  unfolding given arrival text invoke_by_gate
  invoked-Given dead out c reply none has a r =
      rw (invoke-succeeded (client_texts lib) out c has) refl
  invoked-Given dead out c reply (some (net e)) has a r = rw (invoke-returned out c e has r) refl
  invoked-Given dead out c reply (some (errno e)) has a r = absurd a
  invoked-Given dead out c reply (some (other t)) has a r = absurd a

  module _ (opts : Options Context) (auth : Option (Outcome MaybeError))
      (header : GoMap (List Bytes)) (method uri content_type service endpoint : Bytes) (body : Body)
      (passes : check lib.sprintf messages auth method uri ≡ go_on service endpoint)
      (bare : opts.wrappers ≡ []) (reads : (request_payload lib.json_map body).error ≡ none) where
    -- What the gate makes of what it has of a call.
    handle-Answers :
        (invoke_service : Context → (target service endpoint body : Bytes) → Proxy.Invoked)
        (reply : Bytes) (m : MaybeError)
        → IsAnswer m
        → Given reply m (
            invoke_service
              (request_to_context (media_type content_type) header)
              (service ++ (b':' ∷ format_uint opts.grpc_port))
              service
              endpoint
              (request_payload lib.json_map body).bytes)
        → Answers reply m (
            Proxy.handle
              (gate_texts lib)
              opts
              invoke_service
              auth
              (request_to_context (media_type content_type) header)
              method
              uri
              content_type
              body)
    unfolding gate_texts
    handle-Answers invoke_service reply none a g =
        handle-raw (gate_texts lib) opts invoke_service _ body auth method uri content_type service
          endpoint passes bare reads reply g
    handle-Answers invoke_service reply (some (net e)) (low, high) g =
        handle-failed (gate_texts lib) opts invoke_service _ body auth method uri content_type
          service endpoint passes bare reads e low high g
    handle-Answers invoke_service reply (some (errno e)) a g = absurd a
    handle-Answers invoke_service reply (some (other t)) a g = absurd a

    pub request-Answers {ℓ} :
        {Ctx : Type ℓ} (dead : Proxy.Invoked) (default : ℤ) (servers : Bytes → Server Ctx)
        (c : Codec)
        → let out =
            sent lib default
              (request_to_context (media_type content_type) header)
              service
              endpoint in
          let server = servers (service ++ (b':' ∷ format_uint opts.grpc_port)) in
          let bytes = (request_payload lib.json_map body).bytes in
          out.codec ≡ some c
          → IsAnswer (serve lib server out bytes)
          → Readable lib (serve lib server out bytes)
          → Answers (server.reply out bytes) (serve lib server out bytes) (
              request lib arrives dead default servers opts auth header method uri content_type
                body)
    unfolding request call dial_of answer_of
    request-Answers dead default servers c has a r =
        handle-Answers (call lib arrives dead default servers) _ _ a
          (invoked-Given dead _ c _ _ has a r)

    -- A POST that passes the checks and whose body can be read, at a gate and a server without interceptors whose
    -- methods are unary: whatever the server's handler returns, a service's error, a refused route and a
    -- recovered panic included, the HTTP client gets just that: the reply with status 200 where it returned nil,
    -- and otherwise its NetError with the code, the status and the message that it had there. The request's
    -- content type has a codec, no header is called x-content-type, the call reaches the server, gRPC wraps an
    -- error as `Wraps` says, and the JSON text of the error is read back.
    pub request-serve {ℓ} :
        {Ctx : Type ℓ} (dead : Proxy.Invoked) (default : ℤ) (servers : Bytes → Server Ctx)
        (c : Codec)
        → let out =
            sent lib default
              (request_to_context (media_type content_type) header)
              service
              endpoint in
          let server = servers (service ++ (b':' ∷ format_uint opts.grpc_port)) in
          let bytes = (request_payload lib.json_map body).bytes in
          codec_for (media_type content_type) ≡ some c
          → Avoids x_content_type header
          → OnlyUnary server.handlers
          → Readable lib (serve lib server out bytes)
          → Answers (server.reply out bytes) (serve lib server out bytes) (
              request lib arrives dead default servers opts auth header method uri content_type
                body)
    unfolding serve
    request-serve dead default servers c known avoids unary r =
        request-Answers dead default servers c
          (sent-request_to_context lib default (media_type content_type) header service endpoint
              avoids
            ∙ known)
          (handle-IsAnswer (server_texts lib) _ _ _ _ _ _ _ _ unary) r

-- ===== src/System/Lost.antt =====
-- What the HTTP client gets where the call does not reach the service's handler.
use go_vkit.Prelude.{
  ◌∙◌, ℕ, ◌≡◌, ◌≤◌, refl, ℤ, [], Option, none, some, arith, Bytes, GoMap, List, codes,
}
use go_vkit.Metadata.{Context}
use go_vkit.Strings.{index}
use go_vkit.Codec.{Codec, codec_for}
use go_vkit.Errors.{NetError}
use go_vkit.Server.Handler.{Outcome, returned, MaybeError}
use go_vkit.Client.Invoke.{x_content_type, Sent, invoke, invoke_by_gate}
use go_vkit.Client.Invoke.Lost.{text_status, invoke-unreachable, invoke-late, invoke-lost}
use go_vkit.Gate.Request.{Body, request_payload}
use go_vkit.Gate.Front.{error_reply, go_on, check, media_type}
use go_vkit.Gate.Proxy
use go_vkit.Gate.Proxy.{Options, failed, messages}
use go_vkit.Gate.Proxy.Passing.{handle-failed}
use go_vkit.Gate.Upgrade.Typed.{Avoids}
use go_vkit.System.Typed.{sent-request_to_context}
use go_vkit.System.{
  Library, Server, Fate, arrives, unreachable, late, lost, dial_of, answer_of, client_texts,
  gate_texts, given, call, request,
}

-- The status for what becomes of a call.
abbrev pub fate_status : Fate → ℕ
fate_status arrives = 200
fate_status (unreachable e) = 400
fate_status (late e) = 408
fate_status (lost t) = text_status t

-- The call does not arrive, and a text of gRPC's own holds no JSON object.
abbrev pub Fails : Fate → Type 0
Fails arrives = ⊥
Fails (unreachable e) = Unit {0}
Fails (late e) = Unit {0}
Fails (lost t) = index t (codes "{\"") ≡ none

Fails-fate_status : (fate : Fate) → Fails fate → (100 ≤ fate_status fate) × (fate_status fate ≤ 999)
Fails-fate_status arrives f = absurd f
Fails-fate_status (unreachable e) f = (omega arith, omega arith)
Fails-fate_status (late e) f = (omega arith, omega arith)
Fails-fate_status (lost t) f = (ground arith, ground arith)

module _ (lib : Library) where
  failed_call :
      (fate : Fate) (dead : Proxy.Invoked) (out : Sent) (c : Codec) (reply : Bytes) (m : MaybeError)
      → out.codec ≡ some c
      → Fails fate
      → (n : NetError) × (n.status ≡ fate_status fate)
        × (given lib dead reply
              (invoke (client_texts lib) out (dial_of fate) (answer_of lib fate m))
            ≡ failed n)
  unfolding given invoke_by_gate dial_of answer_of
  failed_call arrives dead out c reply m has f = absurd f
  failed_call (unreachable e) dead out c reply m has f =
      let (n, s, q) = invoke-unreachable (client_texts lib) out c has e in (n, s, rw (q _) refl)
  failed_call (late e) dead out c reply m has f =
      let (n, s, q) = invoke-late (client_texts lib) out c has e in (n, s, rw (q) refl)
  failed_call (lost t) dead out c reply m has f =
      let (n, s, q) = invoke-lost (client_texts lib) out c has t f in (n, s, rw (q) refl)

  -- A POST that passes the checks of a gate without interceptors, whose body can be read and whose call does not
  -- reach the handler: the HTTP client gets an error. Its status is 400 where there is no connection, 408 where
  -- the time is over, 503 where gRPC says that the service is unavailable, and 400 for its other errors,
  -- which hold no JSON object, whatever the server is. The request's content type has a codec, and no header
  -- is called x-content-type.
  pub request-Fails {ℓ} :
      {Ctx : Type ℓ} (fate : Fate) (dead : Proxy.Invoked) (default : ℤ)
      (servers : Bytes → Server Ctx) (opts : Options Context) (auth : Option (Outcome MaybeError))
      (header : GoMap (List Bytes)) (method uri content_type service endpoint : Bytes) (body : Body)
      (c : Codec)
      → check lib.sprintf messages auth method uri ≡ go_on service endpoint
      → opts.wrappers ≡ []
      → (request_payload lib.json_map body).error ≡ none
      → codec_for (media_type content_type) ≡ some c
      → Avoids x_content_type header
      → Fails fate
      → (n : NetError) × (n.status ≡ fate_status fate)
        × (request lib fate dead default servers opts auth header method uri content_type body
            ≡ returned (error_reply n))
  unfolding request call gate_texts
  request-Fails fate dead default servers opts auth header method uri content_type service endpoint
        body c passes bare reads known avoids f =
      let (low, high) = Fails-fate_status fate f in
      let has =
        sent-request_to_context lib default (media_type content_type) header service endpoint avoids
        ∙ known in
      let (n, s, q) = failed_call fate dead _ c _ _ has f in
      (
        n,
        s,
        handle-failed (gate_texts lib) opts (call lib fate dead default servers) _ body auth method
            uri content_type service endpoint passes bare reads n (omega (arith, low, s))
            (omega (arith, high, s)) q,
      )

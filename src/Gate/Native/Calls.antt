-- ===== src/Gate/Native/Calls.antt =====
-- What stands between a request and a method of this process.
use go_vkit.Prelude.{
  ◌≡◌, ◌≢◌, refl, sym, false, List, [], Option, none, some, arith, Bytes, lookup, Option-cases, inl,
  inr,
}
use go_vkit.Errors.{net, errno, other}
use go_vkit.Codec.{Codec, json, proto, codec_for}
use go_vkit.Server.Handler.{Outcome, returned, panicked, MaybeError, or_lookup}
use go_vkit.Server.Registry.{HandlerInfo, Handlers}
use go_vkit.Server.Wrappers.{wrap_all}
use go_vkit.Gate.Request.{Body, Payload, read, request_payload}
use go_vkit.Gate.Request.Reads.{read-fresh}
use mathlib.Core.Path.{subst, ◌∙◌}
use go_vkit.Gate.Front.Replies.{check-NoContent, error_response-no_content}
use go_vkit.Gate.Front.{
  Reply, content, default_err_handler, recovered, media_type, Checked, go_on, stop, check,
}
use go_vkit.Gate.Proxy.{Exchange, HandlerFunc, Options, Texts, conclude}
use go_vkit.Gate.Native.{
  Marshalled, bytes, no_bytes, Found, answer, after_call, argument, validated, unmarshalled, decode,
  known, after_read, call_method, handle_checked, handle_native, messages,
}

-- The method was called on a parameter that Validate accepts, and its reply is `b`.
abbrev pub Called {ℓ} : {Ctx : Type ℓ} → Found Ctx → Ctx → Payload → Bytes → Type 0
Called f ctx p b =
    (f.unmarshal p.bytes ≡ none)
    × (f.validate (argument f p) ≡ none)
    × (e : MaybeError) × (f.call ctx (argument f p) ≡ returned (e, bytes b))

recovered-content :
    (sprintf : Bytes → Bytes) (o : Outcome Reply) (b : Bytes)
    → recovered (some (default_err_handler sprintf)) o ≡ returned (content b)
    → o ≡ returned (content b)
unfolding recovered default_err_handler
recovered-content sprintf (returned r) b h = h
recovered-content sprintf (panicked r) b h = absurd (error_response-no_content _ b h)

conclude-content :
    (texts : Texts) (o : Outcome MaybeError × Exchange) (b : Bytes)
    → conclude texts o ≡ returned (content b)
    → (y : Exchange) × (o ≡ (returned none, y)) × (y.content ≡ b)
unfolding conclude
conclude-content texts (panicked r, x) b h = cc
conclude-content texts (returned none, x) b h = (x, refl, cc)
conclude-content texts (returned (some (net e)), x) b h = absurd (error_response-no_content _ b h)
conclude-content texts (returned (some (errno e)), x) b h = absurd (error_response-no_content _ b h)
conclude-content texts (returned (some (other e)), x) b h = absurd (error_response-no_content _ b h)

module _ (texts : Texts) where
  after_call-content :
      (o : Outcome (MaybeError × Marshalled)) (x y : Exchange)
      → after_call texts o x ≡ (returned none, y)
      → (e : MaybeError) × (o ≡ returned (e, bytes y.content))
  unfolding after_call answer
  after_call-content (panicked r) x y h = cc
  after_call-content (returned (none, bytes b)) x y h = (none, cc)
  after_call-content (returned (none, no_bytes b)) x y h = cc
  after_call-content (returned (some (net e), m)) x y h = cc
  after_call-content (returned (some (other e), m)) x y h = cc
  after_call-content (returned (some (errno e), bytes b)) x y h = (some (errno e), ground arith)
  after_call-content (returned (some (errno e), no_bytes b)) x y h = absurd (ground arith)

  module _ {ℓ} {Ctx : Type ℓ} (found : HandlerInfo → Found Ctx) (handlers : Handlers)
      (read_ct request_uri : Bytes) (ctx : Ctx) where
    decode-content :
        (h : HandlerInfo) (p : Payload) (c : Option Codec) (x y : Exchange)
        → decode texts found handlers read_ct request_uri (found h) ctx p c x ≡ (returned none, y)
        → (c ≡ some json) × Called (found h) ctx p y.content
    unfolding decode unmarshalled validated
    decode-content h p none x y e = cc
    decode-content h p (some proto) x y e = cc
    decode-content h p (some json) x y e = elim (Option-cases ((found h).unmarshal p.bytes)) [
      | inr (u, failed) ↦ absurd (ground arith)
      | inl readable ↦ elim (Option-cases ((found h).validate (argument (found h) p))) [
        | inr (v, invalid) ↦ absurd (ground arith)
        | inl valid ↦
            let (w, q) =
              after_call-content ((found h).call ctx (argument (found h) p)) x y (ground arith) in
            (refl, (readable, valid, w, q))
      ]
    ]

    known-content :
        (endpoint : Bytes) (p : Payload) (o : Option HandlerInfo) (x y : Exchange)
        → known texts found handlers read_ct request_uri ctx endpoint p o x ≡ (returned none, y)
        → (h : HandlerInfo) × (o ≡ some h)
          × (codec_for read_ct ≡ some json)
          × Called (found h) ctx p y.content
    unfolding known
    known-content endpoint p none x y e = cc
    known-content endpoint p (some h) x y e = elim (Option-cases h.req_type) [
      | inl no_type ↦ absurd (ground arith)
      | inr (t, typed) ↦
          let (c, called) = decode-content h p (codec_for read_ct) x y (ground arith) in
          (h, refl, c, called)
    ]

    after_read-content :
        (endpoint : Bytes) (p : Payload) (error : Option Bytes) (x y : Exchange)
        → after_read texts found handlers read_ct request_uri ctx endpoint p error x
          ≡ (returned none, y)
        → (h : HandlerInfo) × (or_lookup (lookup endpoint handlers) x.request.uri handlers ≡ some h)
          × (codec_for read_ct ≡ some json)
          × (error ≡ none)
          × Called (found h) ctx p y.content
    unfolding after_read
    after_read-content endpoint p (some w) x y e = cc
    after_read-content endpoint p none x y e =
        let (h, l, c, called) =
          known-content endpoint p (or_lookup (lookup endpoint handlers) x.request.uri handlers) x y
            e in
        (h, l, c, refl, called)

    call_method-content :
        (endpoint : Bytes) (x y : Exchange)
        → x.request.has_read ≡ false
        → call_method texts found handlers read_ct request_uri endpoint ctx x ≡ (returned none, y)
        → (h : HandlerInfo) × (or_lookup (lookup endpoint handlers) x.request.uri handlers ≡ some h)
          × (codec_for read_ct ≡ some json)
          × Called (found h) ctx (request_payload (texts.json_map) x.request.request) y.content
    unfolding call_method
    call_method-content endpoint x y unread e =
        let (h, l, c, ok, called) =
          after_read-content endpoint (read texts.json_map x.request).0
            (read texts.json_map x.request).0.error
            (record x { request = (read texts.json_map x.request).1 }) y e in
        let (q, u) = read-fresh texts.json_map x.request unread in
        (
          h,
          subst (λ v. or_lookup (lookup endpoint handlers) v handlers ≡ some h) u l,
          c,
          subst (λ v. Called (found h) ctx v y.content) q called,
        )

unwrapped {ℓ} :
    {Ctx : Type ℓ} (ws : List (HandlerFunc Ctx → HandlerFunc Ctx)) (f : HandlerFunc Ctx) (ctx : Ctx)
    (x : Exchange)
    → ws ≡ []
    → wrap_all ws f ctx x ≡ f ctx x
unfolding wrap_all
unwrapped ws f ctx x h = rw (h)

handle_checked-content {ℓ} :
    {Ctx : Type ℓ} (texts : Texts) (found : HandlerInfo → Found Ctx) (handlers : Handlers)
    (opts : Options Ctx) (ctx : Ctx) (method uri content_type : Bytes) (body : Body) (c : Checked)
    (b : Bytes)
    → opts.wrappers ≡ []
    → ((b' : Bytes) → c ≢ stop (returned (content b')))
    → handle_checked texts found handlers opts ctx method uri content_type body c
      ≡ returned (content b)
    → (service endpoint : Bytes) × (c ≡ go_on service endpoint)
      × (h : HandlerInfo) × (or_lookup (lookup endpoint handlers) uri handlers ≡ some h)
      × (codec_for (media_type content_type) ≡ some json)
      × Called (found h) ctx (request_payload texts.json_map body) b
unfolding handle_checked
handle_checked-content texts found handlers opts ctx method uri content_type body (stop r) b
      no_wrappers n e =
    absurd (n b (ground arith))
handle_checked-content texts found handlers opts ctx method uri content_type body
      (go_on service endpoint) b no_wrappers n e =
    let (y, q, same) = conclude-content texts _ b e in
    let r = sym (unwrapped opts.wrappers _ ctx _ no_wrappers) ∙ q in
    let (h, l, c, called) =
      call_method-content texts found handlers (media_type content_type) uri ctx endpoint _ y refl
        r in
    (
      service,
      endpoint,
      refl,
      h,
      l,
      c,
      subst (Called (found h) ctx (request_payload texts.json_map body)) same called,
    )

-- Without interceptors and with the default ErrHandler, content is sent only where the request passed the
-- checks, a handler is registered under its endpoint or its URL, its content type is one of JSON, and the
-- method was called on a parameter that was read from the payload and that Validate accepts; the content
-- is what Marshal makes of the method's reply.
pub handle_native-Called {ℓ} :
    {Ctx : Type ℓ} (texts : Texts) (found : HandlerInfo → Found Ctx) (handlers : Handlers)
    (opts : Options Ctx) (auth : Option (Outcome MaybeError)) (ctx : Ctx)
    (method uri content_type : Bytes) (body : Body) (b : Bytes)
    → opts.wrappers ≡ []
    → opts.err_handler ≡ some (default_err_handler texts.sprintf)
    → handle_native texts found handlers opts auth ctx method uri content_type body
      ≡ returned (content b)
    → (service endpoint : Bytes) × (check texts.sprintf messages auth method uri
        ≡ go_on service endpoint)
      × (h : HandlerInfo) × (or_lookup (lookup endpoint handlers) uri handlers ≡ some h)
      × (codec_for (media_type content_type) ≡ some json)
      × Called (found h) ctx (request_payload texts.json_map body) b
unfolding handle_native
handle_native-Called texts found handlers opts auth ctx method uri content_type body b no_wrappers
      default e =
    handle_checked-content texts found handlers opts ctx method uri content_type body _ b
      no_wrappers (check-NoContent texts.sprintf messages auth method uri)
      (recovered-content texts.sprintf _ b (
        subst
          (λ o.
            recovered o (
              handle_checked texts found handlers opts ctx method uri content_type body
                (check texts.sprintf messages auth method uri))
            ≡ returned (content b))
          default e))

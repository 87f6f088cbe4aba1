-- ===== src/Gate/Native.antt =====
-- NativeHandler.Handle of gate/nativehandler.go: a request calls a method of a service of this process.
-- What reflection and the codec find there is in the record `Found`; the fields Files and Filenames are taken to
-- have the types of what is stored there.
pub mod Calls
pub mod Registration
pub mod Declared
mod Tests
use go_vkit.Prelude.{
  ℕ, ◌++◌, Bool, true, false, List, [], ◌∷◌, Option, none, some, codes, Bytes, GoMap, lookup,
  if◌then◌else◌, is_zero, negsuc,
}
use go_vkit.Errors.{Error, net, errno, other, bad_request, business_error}
use go_vkit.Codec.{Codec, json, proto, codec_for}
use go_vkit.Server.Handler.{Outcome, returned, panicked, MaybeError, or_lookup}
use go_vkit.Server.Registry.{HandlerInfo, Handlers}
use go_vkit.Server.Wrappers.{wrap_all}
use go_vkit.Gate.Request.{FileInfo, Body, Payload, HttpRequest, read}
use go_vkit.Gate.Front.{Reply, recovered, media_type, Messages, Checked, go_on, stop, check}
use go_vkit.Gate.Proxy.{Exchange, HandlerFunc, Options, Texts, url_suffix, conclude}

-- The parameter of a method: what Unmarshal reads of the payload, and the fields Files and Filenames.
pub record Argument : Type 0 where
  pub payload : Bytes
  pub files : Option (GoMap Bytes)
  pub filenames : Option (GoMap Bytes)

-- What Marshal makes of a reply.
pub data Marshalled : Type 0 where
  bytes : Bytes → Marshalled
  no_bytes : Bytes → Marshalled

-- A registered method: the error of Unmarshal on a payload, whether the parameter has a field Files and
-- a field Filenames that can be set, the error of Validate, `none` for nil or where there is no such
-- method, and what a call returns, with what Marshal makes of its reply.
pub record Found {ℓ} (Ctx : Type ℓ) : Type ℓ where
  pub unmarshal : Bytes → Option Bytes
  pub has_files : Bool
  pub has_filenames : Bool
  pub validate : Argument → Option Bytes
  pub call : Ctx → Argument → Outcome (MaybeError × Marshalled)

map_files {ℓ} : {A : Type ℓ} → (FileInfo → A) → GoMap FileInfo → GoMap A
map_files f [] = []
map_files f ((k, v) ∷ m) = (k, f v) ∷ map_files f m

when {ℓ} : {A : Type ℓ} → Bool → A → Option A
when b x = if b then some x else none

pub argument {ℓ} : {Ctx : Type ℓ} → Found Ctx → Payload → Argument
unfolding when map_files
argument f p = record {
  payload = p.bytes;
  files = elim p.files [ none ↦ none | some m ↦ when f.has_files (map_files (λ i. i.content) m) ];
  filenames = elim p.files [
    | none ↦ none
    | some m ↦ when f.has_filenames (map_files (λ i. i.filename) m)
  ];
}

-- The text of the error of Read, in UTF-8.
abbrev read_failed : Bytes
read_failed =
    0xe8 ∷ 0x8e ∷ 0xb7 ∷ 0xe5 ∷ 0x8f ∷ 0x96 ∷ codes "body"
    ++ (0xe5 ∷ 0xa4 ∷ 0xb1 ∷ 0xe8 ∷ 0xb4 ∷ 0xa5 ∷ codes " ")

pub messages : Messages
unfolding url_suffix
messages = record {
  bad_method = λ m uri. codes "method:" ++ (m ++ (codes " not support," ++ url_suffix uri));
  no_service = λ uri. codes "service is empty" ++ url_suffix uri;
  no_endpoint = λ uri. codes "endpoint is empty" ++ url_suffix uri;
}

-- The pointer of a nil interface or a nil type.
abbrev nil_pointer : Bytes
nil_pointer = codes "runtime error: invalid memory address or nil pointer dereference"

module _ (texts : Texts) where
  open texts use {sprintf, json_map, text}

  refuse : Bytes → Exchange → Outcome MaybeError × Exchange
  refuse msg x = (returned (some (net (bad_request sprintf msg))), x)

  business : Bytes → ℕ → Exchange → Outcome MaybeError × Exchange
  business msg below x = (returned (some (net (business_error sprintf (negsuc below) msg))), x)

  answer : Marshalled → Exchange → Outcome MaybeError × Exchange
  unfolding refuse
  answer (bytes b) x = (returned none, record x { content = b })
  answer (no_bytes e) x = refuse e x

  -- After the call: an Errno keeps its code, and one of code 0 is none; any other error has code -2.
  after_call : Outcome (MaybeError × Marshalled) → Exchange → Outcome MaybeError × Exchange
  unfolding business answer
  after_call (panicked r) x = (panicked r, x)
  after_call (returned (none, m)) x = answer m x
  after_call (returned (some (errno e), m)) x =
      if is_zero e.code
      then answer m x
      else (returned (some (net (business_error sprintf e.code e.msg))), x)
  after_call (returned (some e, m)) x = business (codes "call error: " ++ text e) 1 x

  module _ {ℓ} {Ctx : Type ℓ} (found : HandlerInfo → Found Ctx) (handlers : Handlers)
      (read_ct request_uri : Bytes) where
    validated : Found Ctx → Ctx → Argument → Option Bytes → Exchange → Outcome MaybeError × Exchange
    unfolding business after_call
    validated f ctx a (some e) x = business (codes "param error: " ++ e) 0 x
    validated f ctx a none x = after_call (f.call ctx a) x

    unmarshalled :
        Found Ctx → Ctx → Argument → Option Bytes → Exchange → Outcome MaybeError × Exchange
    unfolding refuse validated
    unmarshalled f ctx a (some e) x = refuse (codes "Unmarshal error: " ++ e) x
    unmarshalled f ctx a none x = validated f ctx a (f.validate a) x

    -- A content type with no codec is a nil interface, and the call of its method Name panics.
    decode : Found Ctx → Ctx → Payload → Option Codec → Exchange → Outcome MaybeError × Exchange
    unfolding refuse unmarshalled argument
    decode f ctx p none x = (panicked nil_pointer, x)
    decode f ctx p (some proto) x = refuse (codes "not support content type:" ++ request_uri) x
    decode f ctx p (some json) x = unmarshalled f ctx (argument f p) (f.unmarshal p.bytes) x

    -- `hi.reqType.Elem()` of a method with no parameter is a call on a nil type.
    known :
        Ctx
        → (endpoint : Bytes) → Payload
        → Option HandlerInfo
        → Exchange
        → Outcome MaybeError × Exchange
    unfolding refuse decode
    known ctx endpoint p none x = refuse (codes "unknown method " ++ endpoint) x
    known ctx endpoint p (some h) x = elim h.req_type [
      | none ↦ (panicked nil_pointer, x)
      | some t ↦ decode (found h) ctx p (codec_for read_ct) x
    ]

    after_read :
        Ctx → (endpoint : Bytes) → Payload → Option Bytes → Exchange → Outcome MaybeError × Exchange
    unfolding refuse known
    after_read ctx endpoint p (some e) x = refuse (read_failed ++ (e ++ url_suffix request_uri)) x
    after_read ctx endpoint p none x =
        known ctx endpoint p (or_lookup (lookup endpoint handlers) x.request.uri handlers) x

    -- The innermost function.
    call_method : (endpoint : Bytes) → HandlerFunc Ctx
    unfolding after_read
    call_method endpoint ctx x =
        let (p, r) = read json_map x.request in
        after_read ctx endpoint p p.error (record x { request = r })

  module _ {ℓ} {Ctx : Type ℓ} (found : HandlerInfo → Found Ctx) (handlers : Handlers)
      (opts : Options Ctx) where
    handle_checked : Ctx → (method uri content_type : Bytes) → Body → Checked → Outcome Reply
    unfolding call_method
    handle_checked ctx method uri content_type body (stop r) = r
    handle_checked ctx method uri content_type body (go_on service endpoint) =
        let ct = media_type content_type in
        let r : HttpRequest = record {
          uri = uri;
          request = body;
          service = service;
          method = method;
          content_type = ct;
          body = [];
          has_read = false;
          file_map = none;
        } in
        conclude texts (
          wrap_all opts.wrappers (call_method found handlers ct uri endpoint) ctx
            (record { request = r; content = []; calls = [] }))

    unfoldable pub handle_native :
        Option (Outcome MaybeError) → Ctx → (method uri content_type : Bytes) → Body → Outcome Reply
    unfolding handle_checked
    handle_native auth ctx method uri content_type body =
        recovered opts.err_handler
          (handle_checked ctx method uri content_type body (check sprintf messages auth method uri))

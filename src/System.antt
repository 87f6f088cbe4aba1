-- ===== src/System.antt =====
-- One request through all parts: the gate (gate/grpchandler.go) calls a service by InvokeByGate
-- (grpcclient/utils.go), whose call arrives at the handler of grpcserver/grpcserver.go. The parts are those of
-- Gate.Proxy, Client.Invoke and Server.Process; between them stand gRPC and encoding/json, as parameters.
pub mod Delivered
pub mod Lost
pub mod Served
pub mod Typed
mod Tests
use go_vkit.Prelude.{
  ℕ, Bool, true, false, List, [], ◌∷◌, ◌++◌, Option, none, some, codes, Bytes, GoMap, ℤ, length,
  drop, ◌≤◌, ◌≡◌,
}
use go_vkit.Strings.Laws.{Lacks}
use go_vkit.Metadata.{Context, background, new_context, from_context}
use go_vkit.Errors.{NetError, Errno, Error, net, errno, other, Unmarshalled}
use go_vkit.Server.Registry.{HandlerInfo, Handlers}
use go_vkit.Server.Headers.{Headers}
use go_vkit.Server.Handler
use go_vkit.Server.Handler.{Outcome, MaybeError}
use go_vkit.Server.Process
use go_vkit.Server.Process.{Unary}
use go_vkit.Client.Invoke
use go_vkit.Client.Invoke.{
  Sent, Answer, answered, expired, crashed, prepare, invoke, invoke_by_gate,
}
use go_vkit.Gate.Front.{Reply, media_type}
use go_vkit.Gate.Request.{Body}
use go_vkit.Gate.Proxy
use go_vkit.Gate.Proxy.{Options, raw, failed}
use go_vkit.Gate.Upgrade.{metadata_of}

-- The libraries. `grpc_error` is the text of the error of a call whose handler returned an error with this text,
-- `incoming` the metadata that arrive for the headers of a call.
pub record Library : Type 0 where
  pub sprintf : Bytes → Bytes
  pub quote : Bytes → Bytes
  pub runes : Bytes → List ℕ
  pub of_runes : List ℕ → Bytes
  pub unmarshal : Bytes → Unmarshalled
  pub json : NetError → Bytes
  pub errno_json : Errno → Bytes
  pub json_map : GoMap Bytes → Bytes
  pub atoi : Bytes → Option ℤ
  pub seconds : ℤ → ℤ
  pub grpc_error : Bytes → Bytes
  pub incoming : GoMap Bytes → GoMap (List Bytes)

-- What gRPC puts around the text of an error, with the conversions between strings and runes: a prefix of
-- characters that are one byte long, none of them a brace.
pub record Wraps (lib : Library) (prefix : Bytes) : Type 0 where
  pub wrapped : (t : Bytes) → lib.grpc_error t ≡ prefix ++ t
  pub lacks : Lacks b'{' prefix
  pub object : (e : NetError) → (rest : Bytes) × (lib.json e ≡ codes "{\"" ++ rest)
  pub long : (e : NetError) → length prefix ≤ length (lib.runes (prefix ++ lib.json e))
  pub cut :
      (e : NetError)
      → lib.of_runes (drop (length prefix) (lib.runes (prefix ++ lib.json e))) ≡ lib.json e

-- A server: its name and its handlers, what a call with this body meets, and the JSON of the reply that
-- it sends.
pub record Server {ℓ} (Ctx : Type ℓ) : Type ℓ where
  pub name : Bytes
  pub handlers : Handlers
  pub remote : Option Bytes
  pub make_ctx : Headers → Ctx
  pub unary : Bytes → HandlerInfo → Unary Ctx
  pub streaming : Bytes → HandlerInfo → Option Bytes × (Ctx → Outcome MaybeError)
  pub reply : Sent → Bytes → Bytes

-- What becomes of a call outside the three parts: it arrives; getConn fails; the time is over first; or gRPC itself
-- ends it with the text of an error.
pub data Fate : Type 0 where
  arrives : Fate
  unreachable : Bytes → Fate
  late : (ctx_err : Bytes) → Fate
  lost : Bytes → Fate

unfoldable pub dial_of : Fate → Option Bytes
dial_of (unreachable e) = some e
dial_of f = none

-- requestToContext, with the metadata that Handle gives it and the background context.
unfoldable pub request_to_context : (read_ct : Bytes) → GoMap (List Bytes) → Context
request_to_context read_ct header = new_context background (metadata_of read_ct header)

module _ (lib : Library) where
  -- The method Error.
  pub text : Error → Bytes
  text (net e) = lib.json e
  text (errno e) = lib.errno_json e
  text (other t) = t

  unfoldable pub server_texts : Handler.Texts
  unfolding text
  server_texts = record { sprintf = lib.sprintf; quote = lib.quote; text = text }

  unfoldable pub client_texts : Invoke.Texts
  client_texts = record {
    sprintf = lib.sprintf;
    runes = lib.runes;
    of_runes = lib.of_runes;
    unmarshal = lib.unmarshal;
    json = lib.json;
  }

  unfoldable pub gate_texts : Proxy.Texts
  unfolding text
  gate_texts = record { sprintf = lib.sprintf; json_map = lib.json_map; text = text }

  -- What gRPC returns to the client for what the handler returned.
  unfoldable pub arrival : MaybeError → Option Bytes
  unfolding text
  arrival none = none
  arrival (some e) = some (lib.grpc_error (text e))

  unfoldable pub answer_of : Fate → MaybeError → Answer
  unfolding arrival
  answer_of (late e) m = expired e
  answer_of (lost t) m = answered (some t)
  answer_of f m = answered (arrival m)

  -- What Invoke sends for the gate, whose context has no deadline. The metadata are those of FromContext.
  unfoldable pub sent : (default : ℤ) → Context → (service endpoint : Bytes) → Sent
  sent default ctx service endpoint =
      prepare lib.atoi lib.seconds default (from_context ctx) none service endpoint

  -- The results of InvokeByGate. Where the client crashes the program ends; `dead` stands for what the gate
  -- would get then.
  unfoldable pub given : (dead : Proxy.Invoked) → Bytes → Invoke.Invoked → Proxy.Invoked
  unfolding invoke_by_gate client_texts
  given dead reply crashed = dead
  given dead reply i = elim (invoke_by_gate client_texts i) [ none ↦ raw reply | some e ↦ failed e ]

  module _ {ℓ} {Ctx : Type ℓ} where
    -- What the handler of a server returns for a call, without interceptors.
    unfoldable pub serve : Server Ctx → Sent → (body : Bytes) → MaybeError
    unfolding server_texts
    serve s out body =
        Process.handle server_texts [] s.name s.make_ctx (s.unary body) (s.streaming body)
          s.handlers (some out.path) (some (lib.incoming out.header)) s.remote

    -- InvokeByGate. `servers` has the server of a target.
    unfoldable pub call :
        (fate : Fate) (dead : Proxy.Invoked) (default : ℤ) (servers : Bytes → Server Ctx)
        → Context
        → (target service endpoint body : Bytes) → Proxy.Invoked
    unfolding given serve sent client_texts answer_of dial_of
    call fate dead default servers ctx target service endpoint body =
        let out = sent default ctx service endpoint in
        given dead ((servers target).reply out body) (
          invoke client_texts out (dial_of fate) (answer_of fate (serve (servers target) out body)))

    -- GrpcHandler.Handle, with its calls.
    unfoldable pub request :
        (fate : Fate) (dead : Proxy.Invoked) (default : ℤ) (servers : Bytes → Server Ctx)
        (opts : Options Context)
        → (auth : Option (Outcome MaybeError)) → (header : GoMap (List Bytes))
        → (method uri content_type : Bytes) → Body
        → Outcome Reply
    unfolding call gate_texts
    request fate dead default servers opts auth header method uri content_type body =
        Proxy.handle gate_texts opts (call fate dead default servers) auth
          (request_to_context (media_type content_type) header) method uri content_type body

-- ===== src/Gate/Native/Tests.antt =====
-- Requests to the gate.
use go_vkit.Prelude.{
  ◌≡◌, ◌⊎◌, refl, Bool, true, false, List, ◌∷◌, [], none, some, codes, Bytes, bytes_eq, insert,
  lookup,
}
use go_vkit.Strings.{to_upper, split, index, contains}
use go_vkit.Codec.{codec_for, json}
use go_vkit.Server.Registry.{
  ApiEndpoint, Service, HandlerInfo, Handlers, method_name, param_types, target, store,
  handler_info, register_target, register_method, register_methods, register_with_url, endpoint_map,
  register_all, register_api_endpoint,
}
use go_vkit.Server.Registry.Declared.{Names}
use go_vkit.Gate.Native.Registration.{register_native_endpoint}
use go_vkit.Gate.Native.Declared.{handle_native-declared}
use go_vkit.Server.Wrappers.{wrap_all}
use go_vkit.Server.Handler.{returned, or_lookup}
use go_vkit.Gate.Request.{Body, request_payload, read}
use go_vkit.Gate.Front.{default_err_handler, recovered, media_type, names_of, go_on, check}
use go_vkit.Gate.Front.Replies.{HasStatus}
use go_vkit.Server.Handler.{panicked}
use go_vkit.Gate.Proxy.{handle_calls, Options, Texts, raw, handle, conclude}
use go_vkit.Gate.Proxy.Guards.{handle-HasStatus, Guarded, handle_calls-Guarded}
use go_vkit.Gate.Native.{Found, bytes, messages, handle_native}
use go_vkit.Gate.Native.Calls.{Called, handle_native-Called}

abbrev texts : Texts
texts = record { sprintf = λ b. b; json_map = λ m. []; text = λ e. codes "error" }

abbrev opts : Options Bool
opts = record {
  grpc_port = 10000;
  err_handler = some (default_err_handler (λ b. b));
  wrappers = [];
}

abbrev body : Body
body = record {
  content_type = codes "application/json";
  all = codes "{}";
  all_error = none;
  close_fails = false;
  form = [];
  multipart_error = none;
  values = [];
  files = [];
}

abbrev url : Bytes
url = codes "/rpc/cart/Cart.Add"

abbrev cart_add : HandlerInfo
cart_add = record {
  handler = codes "Cart";
  method = codes "Add";
  req_type = some 1;
  resp_type = 2;
  client_stream = false;
  server_stream = false;
}

abbrev cart_handlers : Handlers
cart_handlers = (codes "Cart.Add", cart_add) ∷ []

abbrev found : HandlerInfo → Found Bool
found h = record {
  unmarshal = λ b. none;
  has_files = false;
  has_filenames = false;
  validate = λ a. none;
  call = λ c a. returned (none, bytes (codes "[1]"));
}

handle_native-Called_example :
    (service endpoint : Bytes) × (check (λ b. b) messages none (codes "post") url
      ≡ go_on service endpoint)
    × (h : HandlerInfo) × (or_lookup (lookup endpoint cart_handlers) url cart_handlers ≡ some h)
    × (codec_for (media_type (codes "application/json; charset=utf-8")) ≡ some json)
    × Called (found h) true (request_payload (λ m. []) body) (codes "[1]")
unfolding handle_native check to_upper names_of split wrap_all conclude recovered or_lookup lookup
    bytes_eq codec_for media_type index request_payload contains read
handle_native-Called_example =
    handle_native-Called texts found cart_handlers opts none true (codes "post") url
      (codes "application/json; charset=utf-8") body (codes "[1]") refl refl refl

-- The authorisation panics.
handle-HasStatus_example : HasStatus (codes "POST") (
    handle texts opts
      (λ c t s e b. raw b)
      (some (panicked (codes "no token")))
      true
      (codes "POST")
      url
      (codes "application/json")
      body)
handle-HasStatus_example =
    handle-HasStatus texts opts (λ c t s e b. raw b) (some (panicked (codes "no token"))) true
      (codes "POST") url (codes "application/json") body refl

-- A request that the authorisation lets through.
handle_calls-Guarded_example :
    Guarded
      (some (returned none))
      (codes "post")
      url
      (handle_calls texts opts
        (λ c t s e b. raw b)
        (some (returned none))
        true
        (codes "post")
        url
        (codes "application/json")
        body).1
handle_calls-Guarded_example =
    handle_calls-Guarded texts opts (λ c t s e b. raw b) (some (returned none)) true (codes "post")
      url (codes "application/json") body

-- type Cart struct{}, with func (*Cart) Add(ctx, *In, *Out) error
abbrev cart : Service
cart = record {
  name = codes "Cart";
  methods = record { name = codes "Add"; params = 1 ∷ 2 ∷ [] } ∷ [];
}

abbrev cart_endpoints : List ApiEndpoint
cart_endpoints =
    record { method = codes "Cart.Add"; url = url; client_stream = false; server_stream = false }
    ∷ []

abbrev registered : Handlers
registered = (url, cart_add) ∷ (codes "Cart.Add", cart_add) ∷ []

cart-registered : register_native_endpoint (cart ∷ []) cart_endpoints [] ≡ some registered
unfolding register_native_endpoint register_api_endpoint register_all register_with_url
    register_methods register_method register_target store param_types target method_name
    endpoint_map handler_info insert lookup bytes_eq
cart-registered = refl

handle_native-declared_example :
    (service endpoint : Bytes) × (check (λ b. b) messages none (codes "post") url
      ≡ go_on service endpoint)
    × (Names endpoint cart_endpoints ⊎ Names url cart_endpoints)
unfolding handle_native check to_upper names_of split wrap_all conclude recovered or_lookup lookup
    bytes_eq codec_for media_type index request_payload contains read
handle_native-declared_example =
    handle_native-declared texts found (cart ∷ []) cart_endpoints registered opts none true
      (codes "post") url (codes "application/json; charset=utf-8") body (codes "[1]")
      cart-registered refl refl refl

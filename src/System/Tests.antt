-- ===== src/System/Tests.antt =====
-- A gate that calls the method Add of a service cart, which fails with an Errno of code 7.
use go_vkit.Prelude.{
  ◌≡◌, refl, Bool, true, false, List, [], ◌∷◌, ◌++◌, Option, none, some, arith, codes, Bytes, GoMap,
  Distinct, zero, suc, ℤ, pos, negsuc, lookup, bytes_eq,
}
use go_vkit.Strings.{byte_lower, to_upper, to_lower, split, contains, index}
use go_vkit.Metadata.{Context}
use go_vkit.Codec.{json, codec_for}
use go_vkit.Errors.{
  NetError, Error, Unmarshalled, errno, net, other, whole, partial, business_error,
}
use go_vkit.Server.Registry.{HandlerInfo}
use go_vkit.Server.Handler.{returned, business}
use go_vkit.Server.Process.{fixed}
use go_vkit.Client.Invoke.{Sent, x_content_type}
use go_vkit.Gate.Request.{Body, request_payload}
use go_vkit.Gate.Front.{error_reply, media_type, names_of, check}
use go_vkit.Gate.Proxy.{Options, raw}
use go_vkit.Gate.Upgrade.Typed.{Avoids}
use go_vkit.System.{
  request_to_context, Library, Wraps, Server, sent, request, arrives, lost, serve, server_texts,
}
use go_vkit.System.Delivered.{Readable, Answers, request-serve}
use go_vkit.System.Lost.{request-Fails}
use go_vkit.System.Served.{Delivers, Gets, request-business}

one_value : Option Bytes → GoMap (List Bytes)
one_value none = []
one_value (some v) = (x_content_type, v ∷ []) ∷ []

-- In place of the JSON text of an error: the two characters that it begins with, and the fields.
encode_code : ℤ → Bytes → Bytes
encode_code (pos n) rest = 0 ∷ n ∷ rest
encode_code (negsuc n) rest = 1 ∷ n ∷ rest

encode : NetError → Bytes
unfolding encode_code
encode e = codes "{\"" ++ (e.status ∷ encode_code e.code e.msg)

decode : Bytes → Unmarshalled
decode (q ∷ r ∷ status ∷ zero ∷ n ∷ msg) =
    whole (record { code = pos n; status = status; msg = msg })
decode (q ∷ r ∷ status ∷ suc c ∷ n ∷ msg) =
    whole (record { code = negsuc n; status = status; msg = msg })
decode b = partial (record { code = pos 0; status = 0; msg = b })

decode-encode : (e : NetError) → decode (encode e) ≡ whole e
unfolding encode decode encode_code
decode-encode e = go e.code
  where
    go :
        (z : ℤ)
        → decode (codes "{\"" ++ (e.status ∷ encode_code z e.msg))
          ≡ whole (record { code = z; status = e.status; msg = e.msg })
    go (pos n) = refl
    go (negsuc n) = refl

abbrev lib : Library
lib = record {
  sprintf = λ b. b;
  quote = λ b. b;
  runes = λ b. b;
  of_runes = λ r. r;
  unmarshal = decode;
  json = encode;
  errno_json = λ e. e.msg;
  json_map = λ m. [];
  atoi = λ b. none;
  seconds = λ z. z;
  grpc_error = λ t. codes "rpc error: " ++ t;
  incoming = λ header. one_value (lookup x_content_type header);
}

lib-Wraps : Wraps lib (codes "rpc error: ")
unfolding encode
lib-Wraps = record {
  wrapped = λ t. refl;
  lacks = ground arith;
  object = λ e. (_, refl);
  long = λ e. ground arith;
  cut = λ e. refl;
}

lib-Delivers : Delivers lib
unfolding one_value lookup bytes_eq
lib-Delivers = record {
  distinct = λ header. go (lookup x_content_type header);
  typed = λ header v c known h. rw (h) refl;
}
  where
    go : (o : Option Bytes) → Distinct (one_value o)
    go none = tt
    go (some v) = (refl, tt)

lib-Readable : (m : Option Error) → Readable lib m
lib-Readable none = tt
lib-Readable (some (net e)) = decode-encode e
lib-Readable (some (errno e)) = tt
lib-Readable (some (other t)) = tt

abbrev cart_add : HandlerInfo
cart_add = record {
  handler = codes "Cart";
  method = codes "Add";
  req_type = some 1;
  resp_type = 2;
  client_stream = false;
  server_stream = false;
}

abbrev cart : Server Bool
cart = record {
  name = codes "cart";
  handlers = (codes "Cart.Add", cart_add) ∷ [];
  remote = none;
  make_ctx = λ hs. true;
  unary = λ b h. record {
    receive = none;
    unmarshal = none;
    invalid = none;
    method =
        λ c. returned (some (errno (record { project = pos 1; code = pos 7; msg = codes "full" })));
    fields = fixed;
    send = none;
  };
  streaming = λ b h. (none, λ c. returned none);
  reply = λ out b. codes "[]";
}

abbrev opts : Options Context
opts = record { grpc_port = 80; err_handler = none; wrappers = [] }

abbrev header : GoMap (List Bytes)
header = (codes "Content-Type", codes "application/json" ∷ []) ∷ []

header-Avoids : Avoids x_content_type header
unfolding to_lower byte_lower
header-Avoids = (λ e. ground (arith, e), tt)

abbrev body : Body
body = record {
  content_type = codes "application/json";
  all = codes "{}";
  all_error = none;
  close_fails = false;
  form = [];
  multipart_error = none;
  values = [];
  files = [];
}

abbrev bytes : Bytes
bytes = (request_payload (λ m. []) body).bytes

abbrev out : Sent
out =
    sent lib (pos 5) (request_to_context (media_type (codes "application/json")) header)
      (codes "cart") (codes "Cart.Add")

request-serve_example : Answers (codes "[]") (serve lib cart out bytes) (
    request lib arrives
      (raw [])
      (pos 5)
      (λ t. cart)
      opts
      none
      header
      (codes "post")
      (codes "/rpc/cart/Cart.Add")
      (codes "application/json")
      body)
unfolding check bytes_eq to_upper names_of split request_payload contains codec_for lookup
    media_type
request-serve_example =
    request-serve lib (codes "rpc error: ") lib-Wraps opts none header (codes "post")
      (codes "/rpc/cart/Cart.Add") (codes "application/json") (codes "cart") (codes "Cart.Add") body
      refl refl refl (raw []) (pos 5) (λ t. cart) json refl header-Avoids (refl, tt)
      (lib-Readable (serve lib cart out bytes))

request-business_example :
    Gets lib
      (codes "[]")
      (some (errno (record { project = pos 1; code = pos 7; msg = codes "full" })))
      (request lib arrives
        (raw [])
        (pos 5)
        (λ t. cart)
        opts
        none
        header
        (codes "post")
        (codes "/rpc/cart/Cart.Add")
        (codes "application/json")
        body)
unfolding check bytes_eq to_upper names_of split request_payload contains codec_for lookup
    media_type business business_error server_texts
request-business_example =
    request-business lib (codes "rpc error: ") lib-Wraps lib-Delivers opts none header
      (codes "post") (codes "/rpc/cart/Cart.Add") (codes "application/json") (codes "cart")
      (codes "Cart") (codes "Add") body (raw []) (pos 5) (λ t. cart) cart_add 1 json
      (some (errno (record { project = pos 1; code = pos 7; msg = codes "full" }))) refl refl refl
      (ground arith) (λ e. cc) (λ e. cc) (ground arith) (ground arith) (ground arith) (ground arith)
      refl refl refl refl header-Avoids
      (record {
        receives = refl;
        unmarshals = refl;
        valid = refl;
        sends = refl;
        no_fields = refl;
        returns = refl;
      })
      (decode-encode _)

request-Fails_example :
    (n : NetError) × (n.status ≡ 503)
    × (request lib
          (lost (codes "rpc error: code = Unavailable desc = down"))
          (raw [])
          (pos 5)
          (λ t. cart)
          opts
          none
          header
          (codes "post")
          (codes "/rpc/cart/Cart.Add")
          (codes "application/json")
          body
        ≡ returned (error_reply n))
unfolding check bytes_eq to_upper names_of split request_payload contains codec_for lookup
    media_type index
request-Fails_example =
    request-Fails lib (lost (codes "rpc error: code = Unavailable desc = down")) (raw []) (pos 5)
      (λ t. cart) opts none header (codes "post") (codes "/rpc/cart/Cart.Add")
      (codes "application/json") (codes "cart") (codes "Cart.Add") body json refl refl refl refl
      header-Avoids refl

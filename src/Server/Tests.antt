-- ===== src/Server/Tests.antt =====
-- A server with one method, Cart.Add.
use go_vkit.Prelude.{
  ◌≡◌, ◌≤◌, refl, Bool, true, ◌∷◌, [], List, none, some, arith, codes, Bytes, bytes_eq, insert,
  length, ℕ, Option,
}
use go_vkit.Errors.{other}
use go_vkit.Routes.{method_to_grpc}
use go_vkit.Server.Registry.{
  Handlers, Method, Service, register, register_with_url, register_methods, register_method,
  register_target, target, store, handler_info, param_types, method_name,
}
use go_vkit.Server.Wrappers.{wrap_all}
use go_vkit.Server.Options.{GrpcOption, grpc_wrap_handler, name, new_grpc_options}
use go_vkit.Server.Options.Order.{wrap_all-wrappers_in}
use go_vkit.Server.Handler.{returned, Texts, to, route, recovered}
use go_vkit.Server.Handler.Registered.{route-register}
use go_vkit.Server.Registry.Stored.{first, later, plain_handler}
use go_vkit.Server.Process.{clashing, Unary, process_request}
use go_vkit.Server.Process.Errors.{IsReported, process_request-IsReported}
use go_vkit.Server.Buffers.{gets, puts, new_sized_buffer_pool, uses, get_buffer}
use go_vkit.Server.Buffers.Bounds.{get_buffer-Fresh}

abbrev texts : Texts
texts = record { sprintf = λ b. b; quote = λ b. b; text = λ e. codes "error" }

abbrev add_method : Method
add_method = record { name = codes "Add"; params = 1 ∷ 2 ∷ [] }

abbrev list_method : Method
list_method = record { name = codes "List"; params = 3 ∷ [] }

abbrev cart : Service
cart = record { name = codes "Cart"; methods = add_method ∷ list_method ∷ [] }

abbrev registered : Handlers
registered =
    (codes "Cart.Add", plain_handler cart add_method (some 1, 2))
    ∷ (codes "Cart.List", plain_handler cart list_method (none, 3))
    ∷ []

cart-registered : register cart [] ≡ some registered
unfolding register register_with_url register_methods register_method register_target target store
    handler_info param_types method_name insert bytes_eq
cart-registered = refl

route-register_example :
    (types : Option ℕ × ℕ) × (param_types (3 ∷ []) ≡ some types)
    × (route texts registered (some (method_to_grpc (codes "shop") (codes "Cart.List")))
        ≡ to (plain_handler cart list_method types) (codes "Cart.List"))
route-register_example =
    route-register texts cart list_method [] registered (codes "shop") cart-registered (later first)
      (((λ e. cc), tt), (tt, tt)) (ground arith) (λ e. cc) (λ e. cc) (ground arith) (ground arith)
      (ground arith) (ground arith)

-- A call whose method fails, with a parameter whose field Code is a string.
abbrev failing : Unary Bool
failing = record {
  receive = none;
  unmarshal = none;
  invalid = none;
  method = λ c. returned (some (other (codes "down")));
  fields = clashing (codes "reflect.Set: value of type int32 is not assignable to type string");
  send = none;
}

process_request-IsReported_example : IsReported (
    recovered texts
      (process_request texts []
        (codes "cart")
        failing
        (codes "application/grpc")
        (codes "application/grpc")
        (codes "Cart.Add")
        true).outcome)
process_request-IsReported_example =
    process_request-IsReported texts (codes "cart") failing (codes "application/grpc")
      (codes "application/grpc") (codes "Cart.Add") true

abbrev options : List (GrpcOption Bytes Bytes)
options =
    grpc_wrap_handler (λ b. b'a' ∷ b) ∷ name (codes "cart") ∷ grpc_wrap_handler (λ b. b'b' ∷ b) ∷ []

wrap_all-wrappers_in_example :
    wrap_all (new_grpc_options options).hdlr_wrappers (codes "c") ≡ codes "abc"
wrap_all-wrappers_in_example = wrap_all-wrappers_in options (codes "c")

get_buffer-Fresh_example :
    let bp =
      uses
        (gets ∷ puts (record { bytes = codes "old"; cap = 9 }) ∷ [])
        (new_sized_buffer_pool 2 4) in
    (length bp.c ≤ 2) × ((get_buffer bp).0.bytes ≡ []) × ((get_buffer bp).0.cap ≤ 4)
get_buffer-Fresh_example =
    get_buffer-Fresh 2 4 (gets ∷ puts (record { bytes = codes "old"; cap = 9 }) ∷ [])

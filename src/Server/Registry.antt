-- ===== src/Server/Registry.antt =====
-- RegisterApiEndpoint, RegisterWithUrl and Register of grpcserver/grpcserver.go, over what package
-- reflect says of a service: its type's name and its methods.
pub mod Declared
pub mod Stored
use go_vkit.Prelude.{
  ℕ, zero, suc, Bool, true, false, not, List, [], ◌∷◌, ◌++◌, Option, none, some, if◌then◌else◌,
  Bytes, GoMap, lookup, insert,
}
use go_vkit.Routes.{is_empty}

-- grpcx.ApiEndpoint
pub record ApiEndpoint : Type 0 where
  pub method : Bytes
  pub url : Bytes
  pub client_stream : Bool
  pub server_stream : Bool

-- A method of a Go type, with the types of its parameters behind the receiver and the context.
pub record Method : Type 0 where
  pub name : Bytes
  pub params : List ℕ

pub record Service : Type 0 where
  pub name : Bytes
  pub methods : List Method

pub record HandlerInfo : Type 0 where
  pub handler : Bytes
  pub method : Bytes
  pub req_type : Option ℕ
  pub resp_type : ℕ
  pub client_stream : Bool
  pub server_stream : Bool

abbrev pub Handlers : Type 0
Handlers = GoMap HandlerInfo

-- hName + "." + m.Name
unfoldable pub method_name : Service → Method → Bytes
method_name s m = s.name ++ (b'.' ∷ m.name)

-- `reqType` and `respType` by m.Type.NumIn(), which counts the receiver and the context too; `none` is
-- the panic.
unfoldable pub param_types : List ℕ → Option (Option ℕ × ℕ)
param_types (resp ∷ []) = some (none, resp)
param_types (req ∷ resp ∷ []) = some (some req, resp)
param_types _ = none

-- What the loop of RegisterWithUrl knows of a method before it stores the handler.
pub record Target : Type 0 where
  pub url : Bytes
  pub method : Bytes
  pub client_stream : Bool
  pub server_stream : Bool

-- `none` is `continue`.
unfoldable pub target : Option (GoMap ApiEndpoint) → Bytes → Option Target
target none name =
    some (record { url = name; method = []; client_stream = false; server_stream = false })
target (some endpoints) name = elim (lookup name endpoints) [
  | none ↦ none
  | some desc ↦ some (record {
    url = desc.url;
    method = desc.method;
    client_stream = desc.client_stream;
    server_stream = desc.server_stream;
  })
]

unfoldable pub store : Target → HandlerInfo → Handlers → Handlers
store t h handlers =
    let stored = insert t.url h handlers in
    if not (is_empty t.method) then insert t.method h stored else stored

unfoldable pub handler_info : Service → Method → Target → Option ℕ × ℕ → HandlerInfo
handler_info s m t (req, resp) = record {
  handler = s.name;
  method = m.name;
  req_type = req;
  resp_type = resp;
  client_stream = t.client_stream;
  server_stream = t.server_stream;
}

unfoldable pub register_target : Service → Method → Option Target → Handlers → Option Handlers
unfolding handler_info store param_types
register_target s m none handlers = some handlers
register_target s m (some t) handlers = elim (param_types m.params) [
  | none ↦ none
  | some types ↦ some (store t (handler_info s m t types) handlers)
]

-- One round of the loop.
unfoldable pub register_method :
    Service → Option (GoMap ApiEndpoint) → Method → Handlers → Option Handlers
unfolding register_target target method_name
register_method s endpoints m handlers =
    register_target s m (target endpoints (method_name s m)) handlers

unfoldable pub register_methods :
    Service → Option (GoMap ApiEndpoint) → List Method → Handlers → Option Handlers
unfolding register_method
register_methods s endpoints [] handlers = some handlers
register_methods s endpoints (m ∷ ms) handlers = elim (register_method s endpoints m handlers) [
  | none ↦ none
  | some h ↦ register_methods s endpoints ms h
]

unfoldable pub register_with_url : Service → Option (GoMap ApiEndpoint) → Handlers → Option Handlers
unfolding register_methods
register_with_url s endpoints handlers = register_methods s endpoints s.methods handlers

unfoldable pub register : Service → Handlers → Option Handlers
unfolding register_with_url
register s handlers = register_with_url s none handlers

unfoldable pub endpoint_map : List ApiEndpoint → GoMap ApiEndpoint → GoMap ApiEndpoint
endpoint_map [] m = m
endpoint_map (v ∷ vs) m = endpoint_map vs (insert v.method v m)

unfoldable pub register_all : List Service → Option (GoMap ApiEndpoint) → Handlers → Option Handlers
register_all [] endpoints handlers = some handlers
register_all (s ∷ ss) endpoints handlers = elim (register_with_url s endpoints handlers) [
  | none ↦ none
  | some h ↦ register_all ss endpoints h
]

unfoldable pub register_api_endpoint : List Service → List ApiEndpoint → Handlers → Option Handlers
unfolding endpoint_map register_all
register_api_endpoint services list handlers =
    register_all services (some (endpoint_map list [])) handlers

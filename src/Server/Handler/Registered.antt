-- ===== src/Server/Handler/Registered.antt =====
-- A call made by grpcclient reaches the method of a service that was registered.
use go_vkit.Prelude.{◌≡◌, ◌≢◌, ◌++◌, [], ◌∷◌, Option, some, Bytes, ℕ}
use go_vkit.Strings.Laws.{Lacks}
use go_vkit.Routes.{method_to_grpc}
use go_vkit.Server.Registry.{Method, Service, Handlers, param_types, register}
use go_vkit.Server.Registry.Stored.{Among, Unique, plain_handler, register-Among}
use go_vkit.Server.Handler.{Texts, to, route}
use go_vkit.Server.Handler.Calls.{route-method_to_grpc}

-- Register of a service, where it does not panic, makes each of its methods callable: the call that the client makes for
-- `Struct.Method` of any service name is routed to the handler of this method, which is unary and has the
-- types of the method's parameters, whatever was registered before. The methods have different names; the
-- struct's and the method's name are not empty and hold no dot and no slash, and the service no slash.
pub route-register :
    (texts : Texts) (s : Service) (m : Method) (before after : Handlers) (service : Bytes)
    → register s before ≡ some after
    → Among m s.methods
    → Unique s.methods
    → Lacks b'/' service
    → s.name ≢ []
    → m.name ≢ []
    → Lacks b'.' s.name
    → Lacks b'/' s.name
    → Lacks b'.' m.name
    → Lacks b'/' m.name
    → (types : Option ℕ × ℕ) × (param_types m.params ≡ some types)
      × (route texts after (some (method_to_grpc service (s.name ++ b'.' ∷ m.name)))
          ≡ to (plain_handler s m types) (s.name ++ b'.' ∷ m.name))
route-register texts s m before after service e w u hs ne me nd ns md ms =
    let (types, ok, found) = register-Among s m before after e w u in
    (
      types,
      ok,
      route-method_to_grpc texts after (plain_handler s m types) service s.name m.name hs ne me nd
          ns md ms found,
    )

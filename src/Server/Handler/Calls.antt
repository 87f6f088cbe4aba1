-- ===== src/Server/Handler/Calls.antt =====
-- A call made by grpcclient reaches the handler that is registered for its method.
use go_vkit.Prelude.{◌≡◌, ◌≢◌, ◌++◌, [], ◌∷◌, some, Bytes, lookup}
use go_vkit.Strings.Laws.{Lacks}
use go_vkit.Routes.{method_to_grpc}
use go_vkit.Routes.Agreement.{service_method-method_to_grpc}
use go_vkit.Server.Registry.{HandlerInfo, Handlers}
use go_vkit.Server.Handler.{Texts, to, route, route_known, or_lookup}

route_known_lem :
    (texts : Texts) (handlers : Handlers) (h : HandlerInfo) (full name method : Bytes)
    → lookup (name ++ b'.' ∷ method) handlers ≡ some h
    → route_known texts handlers full (some (name, method)) ≡ to h (name ++ b'.' ∷ method)
unfolding route_known or_lookup
route_known_lem texts handlers h full name method found = rw (found, route_known)

-- The client names `Struct.Method` of a service; if the server has a handler under `Struct.Method`, the
-- call is routed to it. Neither name is empty or holds a dot or a slash, and the service has no slash.
pub route-method_to_grpc :
    (texts : Texts) (handlers : Handlers) (h : HandlerInfo) (service name method : Bytes)
    → Lacks b'/' service
    → name ≢ []
    → method ≢ []
    → Lacks b'.' name
    → Lacks b'/' name
    → Lacks b'.' method
    → Lacks b'/' method
    → lookup (name ++ b'.' ∷ method) handlers ≡ some h
    → route texts handlers (some (method_to_grpc service (name ++ b'.' ∷ method)))
      ≡ to h (name ++ b'.' ∷ method)
unfolding route
route-method_to_grpc texts handlers h service name method hs ne me nd ns md ms found =
    rw (service_method-method_to_grpc service name method hs ne me nd ns md ms) (
      route_known_lem texts handlers h (method_to_grpc service (name ++ b'.' ∷ method)) name method
        found)

-- ===== src/Gate/Native/Registration.antt =====
-- RegisterApiEndpoint, RegisterWithUrl and Register of gate/nativehandler.go, which store the methods of services as those
-- of the server do, into the handlers of the gate.
use go_vkit.Prelude.{List, Option, none, GoMap}
use go_vkit.Server.Registry.{
  ApiEndpoint, Service, Handlers, register_with_url, register_api_endpoint,
}

pub register_native_with_url : Service → Option (GoMap ApiEndpoint) → Handlers → Option Handlers
register_native_with_url s endpoints handlers = register_with_url s endpoints handlers

pub register_native : Service → Handlers → Option Handlers
register_native s handlers = register_native_with_url s none handlers

unfoldable pub register_native_endpoint :
    List Service → List ApiEndpoint → Handlers → Option Handlers
register_native_endpoint services list handlers = register_api_endpoint services list handlers

-- ===== src/Gate/Options.antt =====
-- gate/httpoptions.go. `E` are the handlers of a panic, `A` those that authorise, `W` the interceptors and `U` the
-- upgraders of connections; a time is in nanoseconds.
use go_vkit.Prelude.{List, [], ◌∷◌, ◌++◌, Option, none, some, ℤ, pos}

pub record HttpOptions {ℓ} (E A W U : Type ℓ) : Type ℓ where
  pub grpc_port : ℤ
  pub err_handler : Option E
  pub auth_handler : Option A
  pub hdlr_wrappers : List W
  pub ws_upgrader : U
  pub ws_ping_period : ℤ
  pub ws_max_message_size : ℤ

-- A handler may be nil.
pub data HttpOption {ℓ} (E A W U : Type ℓ) : Type ℓ where
  http_wrap_handler : W → HttpOption E A W U
  http_err_handler : Option E → HttpOption E A W U
  http_grpc_port : ℤ → HttpOption E A W U
  http_auth_handler : Option A → HttpOption E A W U
  ws_upgrader : U → HttpOption E A W U
  ws_ping_period : ℤ → HttpOption E A W U
  ws_max_message_size : ℤ → HttpOption E A W U

module _ {ℓ} {E A W U : Type ℓ} where
  apply : HttpOption E A W U → HttpOptions E A W U → HttpOptions E A W U
  apply (http_wrap_handler w) o = record o { hdlr_wrappers = o.hdlr_wrappers ++ (w ∷ []) }
  apply (http_err_handler h) o = record o { err_handler = h }
  apply (http_grpc_port port) o = record o { grpc_port = port }
  apply (http_auth_handler h) o = record o { auth_handler = h }
  apply (ws_upgrader u) o = record o { ws_upgrader = u }
  apply (ws_ping_period d) o = record o { ws_ping_period = d }
  apply (ws_max_message_size n) o = record o { ws_max_message_size = n }

  apply_all : List (HttpOption E A W U) → HttpOptions E A W U → HttpOptions E A W U
  unfolding apply
  apply_all [] opt = opt
  apply_all (o ∷ opts) opt = apply_all opts (apply o opt)

  -- With DefaultErrHandler and DefaultUpgrader.
  pub new_http_options :
      (default_err : E) (default_upgrader : U) → List (HttpOption E A W U) → HttpOptions E A W U
  unfolding apply_all
  new_http_options default_err default_upgrader opts = apply_all opts (record {
    grpc_port = pos 10000;
    err_handler = some default_err;
    auth_handler = none;
    hdlr_wrappers = [];
    ws_upgrader = default_upgrader;
    ws_ping_period = pos 60000000000;
    ws_max_message_size = pos 4194304;
  })

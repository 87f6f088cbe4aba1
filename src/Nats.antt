-- ===== src/Nats.antt =====
-- natsx/natsx.go over the library's client: `S` is the state of the servers and the connections, `C` a
-- connection, `M` a message.
pub mod Sent
mod Tests
use go_vkit.Prelude.{
  ℕ, Bool, true, false, List, [], ◌∷◌, ◌++◌, Option, none, some, codes, Bytes, ◌⊎◌, inl, inr,
}

pub data ConnOption {ℓ} (O : Type ℓ) : Type ℓ where
  user_info : (user password : Bytes) → ConnOption O
  timeout : (seconds : ℕ) → ConnOption O
  max_reconnects : ℕ → ConnOption O
  given : O → ConnOption O

-- nats.ErrConnectionClosed, an error with a text of the library, and one that the client makes.
pub data NatsError : Type 0 where
  connection_closed : NatsError
  library : Bytes → NatsError
  reconnect_fail : NatsError → NatsError

pub record Library {ℓ} (S C M O : Type ℓ) : Type ℓ where
  pub connect : Bytes → List (ConnOption O) → S → S × (NatsError ⊎ C)
  pub publish : C → Bytes → Bytes → S → S × Option NatsError
  pub publish_msg : C → M → S → S × Option NatsError
  pub publish_request : C → Bytes → Bytes → Bytes → S → S × Option NatsError

pub record NatsClient {ℓ} (S C O : Type ℓ) : Type ℓ where
  pub conn : Option C
  pub connected_handler : Option (C → S → S)
  pub options : List O
  pub url : Bytes
  pub user : Bytes
  pub password : Bytes

module _ {ℓ} {S C M O : Type ℓ} (lib : Library S C M O) where
  -- What a method leaves: the client, the servers, and the error if there is one.
  abbrev pub State : Type ℓ
  State = NatsClient S C O × S

  -- `for _, v := range options { newOptions = append(newOptions, v) }`
  append_options : List (ConnOption O) → List O → List (ConnOption O)
  append_options new_options [] = new_options
  append_options new_options (v ∷ options) = append_options (new_options ++ (given v ∷ [])) options

  pub conn_options : NatsClient S C O → List O → List (ConnOption O)
  unfolding append_options
  conn_options the options =
      append_options (user_info the.user the.password ∷ timeout 3 ∷ max_reconnects 180 ∷ []) options

  pub handled : Option (C → S → S) → C → S → S
  handled none c s = s
  handled (some f) c s = f c s

  unfoldable pub connected : NatsClient S C O → S × (NatsError ⊎ C) → State × Option NatsError
  unfolding handled
  connected the (s, inl e) = ((the, s), some e)
  connected the (s, inr c) =
      ((record the { conn = some c }, handled the.connected_handler c s), none)

  pub conn : List O → State → State × Option NatsError
  unfolding connected conn_options
  conn options (the, s) = connected the (lib.connect the.url (conn_options the options) s)

  -- NewNatsClient: a value, or a panic with an error.
  pub new_nats_client : (url user password : Bytes) → List O → S → State × Option NatsError
  unfolding conn
  new_nats_client url user password opts s = conn opts (
    record {
      conn = none;
      connected_handler = none;
      options = opts;
      url = url;
      user = user;
      password = password;
    },
    s,
  )

  set_connected_handler : (C → S → S) → State → State
  set_connected_handler cb (the, s) = (record the { connected_handler = some cb }, s)

  pub try_reconnect : NatsError → State → State × Option NatsError
  unfolding conn
  try_reconnect connection_closed (the, s) = conn the.options (the, s)
  try_reconnect (library e) (the, s) = ((the, s), none)
  try_reconnect (reconnect_fail e) (the, s) = ((the, s), none)

  module _ (send : C → S → S × Option NatsError) where
    -- A call of the connection; `none` is the panic of a nil one.
    pub send_on : State → Option (State × Option NatsError)
    send_on (the, s) = elim the.conn [
      | none ↦ none
      | some c ↦ let (t, e) = send c s in some ((the, t), e)
    ]

    pub after_reconnect : State × Option NatsError → Option (State × Option NatsError)
    unfolding send_on
    after_reconnect (st, some e) = some (st, some (reconnect_fail e))
    after_reconnect (st, none) = send_on st

    pub after_send : Option (State × Option NatsError) → Option (State × Option NatsError)
    unfolding after_reconnect try_reconnect
    after_send none = none
    after_send (some (st, none)) = some (st, none)
    after_send (some (st, some e)) = after_reconnect (try_reconnect e st)

    -- The body that Publish, PublishMsg and PublishRequest share.
    pub send_twice : State → Option (State × Option NatsError)
    unfolding after_send send_on
    send_twice st = after_send (send_on st)

  pub publish : (subj data_bytes : Bytes) → State → Option (State × Option NatsError)
  unfolding send_twice
  publish subj data_bytes = send_twice (λ c. lib.publish c subj data_bytes)

  pub publish_msg : M → State → Option (State × Option NatsError)
  unfolding send_twice
  publish_msg m = send_twice (λ c. lib.publish_msg c m)

  pub publish_request : (subj reply data_bytes : Bytes) → State → Option (State × Option NatsError)
  unfolding send_twice
  publish_request subj reply data_bytes =
      send_twice (λ c. lib.publish_request c subj reply data_bytes)

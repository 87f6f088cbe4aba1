-- ===== src/Nats/Tests.antt =====
-- A run of the client whose connection was closed.
use go_vkit.Prelude.{◌≡◌, refl, ℕ, zero, suc, [], Option, none, some, codes, Bytes, inr}
use go_vkit.Nats.{
  NatsError, connection_closed, Library, NatsClient, conn, connected, try_reconnect, handled,
  send_on, after_reconnect, after_send, send_twice,
}

-- Connections are numbered, and only the last one made is open.
abbrev last_open : ℕ → ℕ → ℕ × Option NatsError
last_open zero zero = (0, none)
last_open zero (suc s) = (suc s, some connection_closed)
last_open (suc c) zero = (0, some connection_closed)
last_open (suc c) (suc s) = (suc s, none)

abbrev lib : Library ℕ ℕ Bytes Bytes
lib = record {
  connect = λ url options s. (suc s, inr (suc s));
  publish = λ c subj text s. last_open c s;
  publish_msg = λ c m s. last_open c s;
  publish_request = λ c subj reply text s. last_open c s;
}

abbrev client : NatsClient ℕ ℕ Bytes
client = record {
  conn = some 0;
  connected_handler = none;
  options = [];
  url = codes "nats://h";
  user = [];
  password = [];
}

abbrev publishing : ℕ → ℕ → ℕ × Option NatsError
publishing c = lib.publish_msg c (codes "m")

sent_again :
    send_twice lib publishing (client, 1) ≡ some ((record client { conn = some 2 }, 2), none)
unfolding send_twice send_on after_send after_reconnect try_reconnect conn connected handled
sent_again = refl

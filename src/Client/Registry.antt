-- ===== src/Client/Registry.antt =====
-- The clients by address of grpcclient/client.go: GetConnClient, with its calls in any order of their steps, and
-- DelConnClient; GetClient of grpcclient/utils.go; and the options of grpcclient/options.go.
pub mod Shared
pub mod Owners
pub mod Renewal
mod Tests
use go_vkit.Prelude.{
  ℕ, suc, ◌+◌, ◌≡◌, Bool, true, false, List, [], ◌∷◌, Option, none, some, Bytes, ◌==◌,
  if◌then◌else◌, GoMap, lookup, insert, erase, ℤ, pos,
}

pub record Options : Type 0 where
  pub max_recv_msg_size : ℤ
  pub max_send_msg_size : ℤ
  pub dial_timeout : ℤ
  pub request_timeout : ℤ

pub data ClientOption : Type 0 where
  max_recv_msg_size : ℤ → ClientOption
  max_send_msg_size : ℤ → ClientOption
  dial_timeout : ℤ → ClientOption
  request_timeout : ℤ → ClientOption

apply : ClientOption → Options → Options
apply (max_recv_msg_size n) o = record o { max_recv_msg_size = n }
apply (max_send_msg_size n) o = record o { max_send_msg_size = n }
apply (dial_timeout d) o = record o { dial_timeout = d }
apply (request_timeout d) o = record o { request_timeout = d }

apply_all : List ClientOption → Options → Options
unfolding apply
apply_all [] opt = opt
apply_all (o ∷ opts) opt = apply_all opts (apply o opt)

-- Times in nanoseconds.
pub new_options : List ClientOption → Options
unfolding apply_all
new_options opts = apply_all opts (record {
  max_recv_msg_size = pos 16777216;
  max_send_msg_size = pos 16777216;
  dial_timeout = pos 5000000000;
  request_timeout = pos 20000000000;
})

-- How far a call of GetConnClient is: at the first Load, behind it, with the mutex, behind the second Load with
-- no client, and returned with the client of a number.
pub data Progress : Type 0 where
  started missed holding lacking : Progress
  got : ℕ → Progress

-- `clients` is addr2conn, `made` the number of clients that were made, `holder` the call with the mutex.
pub record Clients : Type 0 where
  pub clients : GoMap ℕ
  pub made : ℕ
  pub holder : Option ℕ
  pub calls : ℕ → Progress

abbrev pub no_clients : Clients
no_clients = record { clients = []; made = 0; holder = none; calls = λ t. started }

-- The call `t` goes on to a point.
pub go_to : ℕ → Progress → Clients → Clients
go_to t p r = record r { calls = λ u. if u == t then p else r.calls u }

pub load_first : Bytes → ℕ → Clients → Clients
unfolding go_to
load_first addr t r = elim (lookup addr r.clients) [
  | some c ↦ go_to t (got c) r
  | none ↦ go_to t missed r
]

pub lock : ℕ → Clients → Clients
unfolding go_to
lock t r = go_to t holding (record r { holder = some t })

-- The second Load; a call that finds a client returns, and with it the mutex goes.
pub load_again : Bytes → ℕ → Clients → Clients
unfolding go_to
load_again addr t r = elim (lookup addr r.clients) [
  | some c ↦ go_to t (got c) (record r { holder = none })
  | none ↦ go_to t lacking r
]

-- NewClient, Store and the return.
pub store_new : Bytes → ℕ → Clients → Clients
unfolding go_to
store_new addr t r =
    go_to t (got r.made)
      (record r { clients = insert addr r.made r.clients; made = suc r.made; holder = none })

pub del_conn_client : Bytes → Clients → Clients
del_conn_client addr r = record r { clients = erase addr r.clients }

-- The steps of the calls, of which `addr` gives the addresses.
pub data Step (addr : ℕ → Bytes) (r : Clients) : Clients → Type 0 where
  loads_first : (t : ℕ) → r.calls t ≡ started → Step addr r (load_first (addr t) t r)
  locks : (t : ℕ) → r.calls t ≡ missed → r.holder ≡ none → Step addr r (lock t r)
  loads_again : (t : ℕ) → r.calls t ≡ holding → Step addr r (load_again (addr t) t r)
  stores : (t : ℕ) → r.calls t ≡ lacking → Step addr r (store_new (addr t) t r)

pub data Reach (addr : ℕ → Bytes) : Clients → Type 0 where
  start : Reach addr no_clients
  next : {r s : Clients} → Reach addr r → Step addr r s → Reach addr s

-- The registry after any steps of calls and any DelConnClient between them.
pub data History (addr : ℕ → Bytes) : Clients → Type 0 where
  fresh : History addr no_clients
  steps : {r s : Clients} → History addr r → Step addr r s → History addr s
  deletes : {r : Clients} (a : Bytes) → History addr r → History addr (del_conn_client a r)

-- GetClient: the address of a server's name, or the name, where InvokeByGate takes the client.
address_of : GoMap Bytes → Bytes → Bytes
address_of server_name2_addr addr_name = elim (lookup addr_name server_name2_addr) [
  | some addr ↦ addr
  | none ↦ addr_name
]

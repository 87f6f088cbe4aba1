-- ===== src/Client/Registry/Tests.antt =====
-- A race of two calls.
use go_vkit.Prelude.{
  ◌≡◌, ◌≢◌, ◌⊎◌, refl, none, [], pos, if◌then◌else◌, some, codes, Bytes, bytes_eq, lookup, insert,
  erase, ℕ,
}
use go_vkit.Client.Registry.{
  Clients, got, no_clients, go_to, load_first, lock, load_again, store_new, loads_first, locks,
  loads_again, stores, del_conn_client, deletes, Reach, start, next,
}
use go_vkit.Errors.{partial}
use go_vkit.Codec.{json}
use go_vkit.Client.Invoke
use go_vkit.Client.Invoke.{Sent, Texts, answered, invoke, invoke_by_gate}
use go_vkit.Client.Invoke.Removal.{is_unavailable}
use go_vkit.Client.Registry.Renewal.{ended, get_conn_client, get_conn_client-ended}
use go_vkit.Client.Registry.Shared.{Reach-shared}
use go_vkit.Client.Registry.Owners.{Reach-History, History-own_address}

abbrev addr : ℕ → Bytes
addr t = codes "a"

-- Both calls find no client; the first makes one, which the second finds behind the mutex.
abbrev raced : Clients
raced = load_again (codes "a") 1 (
    lock 1 (
      store_new (codes "a") 0 (
        load_again (codes "a") 0
          (lock 0 (load_first (codes "a") 1 (load_first (codes "a") 0 no_clients))))))

raced-Reach : Reach addr raced
unfolding load_first lock load_again store_new go_to lookup insert bytes_eq
raced-Reach =
    next
      (next
        (next
          (next
            (next (next (next start (loads_first 0 refl)) (loads_first 1 refl)) (locks 0 refl refl))
            (loads_again 0 refl))
          (stores 0 refl))
        (locks 1 refl refl))
      (loads_again 1 refl)

Reach-shared_example : (◌≡◌ {A = ℕ} 0 0) × (lookup (addr 0) raced.clients ≡ some 0)
unfolding load_first lock load_again store_new go_to lookup insert bytes_eq
Reach-shared_example = Reach-shared addr 0 1 0 0 raced-Reach refl refl refl

-- DelConnClient for the address of the two calls.
abbrev after_delete : Clients
after_delete = del_conn_client (codes "a") raced

History-own_address_example :
    (addr 0 ≡ addr 1) × ((codes "b" ≡ addr 0) ⊎ (lookup (codes "b") after_delete.clients ≢ some 0))
unfolding load_first lock load_again store_new go_to del_conn_client lookup insert erase bytes_eq
History-own_address_example =
    History-own_address addr {r = after_delete} 0 1 0 (codes "b")
      (deletes (codes "a") (Reach-History addr raced-Reach)) refl refl

abbrev texts : Texts
texts = record {
  sprintf = λ b. b;
  runes = λ b. b;
  of_runes = λ r. r;
  unmarshal = λ b. partial (record { code = pos 0; status = 0; msg = b });
  json = λ e. [];
}

abbrev sent : Sent
sent = record { path = []; header = []; codec = some json; limit = pos 5 }

-- A call of the client 0 finds that the service is unavailable.
abbrev unavailable : Invoke.Invoked
unavailable = invoke texts sent none (answered (some (codes "code = Unavailable")))

get_conn_client-ended_example :
    let s = get_conn_client (codes "a") 2 (ended (codes "a") unavailable raced) in
    let n = if is_unavailable (invoke_by_gate texts unavailable) then raced.made else 0 in
    (s.calls 2 ≡ got n) × (lookup (codes "a") s.clients ≡ some n)
unfolding load_first lock load_again store_new go_to lookup insert bytes_eq
get_conn_client-ended_example =
    get_conn_client-ended (codes "a") 2 0 raced texts sent none
      (answered (some (codes "code = Unavailable"))) refl

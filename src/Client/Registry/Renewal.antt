-- ===== src/Client/Registry/Renewal.antt =====
-- Which client the next call gets, after a call of Invoke ended: its deferred function removes the client where the error
-- has status 503.
use go_vkit.Prelude.{
  ℕ, suc, ◌≡◌, refl, ap, ◌∙◌, Bool, true, false, Option, none, some, arith, Bytes, ==_iff,
  if◌then◌else◌, bytes_eq_refl, lookup, insert, lookup-insert, lookup-erase,
}
use go_vkit.Client.Invoke
use go_vkit.Client.Invoke.{Sent, Answer, Texts, before, after, crashed, invoke, invoke_by_gate}
use go_vkit.Client.Invoke.Removal.{is_unavailable, removes, invoke-Removes}
use go_vkit.Client.Registry.{
  Progress, missed, lacking, got, Clients, go_to, load_first, lock, load_again, store_new,
  del_conn_client,
}

-- The deferred function of Invoke, as far as it concerns the clients.
unfoldable pub ended : Bytes → Invoke.Invoked → Clients → Clients
unfolding del_conn_client
ended addr (after e released true) r = del_conn_client addr r
ended addr i r = r

after_second_load : Bytes → ℕ → Clients → Progress → Clients
unfolding store_new
after_second_load addr t r lacking = store_new addr t r
after_second_load addr t r p = r

after_first_load : Bytes → ℕ → Clients → Progress → Clients
unfolding lock load_again after_second_load
after_first_load addr t r missed =
    let s = load_again addr t (lock t r) in after_second_load addr t s (s.calls t)
after_first_load addr t r p = r

-- A call of GetConnClient from its first step to its return, with no step of another call between them.
unfoldable pub get_conn_client : Bytes → ℕ → Clients → Clients
unfolding load_first after_first_load
get_conn_client addr t r = let s = load_first addr t r in after_first_load addr t s (s.calls t)

calls-go_to : (t : ℕ) (p : Progress) (r : Clients) → (go_to t p r).calls t ≡ p
unfolding go_to
calls-go_to t p r = ground (arith, (==_iff t t).1 refl)

load_first-some :
    (addr : Bytes) (t c : ℕ) (r : Clients)
    → lookup addr r.clients ≡ some c
    → load_first addr t r ≡ go_to t (got c) r
unfolding load_first
load_first-some addr t c r h = rw (h, load_first) refl

load_first-none :
    (addr : Bytes) (t : ℕ) (r : Clients)
    → lookup addr r.clients ≡ none
    → load_first addr t r ≡ go_to t missed r
unfolding load_first
load_first-none addr t r h = rw (h, load_first) refl

load_again-none :
    (addr : Bytes) (t : ℕ) (r : Clients)
    → lookup addr r.clients ≡ none
    → load_again addr t r ≡ go_to t lacking r
unfolding load_again
load_again-none addr t r h = rw (h, load_again) refl

-- A call that finds a client returns it, and the clients stay.
get_conn_client-found :
    (addr : Bytes) (t c : ℕ) (r : Clients)
    → lookup addr r.clients ≡ some c
    → get_conn_client addr t r ≡ go_to t (got c) r
unfolding get_conn_client after_first_load
get_conn_client-found addr t c r h =
    ap (λ s. after_first_load addr t s (s.calls t)) (load_first-some addr t c r h)
    ∙ ap (after_first_load addr t (go_to t (got c) r)) (calls-go_to t (got c) r)

-- A call that finds none makes the next one.
get_conn_client-made :
    (addr : Bytes) (t : ℕ) (r : Clients)
    → lookup addr r.clients ≡ none
    → get_conn_client addr t r ≡ store_new addr t (go_to t lacking (lock t (go_to t missed r)))
unfolding get_conn_client after_first_load after_second_load lock go_to
get_conn_client-made addr t r h =
    let s = lock t (go_to t missed r) in
    ap (λ s. after_first_load addr t s (s.calls t)) (load_first-none addr t r h)
    ∙ (ap (after_first_load addr t (go_to t missed r)) (calls-go_to t missed r)
        ∙ (ap (λ s. after_second_load addr t s (s.calls t)) (load_again-none addr t s h)
            ∙ ap (after_second_load addr t (go_to t lacking s)) (calls-go_to t lacking s)))

ended-removes :
    (addr : Bytes) (i : Invoke.Invoked) (r : Clients)
    → ended addr i r ≡ (if removes i then del_conn_client addr r else r)
unfolding ended removes
ended-removes addr (before e) r = refl
ended-removes addr (after e released true) r = refl
ended-removes addr (after e released false) r = refl
ended-removes addr crashed r = refl

stored_new :
    (addr : Bytes) (t : ℕ) (s : Clients)
    → ((store_new addr t s).calls t ≡ got s.made)
      × (lookup addr (store_new addr t s).clients ≡ some s.made)
unfolding store_new go_to
stored_new addr t s = (
  calls-go_to t (got s.made)
      (record s { clients = insert addr s.made s.clients; made = suc s.made; holder = none }),
  ground (arith, lookup-insert addr addr s.made s.clients, bytes_eq_refl addr),
)

next_client :
    (addr : Bytes) (t c : ℕ) (b : Bool) (r : Clients)
    → lookup addr r.clients ≡ some c
    → let s = get_conn_client addr t (if b then del_conn_client addr r else r) in
      let n = if b then r.made else c in (s.calls t ≡ got n) × (lookup addr s.clients ≡ some n)
unfolding del_conn_client store_new lock go_to
next_client addr t c false r h =
    rw (get_conn_client-found addr t c r h) (calls-go_to t (got c) r, h)
next_client addr t c true r h =
    let d = del_conn_client addr r in
    let none_left : lookup addr d.clients ≡ none =
      ground (arith, lookup-erase addr addr r.clients, bytes_eq_refl addr) in
    rw (get_conn_client-made addr t d none_left)
      (stored_new addr t (go_to t lacking (lock t (go_to t missed d))))

-- A call of Invoke with the client of its address has ended, however it ended: the next call of GetConnClient
-- for this address, if no other call steps in between, returns a client that was not made before where the
-- caller got an error of status 503, and the same client where it did not; and that client is stored.
pub get_conn_client-ended :
    (addr : Bytes) (t c : ℕ) (r : Clients) (texts : Texts) (sent : Sent) (dial : Option Bytes)
    (a : Answer)
    → lookup addr r.clients ≡ some c
    → let i = invoke texts sent dial a in
      let s = get_conn_client addr t (ended addr i r) in
      let n = if is_unavailable (invoke_by_gate texts i) then r.made else c in
      (s.calls t ≡ got n) × (lookup addr s.clients ≡ some n)
get_conn_client-ended addr t c r texts sent dial a h =
    let i = invoke texts sent dial a in
    rw (ended-removes addr i r, invoke-Removes texts sent dial a)
      (next_client addr t c (is_unavailable (invoke_by_gate texts i)) r h)

-- ===== src/Client/Registry/Owners.antt =====
-- A client serves one address.
use go_vkit.Prelude.{
  ℕ, suc, ◌<◌, ◌≡◌, ◌≢◌, ◌⊎◌, sym, ap, ◌∙◌, true, false, [], none, some, arith, Bytes, bytes_eq,
  bytes_eq_iff, ◌==◌, ==_iff, if◌then◌else◌, GoMap, lookup, insert, erase, lookup-insert,
  lookup-erase, Bool-cases, Option-cases, inl, inr,
}
use mathlib.Core.Option.{some-injective, none-ne-some}
use go_vkit.Client.Registry.{
  Progress, missed, holding, lacking, got, Clients, go_to, load_first, lock, load_again, store_new,
  del_conn_client, Step, loads_first, locks, loads_again, stores, Reach, start, next, History,
  fresh, steps, deletes,
}

-- The client `c` was made, and for the address `a`.
abbrev Owned : (ℕ → Bytes) → ℕ → ℕ → Bytes → Type 0
Owned owner made c a = (owner c ≡ a) × (c < made)

abbrev Stored : (ℕ → Bytes) → ℕ → GoMap ℕ → Type 0
Stored owner made clients = (a : Bytes) (c : ℕ) → lookup a clients ≡ some c → Owned owner made c a

abbrev Returned : (ℕ → Bytes) → (ℕ → Bytes) → ℕ → (ℕ → Progress) → Type 0
Returned addr owner made calls = (t c : ℕ) → calls t ≡ got c → Owned owner made c (addr t)

-- Some function names the address of every client.
abbrev Sorted : (ℕ → Bytes) → Clients → Type 0
Sorted addr r =
    (owner : ℕ → Bytes) × Stored owner r.made r.clients × Returned addr owner r.made r.calls

-- A call goes on to a point that is no return, or to one with a client of its address.
go_to-Returned :
    (addr owner : ℕ → Bytes) (t : ℕ) (p : Progress) (r : Clients)
    → ((c : ℕ) → p ≡ got c → Owned owner r.made c (addr t))
    → Returned addr owner r.made r.calls
    → Returned addr owner r.made (go_to t p r).calls
unfolding go_to
go_to-Returned addr owner t p r h k u c e = elim (Bool-cases (u == t)) [
  | inl q ↦ rw ((==_iff u t).0 q) (h c (sym (go_at q) ∙ e))
  | inr q ↦ k u c (sym (go_past q) ∙ e)
]
  where
    go_at : u == t ≡ true → (go_to t p r).calls u ≡ p
    go_at q = rw (q)

    go_past : u == t ≡ false → (go_to t p r).calls u ≡ r.calls u
    go_past q = rw (q)

got_injective : (c d : ℕ) → got c ≡ got d → c ≡ d
got_injective c d e = cc

load_first-Sorted :
    (addr : ℕ → Bytes) (r : Clients) (t : ℕ) → Sorted addr r → Sorted addr (load_first (addr t) t r)
unfolding load_first
load_first-Sorted addr r t (owner, s, k) = elim (Option-cases (lookup (addr t) r.clients)) [
  | inl e ↦
      rw (e, load_first) (owner, s, go_to-Returned addr owner t missed r (λ c q. absurd (cc)) k)
  | inr (d, e) ↦
      rw (e, load_first)
        (
          owner,
          s,
          go_to-Returned addr owner t (got d) r
              (λ c q. s (addr t) c (e ∙ ap some (got_injective d c q))) k,
        )
]

load_again-Sorted :
    (addr : ℕ → Bytes) (r : Clients) (t : ℕ) → Sorted addr r → Sorted addr (load_again (addr t) t r)
unfolding load_again
load_again-Sorted addr r t (owner, s, k) = elim (Option-cases (lookup (addr t) r.clients)) [
  | inl e ↦
      rw (e, load_again) (owner, s, go_to-Returned addr owner t lacking r (λ c q. absurd (cc)) k)
  | inr (d, e) ↦
      rw (e, load_again)
        (
          owner,
          s,
          go_to-Returned addr owner t (got d) (record r { holder = none })
              (λ c q. s (addr t) c (e ∙ ap some (got_injective d c q))) k,
        )
]

-- The new client is that of the address, the others are as they were.
abbrev with_owner : (ℕ → Bytes) → ℕ → Bytes → ℕ → Bytes
with_owner owner made a c = if c == made then a else owner c

still-Owned :
    (owner : ℕ → Bytes) (made c : ℕ) (a b : Bytes)
    → Owned owner made c b
    → Owned (with_owner owner made a) (suc made) c b
still-Owned owner made c a b (o, l) = (ground (arith, o, l), omega (arith, l))

new-Owned :
    (owner : ℕ → Bytes) (made : ℕ) (a : Bytes) → Owned (with_owner owner made a) (suc made) made a
new-Owned owner made a = (ground arith, omega arith)

store-Stored :
    (owner : ℕ → Bytes) (made : ℕ) (clients : GoMap ℕ) (a : Bytes)
    → Stored owner made clients
    → Stored (with_owner owner made a) (suc made) (insert a made clients)
store-Stored owner made clients a s b c e = elim (Bool-cases (bytes_eq a b)) [
  | inl q ↦ rw (← (bytes_eq_iff a b).0 q, ← stored q) (new-Owned owner made a)
  | inr q ↦ still-Owned owner made c a b (s b c (kept q))
]
  where
    stored : bytes_eq a b ≡ true → made ≡ c
    stored q = some-injective made c (ground (arith, lookup-insert a b made clients, q, e))

    kept : bytes_eq a b ≡ false → lookup b clients ≡ some c
    kept q = ground (arith, lookup-insert a b made clients, q, e)

store_new-Sorted :
    (addr : ℕ → Bytes) (r : Clients) (t : ℕ) → Sorted addr r → Sorted addr (store_new (addr t) t r)
unfolding store_new
store_new-Sorted addr r t (owner, s, k) =
    let a = addr t in
    (
      with_owner owner r.made a,
      store-Stored owner r.made r.clients a s,
      go_to-Returned addr (with_owner owner r.made a) t (got r.made)
          (record r { clients = insert a r.made r.clients; made = suc r.made; holder = none })
          (λ c q. rw (← got_injective r.made c q) (new-Owned owner r.made a))
          (λ u c q. still-Owned owner r.made c a (addr u) (k u c q)),
    )

del_conn_client-Sorted :
    (addr : ℕ → Bytes) (r : Clients) (a : Bytes) → Sorted addr r → Sorted addr (del_conn_client a r)
unfolding del_conn_client
del_conn_client-Sorted addr r a (owner, s, k) = (owner, λ b c e. s b c (kept b c e), k)
  where
    kept : (b : Bytes) (c : ℕ) → lookup b (erase a r.clients) ≡ some c → lookup b r.clients ≡ some c
    kept b c e = ground (arith, lookup-erase a b r.clients, e)

Step-Sorted : (addr : ℕ → Bytes) (r s : Clients) → Step addr r s → Sorted addr r → Sorted addr s
unfolding lock
Step-Sorted addr r s (loads_first t h) i = load_first-Sorted addr r t i
Step-Sorted addr r s (locks t h free) (owner, i, k) = (
  owner,
  i,
  go_to-Returned addr owner t holding (record r { holder = some t }) (λ c q. absurd (cc)) k,
)
Step-Sorted addr r s (loads_again t h) i = load_again-Sorted addr r t i
Step-Sorted addr r s (stores t h) i = store_new-Sorted addr r t i

History-Sorted : (addr : ℕ → Bytes) {r : Clients} → History addr r → Sorted addr r
unfolding lookup
History-Sorted addr fresh = (λ c. [], λ a c e. absurd (none-ne-some c e), λ t c e. absurd (cc))
History-Sorted addr (steps {r} {s} w st) = Step-Sorted addr r s st (History-Sorted addr w)
History-Sorted addr (deletes {r} a w) = del_conn_client-Sorted addr r a (History-Sorted addr w)

pub Reach-History : (addr : ℕ → Bytes) {r : Clients} → Reach addr r → History addr r
Reach-History addr start = fresh
Reach-History addr (next w st) = steps (Reach-History addr w) st

-- Whatever the order of the steps of the calls of GetConnClient, and whatever DelConnClient deletes between them:
-- two calls that returned one client asked for one address, whether that client is still kept or was deleted;
-- and under every other address it is not kept.
pub History-own_address :
    (addr : ℕ → Bytes) {r : Clients} (t u c : ℕ) (a : Bytes)
    → History addr r
    → r.calls t ≡ got c
    → r.calls u ≡ got c
    → (addr t ≡ addr u) × ((a ≡ addr t) ⊎ (lookup a r.clients ≢ some c))
History-own_address addr {r} t u c a w p q =
    let (owner, s, k) = History-Sorted addr w in
    (
      sym (k t c p).0 ∙ (k u c q).0,
      elim (Bool-cases (bytes_eq a (addr t))) [
        | inl same ↦ inl ((bytes_eq_iff a (addr t)).0 same)
        | inr differs ↦ inr (λ e. apart differs (sym (s a c e).0 ∙ (k t c p).0))
      ],
    )
  where
    apart : bytes_eq a (addr t) ≡ false → a ≢ addr t
    apart differs e = ground (arith, bytes_eq_iff a (addr t), e, differs)

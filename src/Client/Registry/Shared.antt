-- ===== src/Client/Registry/Shared.antt =====
-- Calls for one address share one client.
use go_vkit.Prelude.{
  ℕ, suc, ◌≡◌, ◌≢◌, refl, sym, ap, ◌∙◌, Option, none, some, arith, Bytes, bytes_eq_iff, ◌==◌,
  ==_iff, GoMap, lookup, insert, lookup-insert, lookup-insert_self, Bool-cases, Option-cases, inl,
  inr,
}
use mathlib.Core.Option.{some-injective, none-ne-some}
use mathlib.Core.Path.{subst}
use go_vkit.Client.Registry.{
  Progress, started, missed, holding, lacking, got, Clients, go_to, load_first, lock, load_again,
  store_new, Step, loads_first, locks, loads_again, stores, Reach, start, next,
}

-- What holds of a call for an address by how far it is, of the holder of the mutex and the clients.
abbrev pub At : Bytes → ℕ → Option ℕ → GoMap ℕ → Progress → Type 0
At a t holder clients started = Unit
At a t holder clients missed = Unit
At a t holder clients holding = holder ≡ some t
At a t holder clients lacking = (holder ≡ some t) × (lookup a clients ≡ none)
At a t holder clients (got c) = lookup a clients ≡ some c

abbrev pub Inv : (ℕ → Bytes) → Clients → Type 0
Inv addr r = (t : ℕ) → At (addr t) t r.holder r.clients (r.calls t)

-- A call goes on, and the others stay where they are.
go_to-Inv :
    (addr : ℕ → Bytes) (t : ℕ) (p : Progress) (r : Clients)
    → At (addr t) t r.holder r.clients p
    → ((u : ℕ) → u ≢ t → At (addr u) u r.holder r.clients (r.calls u))
    → Inv addr (go_to t p r)
unfolding go_to
go_to-Inv addr t p r h other u = elim (Bool-cases (u == t)) [
  | inl e ↦ rw (e, (==_iff u t).0 e) h
  | inr e ↦ rw (e) (other u (λ q. ground (arith, e, q)))
]

-- The mutex changes hands between none and the call `t`, and a call that holds it is `t`.
mutex-At :
    (a : Bytes) (t u : ℕ) (clients : GoMap ℕ) (h k : Option ℕ) (p : Progress)
    → u ≢ t
    → h ≢ some u
    → At a u h clients p
    → At a u k clients p
mutex-At a t u clients h k started n m i = tt
mutex-At a t u clients h k missed n m i = tt
mutex-At a t u clients h k holding n m i = absurd (m i)
mutex-At a t u clients h k lacking n m (i, j) = absurd (m i)
mutex-At a t u clients h k (got c) n m i = i

-- A client is stored where there is none; no other call has the mutex.
store-At :
    (a b : Bytes) (u c : ℕ) (clients : GoMap ℕ) (h k : Option ℕ) (p : Progress)
    → lookup a clients ≡ none
    → h ≢ some u
    → At b u h clients p
    → At b u k (insert a c clients) p
store-At a b u c clients h k started l m i = tt
store-At a b u c clients h k missed l m i = tt
store-At a b u c clients h k holding l m i = absurd (m i)
store-At a b u c clients h k lacking l m (i, j) = absurd (m i)
store-At a b u c clients h k (got d) l m i =
    ground (arith, lookup-insert a b c clients, bytes_eq_iff a b, l, i)

other_holder : (t u : ℕ) (h : Option ℕ) → h ≡ some t → u ≢ t → h ≢ some u
other_holder t u h e n q = n (some-injective u t (sym q ∙ e))

load_first-Inv :
    (addr : ℕ → Bytes) (r : Clients) (t : ℕ) → Inv addr r → Inv addr (load_first (addr t) t r)
unfolding load_first
load_first-Inv addr r t i = elim (Option-cases (lookup (addr t) r.clients)) [
  | inl e ↦ rw (e, load_first) (go_to-Inv addr t missed r tt (λ u n. i u))
  | inr (c, e) ↦ rw (e, load_first) (go_to-Inv addr t (got c) r e (λ u n. i u))
]

lock-Inv :
    (addr : ℕ → Bytes) (r : Clients) (t : ℕ) → r.holder ≡ none → Inv addr r → Inv addr (lock t r)
unfolding lock
lock-Inv addr r t h i =
    go_to-Inv addr t holding (record r { holder = some t }) refl
      (λ u n.
        mutex-At (addr u) t u r.clients r.holder (some t) (r.calls u) n
          (λ q. none-ne-some u (sym h ∙ q)) (i u))

load_again-Inv :
    (addr : ℕ → Bytes) (r : Clients) (t : ℕ)
    → r.calls t ≡ holding
    → Inv addr r
    → Inv addr (load_again (addr t) t r)
unfolding load_again
load_again-Inv addr r t h i =
    let held = subst (λ p. At (addr t) t r.holder r.clients p) h (i t) in
    elim (Option-cases (lookup (addr t) r.clients)) [
      | inl e ↦ rw (e, load_again) (go_to-Inv addr t lacking r (held, e) (λ u n. i u))
      | inr (c, e) ↦
          rw (e, load_again)
            (go_to-Inv addr t (got c) (record r { holder = none }) e
              (λ u n.
                mutex-At (addr u) t u r.clients r.holder none (r.calls u) n
                  (other_holder t u r.holder held n) (i u)))
    ]

store_new-Inv :
    (addr : ℕ → Bytes) (r : Clients) (t : ℕ)
    → r.calls t ≡ lacking
    → Inv addr r
    → Inv addr (store_new (addr t) t r)
unfolding store_new
store_new-Inv addr r t h i =
    let (held, empty) = subst (λ p. At (addr t) t r.holder r.clients p) h (i t) in
    go_to-Inv addr t (got r.made)
      (record r { clients = insert (addr t) r.made r.clients; made = suc r.made; holder = none })
      (lookup-insert_self (addr t) r.made r.clients)
      (λ u n.
        store-At (addr t) (addr u) u r.made r.clients r.holder none (r.calls u) empty
          (other_holder t u r.holder held n) (i u))

Step-Inv : (addr : ℕ → Bytes) (r s : Clients) → Step addr r s → Inv addr r → Inv addr s
Step-Inv addr r s (loads_first t h) i = load_first-Inv addr r t i
Step-Inv addr r s (locks t h free) i = lock-Inv addr r t free i
Step-Inv addr r s (loads_again t h) i = load_again-Inv addr r t h i
Step-Inv addr r s (stores t h) i = store_new-Inv addr r t h i

Reach-Inv : (addr : ℕ → Bytes) {r : Clients} → Reach addr r → Inv addr r
Reach-Inv addr start = λ t. tt
Reach-Inv addr (next {r} {s} w st) = Step-Inv addr r s st (Reach-Inv addr w)

-- Any calls of GetConnClient, their steps in any order: two of them for one address that have returned, with
-- no DelConnClient in between, returned the same client, and it is the one that is kept for the address.
pub Reach-shared :
    (addr : ℕ → Bytes) {r : Clients} (t u c d : ℕ)
    → Reach addr r
    → addr t ≡ addr u
    → r.calls t ≡ got c
    → r.calls u ≡ got d
    → (c ≡ d) × (lookup (addr t) r.clients ≡ some c)
Reach-shared addr {r} t u c d w e p q =
    let kept = subst (λ x. At (addr t) t r.holder r.clients x) p (Reach-Inv addr w t) in
    let other = subst (λ x. At (addr u) u r.holder r.clients x) q (Reach-Inv addr w u) in
    (some-injective c d (sym kept ∙ ap (λ a. lookup a r.clients) e ∙ other), kept)

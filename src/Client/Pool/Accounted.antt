-- ===== src/Client/Pool/Accounted.antt =====
-- Where the connections are that were opened, as the callers take their steps.
use go_vkit.Prelude.{ℕ, ◌≤◌, ◌<◌, ◌≡◌, sym, true, arith, Bool, ◌==◌, ◌⊎◌, inl, inr, Bool-cases}
use mathlib.Core.Path.{subst}
use go_vkit.Client.Nodes.{StreamsPool, head, update, add_conn_after}
use go_vkit.Client.Nodes.Chains.{mem, link-in_list}
use go_vkit.Client.Pool.{
  Limits, ConnState, Scan, new_streams_pool, acquire, allocate, admit, open_conn, release,
}
use go_vkit.Client.Pool.Released.{release-Released}
use go_vkit.Client.Pool.Sharing.{
  World, add_user, drop_user, Step, acquires, scans, opens, releases, Reach, start, next, Fair,
}
use go_vkit.Client.Pool.Reached.{Reach-Fair}
use go_vkit.Client.Pool.Accounts.{Accounts, Shut, acquire-Accounts}

-- The connections for which GetState answers Shutdown in a step.
abbrev pub ShutIn : {lim : Limits} {w v : World} → Step lim w v → ℕ → Type 0
ShutIn (acquires now state c q e same) = Shut state
ShutIn (scans now state q e same) = Shut state
ShutIn (opens now same) = λ z. ⊥
ShutIn (releases now failed c p same) = λ z. ⊥

-- `z` is never one of them on the way to a state.
abbrev pub NeverShut : {lim : Limits} {w : World} → Reach lim w → ℕ → Type 0
NeverShut start z = Unit
NeverShut (next r s) z = NeverShut r z × ¬ (ShutIn s z)

-- In a list, held or closed.
abbrev pub Accounted : World → ℕ → Type 0
Accounted w z = ((w.sp.nodes z).in_list ≡ true) ⊎ ((0 < w.users z) ⊎ (mem z w.sp.closed ≡ true))

-- Connections that are opened before or in the step.
abbrev Opened : World → ℕ → Type 0
Opened w z = (2 < z) × (z < w.sp.fresh)

walk-Accounted :
    (gone : ℕ → Type 0) (w : World) (q : StreamsPool) (users : ℕ → ℕ) (z : ℕ)
    → Accounts gone w.sp q
    → ((z : ℕ) → w.users z ≤ users z)
    → ¬ (gone z)
    → (Opened w z → Accounted w z)
    → Opened (record { sp = q; users = users }) z
    → Accounted (record { sp = q; users = users }) z
walk-Accounted gone w q users z a more g ok (low, high) = elim (ok (low, omega (arith, a.fresh))) [
  | inl l ↦ elim (a.left z l) [
    | inl m ↦ inl m
    | inr (inl c) ↦ inr (inr c)
    | inr (inr h) ↦ absurd (g h)
  ]
  | inr (inl h) ↦ inr (inl (omega (arith, more z)))
  | inr (inr c) ↦ inr (inr (a.kept z c))
]

walked :
    (lim : Limits) (now : ℕ) (state : ℕ → ConnState) (sp q : StreamsPool) {r : Scan}
    → acquire lim now state sp ≡ (r, q)
    → Accounts (Shut state) sp q
walked lim now state sp q e =
    subst (λ (p : Scan × StreamsPool). Accounts (Shut state) sp p.1) e
      (acquire-Accounts lim now state sp)

add_user_more : (c : ℕ) (users : ℕ → ℕ) (z : ℕ) → users z ≤ add_user c users z
unfolding add_user
add_user_more c users z = ground arith

open_conn-Accounted :
    (lim : Limits) (now : ℕ) (w : World) (z : ℕ)
    → (Opened w z → Accounted w z)
    → Opened (record { sp = open_conn lim now w.sp; users = add_user w.sp.fresh w.users }) z
    → Accounted (record { sp = open_conn lim now w.sp; users = add_user w.sp.fresh w.users }) z
unfolding open_conn allocate admit add_conn_after update add_user
open_conn-Accounted lim now w z ok (low, high) =
    let n = (allocate now w.sp).nodes in
    elim (Bool-cases (z == w.sp.fresh)) [
      | inl e ↦ inr (inl (ground arith))
      | inr e ↦ elim (ok (low, ground (arith, high))) [
        | inl l ↦ inl (ground (arith, link-in_list n w.sp.fresh head z))
        | inr (inl h) ↦ inr (inl (ground arith))
        | inr (inr c) ↦ inr (inr (ground arith))
      ]
    ]

release-Accounted :
    (lim : Limits) (now : ℕ) (failed : Bool) (c : ℕ) (w : World) (z : ℕ)
    → 0 < w.users c
    → Fair lim w
    → (Opened w z → Accounted w z)
    → Opened (record { sp = release lim now failed c w.sp; users = drop_user c w.users }) z
    → Accounted (record { sp = release lim now failed c w.sp; users = drop_user c w.users }) z
unfolding drop_user
release-Accounted lim now failed c w z p f ok (low, high) =
    let held : 0 < (w.sp.nodes c).streams = ground (arith, f.pooled c, f.outside c) in
    let k = release-Released lim now failed c w.sp held (λ out. ground (arith, f.outside c out)) in
    elim (Bool-cases (z == c)) [
      | inl e ↦ ground (arith, k.own)
      | inr e ↦ elim (ok (low, omega (arith, k.fresh))) [
        | inl l ↦ inl (ground (arith, k.others z))
        | inr (inl h) ↦ inr (inl (ground arith))
        | inr (inr m) ↦ inr (inr (ground (arith, k.own)))
      ]
    ]

Step-Accounted :
    (lim : Limits) (w v : World) (z : ℕ) (s : Step lim w v)
    → Fair lim w
    → ¬ (ShutIn s z)
    → (Opened w z → Accounted w z)
    → Opened v z
    → Accounted v z
Step-Accounted lim w v z (acquires now state c q e same) f g ok =
    subst (λ (u : World). Opened u z → Accounted u z) (sym same)
      (walk-Accounted (Shut state) w q (add_user c w.users) z (walked lim now state w.sp q e)
        (add_user_more c w.users) g ok)
Step-Accounted lim w v z (scans now state q e same) f g ok =
    subst (λ (u : World). Opened u z → Accounted u z) (sym same)
      (walk-Accounted (Shut state) w q w.users z (walked lim now state w.sp q e) (λ y. omega arith)
        g ok)
Step-Accounted lim w v z (opens now same) f g ok =
    subst (λ (u : World). Opened u z → Accounted u z) (sym same)
      (open_conn-Accounted lim now w z ok)
Step-Accounted lim w v z (releases now failed c p same) f g ok =
    subst (λ (u : World). Opened u z → Accounted u z) (sym same)
      (release-Accounted lim now failed c w z p f ok)

-- Whatever the callers do and in whatever order, a streams pool that allows a connection at least one
-- stream loses no connection: one that was opened, with a number behind those of nil and the two
-- sentinels, and whose state was Shutdown at no walk over the list, is in a list, held by a caller
-- or closed.
pub Reach-Accounted :
    (lim : Limits) (w : World) (z : ℕ)
    → 1 ≤ lim.max_streams
    → (r : Reach lim w) → NeverShut r z
    → 2 < z
    → z < w.sp.fresh
    → Accounted w z
unfolding new_streams_pool
Reach-Accounted lim _ z p start n low high = absurd (omega arith)
Reach-Accounted lim _ z p (next {w} {v} r s) (n, g) low high =
    Step-Accounted lim w v z s (Reach-Fair p r) g (λ o. Reach-Accounted lim w z p r n o.0 o.1)
      (low, high)

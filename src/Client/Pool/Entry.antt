-- ===== src/Client/Pool/Entry.antt =====
-- A connection enters the lists: the end of getConn, and release as a whole.
use go_vkit.Prelude.{
  ℕ, ◌<◌, ◌≡◌, refl, sym, ◌∙◌, Bool, true, false, List, ◌∷◌, arith, Bool-cases, inl, inr, ltb,
}
use go_vkit.Client.Nodes.{StreamsPool, head, busy, update, add_conn_after, close_conn}
use go_vkit.Client.Nodes.Chains.{link-streams, link-in_list}
use go_vkit.Client.Nodes.Shape.{Shape-frame, add_conn_after-Shape}
use go_vkit.Client.Pool.{Limits, allocate, admit, open_conn, release_listed, readmit, release}
use go_vkit.Client.Pool.Invariant.{Inv, zeros, zeros-congr}
use go_vkit.Client.Pool.Steps.{zeros-link}
use go_vkit.Client.Nodes.Shape.{Shape-grow}
use go_vkit.Client.Pool.Release.{Sound, to_front-finish}

-- A connection that carries a stream and is in no list enters the list, which has room.
pub enter-Inv :
    (lim : Limits) (sp : StreamsPool) (hs ls : List ℕ) (x : ℕ)
    → Inv lim sp hs ls
    → (sp.nodes x).in_list ≡ false
    → 2 < x
    → x < sp.fresh
    → 0 < (sp.nodes x).streams
    → sp.count < lim.size
    → Inv lim (add_conn_after x head sp) (x ∷ hs) ls
unfolding add_conn_after zeros
enter-Inv lim sp hs ls x i out lo hi p room = record {
  shape =
      add_conn_after-Shape head busy sp x hs ls (omega arith) (omega arith) (omega arith) hi out
        i.shape;
  shared = i.shared;
  idle_exact =
      ground (arith, i.idle_exact, zeros-link sp.nodes x head hs, link-streams sp.nodes x head x);
  busy_full = λ z m. link-streams sp.nodes x head z ∙ i.busy_full z m;
  capped = λ z. omega (arith, link-streams sp.nodes x head z, i.capped z);
  idle_capped = i.idle_capped;
  size_capped = omega arith;
}

-- No list holds the next address.
fresh_out :
    (lim : Limits) (sp : StreamsPool) (hs ls : List ℕ)
    → Inv lim sp hs ls
    → (sp.nodes sp.fresh).in_list ≡ false
fresh_out lim sp hs ls i = elim (Bool-cases (sp.nodes sp.fresh).in_list) [
  | inl m ↦ absurd (omega (arith, i.shape.below sp.fresh (sym (i.shape.flags sp.fresh) ∙ m)))
  | inr e ↦ e
]

pub allocate-Inv :
    (lim : Limits) (now : ℕ) (sp : StreamsPool) (hs ls : List ℕ)
    → Inv lim sp hs ls
    → Inv lim (allocate now sp) hs ls
unfolding allocate update
allocate-Inv lim now sp hs ls i = record {
  shape =
      Shape-grow head busy sp (allocate now sp) hs ls (λ z h. ground arith)
        (λ z. ground (arith, fresh_out lim sp hs ls i)) (omega arith) refl i.shape;
  shared = i.shared;
  idle_exact =
      i.idle_exact
      ∙ sym (
          zeros-congr sp.nodes (allocate now sp).nodes hs (λ z m. ground (arith, i.shape.below z)));
  busy_full = λ z m. ground (arith, i.shape.below z, i.busy_full z m);
  capped = λ z. ground (arith, i.capped z, i.shared);
  idle_capped = i.idle_capped;
  size_capped = i.size_capped;
}

-- The end of getConn, with a new connection, keeps the invariant, whether the pool has room for it or not.
pub open_conn-Sound :
    (lim : Limits) (now : ℕ) (sp : StreamsPool) → Sound lim sp → Sound lim (open_conn lim now sp)
unfolding open_conn admit allocate update
open_conn-Sound lim now sp (hs, ls, i) = elim (Bool-cases (ltb sp.count lim.size)) [
  | inl room ↦ rw room (
    sp.fresh ∷ hs,
    ls,
    enter-Inv lim (allocate now sp) hs ls sp.fresh (allocate-Inv lim now sp hs ls i) (ground arith)
        (omega (arith, i.shape.above)) (omega arith) (ground arith) (ground arith),
  )
  | inr full ↦ rw full (hs, ls, allocate-Inv lim now sp hs ls i)
]

-- The three ways through release.
module _ (lim : Limits) (now : ℕ) (failed : Bool) (x : ℕ) (sp : StreamsPool) where
  pub release-listed :
      (sp.nodes x).in_list ≡ true → release lim now failed x sp ≡ release_listed lim now failed x sp
  unfolding release readmit
  release-listed l = rw (l, release) (rw (l, release))

  pub release-entered :
      (sp.nodes x).in_list ≡ false
      → ltb sp.count lim.size ≡ true
      → release lim now failed x sp ≡ release_listed lim now failed x (add_conn_after x head sp)
  unfolding release readmit add_conn_after
  release-entered out room = ground (arith, link-in_list sp.nodes x head x)

  pub release-closed :
      (sp.nodes x).in_list ≡ false
      → ltb sp.count lim.size ≡ false
      → release lim now failed x sp ≡ close_conn x sp
  unfolding release readmit
  release-closed out full = ground arith

-- release keeps the invariant, for a connection at an address that was handed out and with a stream to end,
-- whether it is in a list or not.
pub release-Sound :
    (lim : Limits) (now : ℕ) (failed : Bool) (x : ℕ) (sp : StreamsPool)
    → 2 < x
    → x < sp.fresh
    → 0 < (sp.nodes x).streams
    → Sound lim sp
    → Sound lim (release lim now failed x sp)
unfolding add_conn_after close_conn
release-Sound lim now failed x sp lo hi p (hs, ls, i) = elim (Bool-cases (sp.nodes x).in_list) [
  | inl l ↦
      rw (release-listed lim now failed x sp l) (to_front-finish lim sp hs ls x now failed i l p)
  | inr out ↦ elim (Bool-cases (ltb sp.count lim.size)) [
    | inl room ↦ rw (release-entered lim now failed x sp out room) (
        to_front-finish lim (add_conn_after x head sp) (x ∷ hs) ls x now failed
          (enter-Inv lim sp hs ls x i out lo hi p (ground arith))
          (ground (arith, link-in_list sp.nodes x head x))
          (omega (arith, link-streams sp.nodes x head x)))
    | inr full ↦ rw (release-closed lim now failed x sp out full) (
      hs,
      ls,
      record {
        shape = Shape-frame {sp = sp} _ (λ z. (refl, refl, refl)) (omega arith) refl i.shape;
        shared = i.shared;
        idle_exact = i.idle_exact;
        busy_full = i.busy_full;
        capped = i.capped;
        idle_capped = i.idle_capped;
        size_capped = i.size_capped;
      },
    )
  ]
]

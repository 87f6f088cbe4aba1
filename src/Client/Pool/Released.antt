-- ===== src/Client/Pool/Released.antt =====
-- What release does to the connections, one by one.
use go_vkit.Prelude.{
  ℕ, ◌-◌, ◌<◌, ◌≡◌, refl, ◌∙◌, ◌≢◌, Bool, true, false, ◌∷◌, arith, ◌==◌, if◌then◌else◌, ◌⊎◌, inl,
  inr, leb, ltb, Bool-cases,
}
use go_vkit.Client.Nodes.{
  StreamsPool, head, update, unlink, remove_conn, add_conn_after, close_conn, set_streams,
}
use go_vkit.Client.Nodes.Chains.{unlink-streams, link-streams, unlink-in_list, link-in_list}
use go_vkit.Client.Pool.{Limits, settle, to_front, end_stream, release_listed, release}
use go_vkit.Client.Pool.Entry.{release-listed, release-entered, release-closed}

-- Every other connection is as it was. `x` stays in a list with a stream less; or it is in no list,
-- closed, and the stream that ended was its last.
pub record Released (sp : StreamsPool) (x : ℕ) (q : StreamsPool) : Type 0 where
  pub others :
      (z : ℕ)
      → z ≢ x
      → ((q.nodes z).streams ≡ (sp.nodes z).streams) × ((q.nodes z).in_list ≡ (sp.nodes z).in_list)
  pub own :
      (((q.nodes x).in_list ≡ true)
        × ((q.nodes x).streams ≡ (sp.nodes x).streams - 1)
        × (q.closed ≡ sp.closed))
      ⊎ (((q.nodes x).in_list ≡ false) × ((sp.nodes x).streams ≡ 1) × (q.closed ≡ x ∷ sp.closed))
  pub fresh : q.fresh ≡ sp.fresh

-- A step that only moves `x`, which is in a list after it.
record Moved (sp : StreamsPool) (x : ℕ) (q : StreamsPool) : Type 0 where
  streams : (z : ℕ) → (q.nodes z).streams ≡ (sp.nodes z).streams
  others : (z : ℕ) → z ≢ x → (q.nodes z).in_list ≡ (sp.nodes z).in_list
  own : (q.nodes x).in_list ≡ true
  closed : q.closed ≡ sp.closed
  fresh : q.fresh ≡ sp.fresh

Moved-Released : (sp q r : StreamsPool) (x : ℕ) → Moved sp x q → Released q x r → Released sp x r
Moved-Released sp q r x m k = record {
  others = λ z h. ground (arith, k.others z h, m.others z h, m.streams z);
  own = ground (arith, k.own, m.streams x, m.closed);
  fresh = k.fresh ∙ m.fresh;
}

module _ (lim : Limits) (now : ℕ) (failed : Bool) (x : ℕ) (sp : StreamsPool) where
  to_front-Moved : (sp.nodes x).in_list ≡ true → Moved sp x (to_front lim x sp)
  unfolding to_front remove_conn add_conn_after
  to_front-Moved l = elim (Bool-cases (leb lim.max_streams (sp.nodes x).streams)) [
    | inl full ↦ rw full (record {
      streams = λ z. link-streams (unlink x sp.nodes) x head z ∙ unlink-streams sp.nodes x z;
      others = λ z h.
          ground (arith, link-in_list (unlink x sp.nodes) x head z, unlink-in_list sp.nodes x z);
      own = ground (arith, link-in_list (unlink x sp.nodes) x head x);
      closed = refl;
      fresh = refl;
    })
    | inr spare ↦
        rw spare (record {
          streams = λ z. refl;
          others = λ z h. refl;
          own = l;
          closed = refl;
          fresh = refl;
        })
  ]

  enter-Moved : Moved sp x (add_conn_after x head sp)
  unfolding add_conn_after
  enter-Moved = record {
    streams = λ z. link-streams sp.nodes x head z;
    others = λ z h. ground (arith, link-in_list sp.nodes x head z);
    own = ground (arith, link-in_list sp.nodes x head x);
    closed = refl;
    fresh = refl;
  }

module _ (lim : Limits) (now : ℕ) (failed : Bool) (x : ℕ) (sp : StreamsPool) where
  end-Released :
      (sp.nodes x).in_list ≡ true
      → 0 < (sp.nodes x).streams
      → Released sp x (
          let q = end_stream x sp in
          if (q.nodes x).streams == 0 then settle lim now failed x q else q)
  unfolding end_stream set_streams settle close_conn remove_conn update
  end-Released l p = record {
    others = λ z h. ground (
      arith,
      unlink-streams (end_stream x sp).nodes x z,
      unlink-in_list (end_stream x sp).nodes x z,
    );
    own = ground (
      arith,
      unlink-streams (end_stream x sp).nodes x x,
      unlink-in_list (end_stream x sp).nodes x x,
    );
    fresh = ground arith;
  }

module _ (lim : Limits) (now : ℕ) (failed : Bool) (x : ℕ) (sp : StreamsPool) where
  release_listed-Released :
      (sp.nodes x).in_list ≡ true
      → 0 < (sp.nodes x).streams
      → Released sp x (release_listed lim now failed x sp)
  unfolding release_listed
  release_listed-Released l p =
      let m = to_front-Moved lim now failed x sp l in
      Moved-Released sp (to_front lim x sp) _ x m
        (end-Released lim now failed x (to_front lim x sp) m.own (omega (arith, m.streams x)))

-- The effect of release on a connection that carries a stream, and just one if it is in no list.
pub release-Released :
    (lim : Limits) (now : ℕ) (failed : Bool) (x : ℕ) (sp : StreamsPool)
    → 0 < (sp.nodes x).streams
    → ((sp.nodes x).in_list ≡ false → (sp.nodes x).streams ≡ 1)
    → Released sp x (release lim now failed x sp)
unfolding close_conn
release-Released lim now failed x sp p one = elim (Bool-cases (sp.nodes x).in_list) [
  | inl l ↦
      rw (release-listed lim now failed x sp l) (release_listed-Released lim now failed x sp l p)
  | inr out ↦ elim (Bool-cases (ltb sp.count lim.size)) [
    | inl room ↦
        let m = enter-Moved lim now failed x sp in
        rw (release-entered lim now failed x sp out room) (
          Moved-Released sp (add_conn_after x head sp) _ x m (
            release_listed-Released lim now failed x (add_conn_after x head sp) m.own
              (omega (arith, m.streams x))))
    | inr full ↦
        rw (release-closed lim now failed x sp out full)
          (record { others = λ z h. (refl, refl); own = inr (out, one out, refl); fresh = refl })
  ]
]

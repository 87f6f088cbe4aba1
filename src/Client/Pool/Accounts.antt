-- ===== src/Client/Pool/Accounts.antt =====
-- What becomes of the connections that a walk of getConn takes out of the list.
use go_vkit.Prelude.{
  ℕ, zero, suc, ◌+◌, ◌≡◌, refl, ◌∙◌, ◌≢◌, true, false, arith, ◌==◌, ◌⊎◌, inl, inr, leb, ltb,
  Bool-cases,
}
use go_vkit.Client.Nodes.{
  StreamsPool, null, busy, head, unlink, update, remove_conn, add_conn_after, close_conn,
  set_streams, drop_idle,
}
use go_vkit.Client.Nodes.Chains.{mem, unlink-in_list, link-in_list}
use go_vkit.Client.Pool.Acquire.{scan-skip, scan-take}
use go_vkit.Client.Pool.{
  Limits, ConnState, idle, connecting, ready, transient_failure, shutdown, Visit, skip, take, evict,
  to_busy, claim, visit_usable, visit, scan, acquire,
}

-- From `sp` to `q` a connection that leaves the lists is closed, or is one of those in `gone`; no
-- connection is opened again.
pub record Accounts (gone : ℕ → Type 0) (sp q : StreamsPool) : Type 0 where
  pub left :
      (z : ℕ)
      → (sp.nodes z).in_list ≡ true
      → ((q.nodes z).in_list ≡ true) ⊎ ((mem z q.closed ≡ true) ⊎ gone z)
  pub kept : (z : ℕ) → mem z sp.closed ≡ true → mem z q.closed ≡ true
  pub fresh : q.fresh ≡ sp.fresh

abbrev pub Shut : (ℕ → ConnState) → ℕ → Type 0
Shut state z = state z ≡ shutdown

Accounts-refl : (gone : ℕ → Type 0) (sp : StreamsPool) → Accounts gone sp sp
Accounts-refl gone sp = record { left = λ z l. inl l; kept = λ z m. m; fresh = refl }

Accounts-trans :
    (gone : ℕ → Type 0) (sp q r : StreamsPool)
    → Accounts gone sp q
    → Accounts gone q r
    → Accounts gone sp r
Accounts-trans gone sp q r a b = record {
  left = λ z l. elim (a.left z l) [
    | inl m ↦ b.left z m
    | inr (inl c) ↦ inr (inl (b.kept z c))
    | inr (inr g) ↦ inr (inr g)
  ];
  kept = λ z m. b.kept z (a.kept z m);
  fresh = b.fresh ∙ a.fresh;
}

abbrev Continued : (ℕ → Type 0) → StreamsPool → Visit → Type 0
Continued gone sp (skip next q) = Accounts gone sp q
Continued gone sp (take q) = Accounts gone sp q

module _ (state : ℕ → ConnState) (x : ℕ) (sp : StreamsPool) where
  evict_closing : Accounts (Shut state) sp (evict true x sp)
  unfolding evict drop_idle close_conn remove_conn
  evict_closing = record {
    left = λ z l. ground (arith, unlink-in_list sp.nodes x z);
    kept = λ z m. ground arith;
    fresh = ground arith;
  }

  evict_ended : state x ≡ shutdown → Accounts (Shut state) sp (evict false x sp)
  unfolding evict drop_idle remove_conn
  evict_ended s = record {
    left = λ z l. elim (Bool-cases (z == x)) [
      | inl e ↦ inr (inr (ground (arith, s)))
      | inr e ↦ inl (ground (arith, unlink-in_list sp.nodes x z))
    ];
    kept = λ z m. ground arith;
    fresh = ground arith;
  }

  to_busy-Accounts : Accounts (Shut state) sp (to_busy x sp)
  unfolding to_busy add_conn_after remove_conn
  to_busy-Accounts = record {
    left = λ z l.
        inl
          (ground (arith, link-in_list (unlink x sp.nodes) x busy z, unlink-in_list sp.nodes x z));
    kept = λ z m. m;
    fresh = refl;
  }

  claim-Accounts : Accounts (Shut state) sp (claim x sp)
  unfolding claim set_streams drop_idle update
  claim-Accounts = record {
    left = λ z l. inl (ground arith);
    kept = λ z m. ground arith;
    fresh = ground arith;
  }

  visit_usable-Continued :
      (lim : Limits) (now : ℕ) → Continued (Shut state) sp (visit_usable lim now x sp)
  unfolding visit_usable
  visit_usable-Continued lim now = elim (Bool-cases (ltb ((sp.nodes x).created + lim.ttl) now)) [
    | inl old ↦ rw old evict_closing
    | inr young ↦ rw young (elim (Bool-cases (leb lim.max_streams (sp.nodes x).streams)) [
      | inl full ↦ rw full to_busy-Accounts
      | inr spare ↦ rw spare claim-Accounts
    ])
  ]

  visit-Continued :
      (lim : Limits) (now : ℕ) (st : ConnState)
      → state x ≡ st
      → Continued (Shut state) sp (visit lim now st x sp)
  unfolding visit
  visit-Continued lim now connecting e = Accounts-refl (Shut state) sp
  visit-Continued lim now shutdown e = evict_ended e
  visit-Continued lim now transient_failure e = evict_closing
  visit-Continued lim now ready e = visit_usable-Continued lim now
  visit-Continued lim now idle e = visit_usable-Continued lim now

-- One round at a connection whose visit is known.
after_visit :
    (lim : Limits) (now : ℕ) (state : ℕ → ConnState) (fuel x : ℕ) (sp : StreamsPool) (v : Visit)
    → visit lim now (state x) x sp ≡ v
    → x ≢ null
    → ((next : ℕ) (q : StreamsPool) → Accounts (Shut state) q (scan lim now state fuel next q).1)
    → Continued (Shut state) sp v
    → Accounts (Shut state) sp (scan lim now state (suc fuel) x sp).1
after_visit lim now state fuel x sp (skip next q) e ne rest a =
    rw (scan-skip lim now state fuel x sp ne e) (Accounts-trans (Shut state) sp q _ a (rest next q))
after_visit lim now state fuel x sp (take q) e ne rest a =
    rw (scan-take lim now state fuel x sp ne e) a

-- The walk of getConn over the list closes the connections that it takes out, but for those whose
-- state is Shutdown.
scan-Accounts :
    (lim : Limits) (now : ℕ) (state : ℕ → ConnState) (fuel x : ℕ) (sp : StreamsPool)
    → Accounts (Shut state) sp (scan lim now state fuel x sp).1
unfolding scan
scan-Accounts lim now state zero x sp = Accounts-refl (Shut state) sp
scan-Accounts lim now state (suc fuel) x sp = elim (Bool-cases (x == null)) [
  | inl e ↦ rw (e, scan) (Accounts-refl (Shut state) sp)
  | inr e ↦
      after_visit lim now state fuel x sp (visit lim now (state x) x sp) refl (ground arith)
        (λ next q. scan-Accounts lim now state fuel next q)
        (visit-Continued state x sp lim now (state x) refl)
]

pub acquire-Accounts :
    (lim : Limits) (now : ℕ) (state : ℕ → ConnState) (sp : StreamsPool)
    → Accounts (Shut state) sp (acquire lim now state sp).1
unfolding acquire
acquire-Accounts lim now state sp =
    scan-Accounts lim now state (sp.count + 1) (sp.nodes head).next sp

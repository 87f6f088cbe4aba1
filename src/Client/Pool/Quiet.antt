-- ===== src/Client/Pool/Quiet.antt =====
-- Steps that give out no stream: what they may do to connections that nobody uses.
use go_vkit.Prelude.{ℕ, ◌≡◌, refl, ◌∙◌, Bool, true, false, arith, ◌⊎◌, inl}
use go_vkit.Client.Nodes.{
  StreamsPool, busy, unlink, remove_conn, add_conn_after, close_conn, drop_idle,
}
use go_vkit.Client.Nodes.Chains.{
  mem, unlink-streams, link-streams, unlink-created, link-created, unlink-in_list, link-in_list,
}
use go_vkit.Client.Pool.{evict, to_busy}

-- From `sp` to `q` no connection's streams change; one that leaves the lists, and one that is
-- closed, had none and stood in a list.
pub record Quiet (sp q : StreamsPool) : Type 0 where
  pub streams : (z : ℕ) → (q.nodes z).streams ≡ (sp.nodes z).streams
  pub created : (z : ℕ) → (q.nodes z).created ≡ (sp.nodes z).created
  pub dropped :
      (z : ℕ)
      → ((q.nodes z).in_list ≡ (sp.nodes z).in_list)
        ⊎ (((sp.nodes z).in_list ≡ true)
            × ((q.nodes z).in_list ≡ false)
            × ((sp.nodes z).streams ≡ 0))
  pub closes :
      (z : ℕ)
      → mem z q.closed ≡ true
      → (mem z sp.closed ≡ true)
        ⊎ (((sp.nodes z).in_list ≡ true)
            × ((q.nodes z).in_list ≡ false)
            × ((sp.nodes z).streams ≡ 0))
  pub fresh : q.fresh ≡ sp.fresh

pub Quiet-refl : (sp : StreamsPool) → Quiet sp sp
Quiet-refl sp = record {
  streams = λ z. refl;
  created = λ z. refl;
  dropped = λ z. inl refl;
  closes = λ z m. inl m;
  fresh = refl;
}

pub Quiet-trans : (sp q r : StreamsPool) → Quiet sp q → Quiet q r → Quiet sp r
Quiet-trans sp q r a b = record {
  streams = λ z. b.streams z ∙ a.streams z;
  created = λ z. b.created z ∙ a.created z;
  dropped = λ z. ground (arith, a.dropped z, b.dropped z, a.streams z);
  closes = λ z m. ground (arith, a.dropped z, b.dropped z, a.streams z, b.closes z m, a.closes z);
  fresh = b.fresh ∙ a.fresh;
}

module _ (sp : StreamsPool) (x : ℕ) (listed : (sp.nodes x).in_list ≡ true) where
  pub evict-Quiet : (closes : Bool) → (sp.nodes x).streams ≡ 0 → Quiet sp (evict closes x sp)
  unfolding evict drop_idle close_conn remove_conn
  evict-Quiet closes e = record {
    streams = λ z. ground (arith, unlink-streams sp.nodes x z);
    created = λ z. ground (arith, unlink-created sp.nodes x z);
    dropped = λ z. ground (arith, unlink-in_list sp.nodes x z);
    closes = λ z m. ground (arith, unlink-in_list sp.nodes x z);
    fresh = ground arith;
  }

  pub to_busy-Quiet : Quiet sp (to_busy x sp)
  unfolding to_busy add_conn_after remove_conn
  to_busy-Quiet = record {
    streams = λ z. link-streams (unlink x sp.nodes) x busy z ∙ unlink-streams sp.nodes x z;
    created = λ z. link-created (unlink x sp.nodes) x busy z ∙ unlink-created sp.nodes x z;
    dropped =
        λ z. ground (arith, link-in_list (unlink x sp.nodes) x busy z, unlink-in_list sp.nodes x z);
    closes = λ z m. inl m;
    fresh = refl;
  }

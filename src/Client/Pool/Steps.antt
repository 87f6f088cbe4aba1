-- ===== src/Client/Pool/Steps.antt =====
-- Each round of the loop of getConn keeps the invariant.
use go_vkit.Prelude.{
  ℕ, ◌+◌, ◌-◌, ◌≤◌, ◌<◌, ◌≡◌, refl, ◌∙◌, Bool, true, false, List, ◌∷◌, ◌++◌, arith, length-append,
}
use go_vkit.Client.Nodes.{
  Nodes, StreamsPool, head, busy, update, unlink, link, remove_conn, add_conn_after, close_conn,
  set_streams, drop_idle,
}
use go_vkit.Client.Nodes.Chains.{mem_ne, unlink-streams, link-streams}
use go_vkit.Client.Nodes.Shape.{Shape-frame, remove_conn-Shape, Shape-Middle, move-Shape}
use go_vkit.Client.Pool.{Limits, evict, to_busy, claim}
use go_vkit.Client.Pool.Invariant.{Inv, zeros, zeros-congr, zeros-append}

pub zeros-unlink : (n : Nodes) (x : ℕ) (xs : List ℕ) → zeros (unlink x n) xs ≡ zeros n xs
zeros-unlink n x xs = zeros-congr n (unlink x n) xs (λ z _. unlink-streams n x z)

pub zeros-link : (n : Nodes) (x s : ℕ) (xs : List ℕ) → zeros (link x s n) xs ≡ zeros n xs
zeros-link n x s xs = zeros-congr n (link x s n) xs (λ z _. link-streams n x s z)

module _ (lim : Limits) (sp : StreamsPool) (bs : List ℕ) (x : ℕ) (cs ls : List ℕ) where
  -- A connection with no stream leaves the list.
  remove-Inv :
      (closed : List ℕ)
      → (sp.nodes x).streams ≡ 0
      → Inv lim sp (bs ++ x ∷ cs) ls
      → Inv lim (record (remove_conn x sp) { idle = sp.idle - 1; closed = closed }) (bs ++ cs) ls
  unfolding remove_conn zeros
  remove-Inv closed e i = record {
    shape =
        Shape-frame {sp = remove_conn x sp} _ (λ z. (refl, refl, refl)) (omega arith) refl
          (remove_conn-Shape head busy sp bs x cs ls i.shape);
    shared = i.shared;
    idle_exact = ground (
      arith,
      zeros-unlink sp.nodes x (bs ++ cs),
      zeros-append sp.nodes bs cs,
      zeros-append sp.nodes bs (x ∷ cs),
      i.idle_exact,
    );
    busy_full = λ z m. unlink-streams sp.nodes x z ∙ i.busy_full z m;
    capped = λ z. omega (arith, unlink-streams sp.nodes x z, i.capped z);
    idle_capped = omega (arith, i.idle_capped);
    size_capped = omega (arith, i.size_capped);
  }

  pub evict-Inv :
      (closes : Bool)
      → (sp.nodes x).streams ≡ 0
      → Inv lim sp (bs ++ x ∷ cs) ls
      → Inv lim (evict closes x sp) (bs ++ cs) ls
  unfolding evict drop_idle close_conn remove_conn
  evict-Inv true e i = rw e (remove-Inv (x ∷ sp.closed) e i)
  evict-Inv false e i = rw e (remove-Inv sp.closed e i)

  pub to_busy-Inv :
      lim.max_streams ≤ (sp.nodes x).streams
      → Inv lim sp (bs ++ x ∷ cs) ls
      → Inv lim (to_busy x sp) (bs ++ cs) (x ∷ ls)
  unfolding to_busy remove_conn add_conn_after zeros
  to_busy-Inv e i = record {
    shape = move-Shape head busy sp bs x cs ls i.shape;
    shared = i.shared;
    idle_exact = ground (
      arith,
      zeros-link (unlink x sp.nodes) x busy (bs ++ cs),
      zeros-unlink sp.nodes x (bs ++ cs),
      zeros-append sp.nodes bs cs,
      zeros-append sp.nodes bs (x ∷ cs),
      i.idle_exact,
      i.shared,
    );
    busy_full = λ z m. ground (
      arith,
      unlink-streams sp.nodes x z,
      link-streams (unlink x sp.nodes) x busy z,
      i.busy_full z,
      i.capped x,
    );
    capped = λ z.
        omega (
          arith,
          unlink-streams sp.nodes x z,
          link-streams (unlink x sp.nodes) x busy z,
          i.capped z,
        );
    idle_capped = omega (arith, i.idle_capped);
    size_capped = omega (arith, i.size_capped, i.shape.counted, length-append bs (x ∷ cs));
  }

  pub claim-Inv :
      (sp.nodes x).streams < lim.max_streams
      → Inv lim sp (bs ++ x ∷ cs) ls
      → Inv lim (claim x sp) (bs ++ x ∷ cs) ls
  unfolding claim set_streams drop_idle zeros update
  claim-Inv e i =
      let m = Shape-Middle head busy sp bs x cs ls i.shape in
      let n = update sp.nodes x (record (sp.nodes x) { streams = (sp.nodes x).streams + 1 }) in
      record {
        shape = Shape-frame {sp = sp} _ (λ z. ground arith) (ground arith) (ground arith) i.shape;
        shared = i.shared;
        idle_exact = ground (
          arith,
          i.idle_exact,
          m,
          zeros-congr sp.nodes n bs (λ z h. ground (arith, mem_ne z x bs h)),
          zeros-congr sp.nodes n cs (λ z h. ground (arith, mem_ne z x cs h)),
          zeros-append sp.nodes bs (x ∷ cs),
          zeros-append n bs (x ∷ cs),
        );
        busy_full = λ z h. ground (arith, i.busy_full z h, mem_ne z x ls h, m);
        capped = λ z. ground (arith, i.capped z);
        idle_capped = ground (arith, i.idle_capped);
        size_capped = ground (arith, i.size_capped);
      }

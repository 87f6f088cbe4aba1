-- ===== src/Client/Pool/Release.antt =====
-- release keeps the invariant.
use go_vkit.Prelude.{
  ℕ, ◌+◌, ◌-◌, ◌≤◌, ◌<◌, ◌≡◌, refl, ◌∙◌, Bool, true, false, ◌||◌, List, [], ◌∷◌, ◌++◌, arith, ◌==◌,
  if◌then◌else◌, length-append, Bool-cases, inl, inr, leb, ltb,
}
use mathlib.Core.Path.{subst}
use go_vkit.Client.Nodes.{
  PoolConn, Nodes, StreamsPool, head, busy, update, unlink, remove_conn, add_conn_after, close_conn,
  set_streams,
}
use go_vkit.Client.Nodes.Chains.{
  mem, mem-append, mem_ne, split_mem, unlink-streams, link-streams, unlink-in_list,
}
use go_vkit.Client.Nodes.Shape.{
  Shape, Shape-swap, Shape-frame, remove_conn-Shape, add_conn_after-Shape, Middle, Shape-Middle,
  move-Shape,
}
use go_vkit.Client.Pool.{Limits, settle, to_front, end_stream, release_listed}
use go_vkit.Client.Pool.Invariant.{Inv, zeros, zeros-congr, zeros-append}
use go_vkit.Client.Pool.Steps.{zeros-unlink, zeros-link}

-- Some lists for which the invariant holds.
abbrev pub Sound : Limits → StreamsPool → Type 0
Sound lim sp = (hs : List ℕ) × (ls : List ℕ) × Inv lim sp hs ls

below_idle : (f o : Bool) (a b : ℕ) → (f || (leb a b || o)) ≡ false → b < a
below_idle f o a b e = ground arith

zeros-update :
    (n : Nodes) (x : ℕ) (c : PoolConn) (xs : List ℕ)
    → mem x xs ≡ false
    → zeros (update n x c) xs ≡ zeros n xs
unfolding update
zeros-update n x c xs m = zeros-congr n (update n x c) xs (λ z h. ground (arith, mem_ne z x xs h m))

module _ (lim : Limits) (sp : StreamsPool) (bs : List ℕ) (x : ℕ) (cs ls : List ℕ)
    (i : Inv lim sp (bs ++ x ∷ cs) ls) where
  middle : Middle head busy sp bs x cs ls
  middle = Shape-Middle head busy sp bs x cs ls i.shape

  -- The connection after `conn.streams--`.
  ended : PoolConn
  ended = record (sp.nodes x) { streams = (sp.nodes x).streams - 1 }

  zeros-ended :
      (zeros (update sp.nodes x ended) bs ≡ zeros sp.nodes bs)
      × (zeros (update sp.nodes x ended) cs ≡ zeros sp.nodes cs)
  zeros-ended = (
    zeros-update sp.nodes x ended bs middle.not_before,
    zeros-update sp.nodes x ended cs middle.not_behind,
  )

  end_stream-Shape : Shape head busy (end_stream x sp) (bs ++ x ∷ cs) ls
  unfolding end_stream set_streams update
  end_stream-Shape = Shape-frame {sp = sp} _ (λ z. ground arith) (omega arith) refl i.shape

  -- What a change of one connection's streams to fewer leaves true.
  full_ended : (z : ℕ) → mem z ls ≡ true → ((end_stream x sp).nodes z).streams ≡ lim.max_streams
  unfolding end_stream set_streams update
  full_ended z m = ground (arith, i.busy_full z m, mem_ne z x ls m middle.not_other)

  capped_ended : (z : ℕ) → ((end_stream x sp).nodes z).streams ≤ lim.max_streams
  unfolding end_stream set_streams update
  capped_ended z = ground (arith, i.capped z)

  -- Other streams go on.
  busy_end : 1 < (sp.nodes x).streams → Inv lim (end_stream x sp) (bs ++ x ∷ cs) ls
  unfolding end_stream set_streams update zeros ended
  busy_end h = record {
    shape = end_stream-Shape;
    shared = i.shared;
    idle_exact = ground (
      arith,
      i.idle_exact,
      zeros-ended,
      zeros-append sp.nodes bs (x ∷ cs),
      zeros-append (update sp.nodes x ended) bs (x ∷ cs),
    );
    busy_full = full_ended;
    capped = capped_ended;
    idle_capped = i.idle_capped;
    size_capped = i.size_capped;
  }

  -- It was the last one, and the connection stays.
  keep_end :
      (sp.nodes x).streams ≡ 1
      → (end_stream x sp).idle < lim.max_idle
      → Inv lim (record (end_stream x sp) { idle = (end_stream x sp).idle + 1 }) (bs ++ x ∷ cs) ls
  unfolding end_stream set_streams update zeros ended
  keep_end h k = record {
    shape =
        Shape-frame {sp = end_stream x sp} _ (λ z. (refl, refl, refl)) (omega arith) refl
          end_stream-Shape;
    shared = i.shared;
    idle_exact = ground (
      arith,
      i.idle_exact,
      zeros-ended,
      zeros-append sp.nodes bs (x ∷ cs),
      zeros-append (update sp.nodes x ended) bs (x ∷ cs),
    );
    busy_full = full_ended;
    capped = capped_ended;
    idle_capped = omega arith;
    size_capped = i.size_capped;
  }

  -- It was the last one, and the connection is closed.
  drop_end :
      (sp.nodes x).streams ≡ 1
      → Inv lim (close_conn x (remove_conn x (end_stream x sp))) (bs ++ cs) ls
  unfolding close_conn remove_conn zeros end_stream set_streams ended
  drop_end h = record {
    shape =
        Shape-frame {sp = remove_conn x (end_stream x sp)} _ (λ z. (refl, refl, refl)) (omega arith)
          refl (remove_conn-Shape head busy (end_stream x sp) bs x cs ls end_stream-Shape);
    shared = i.shared;
    idle_exact = ground (
      arith,
      i.idle_exact,
      zeros-ended,
      zeros-unlink (update sp.nodes x ended) x (bs ++ cs),
      zeros-append (update sp.nodes x ended) bs cs,
      zeros-append sp.nodes bs (x ∷ cs),
    );
    busy_full = λ z m. unlink-streams (end_stream x sp).nodes x z ∙ full_ended z m;
    capped = λ z. omega (arith, unlink-streams (end_stream x sp).nodes x z, capped_ended z);
    idle_capped = i.idle_capped;
    size_capped = omega (arith, i.size_capped);
  }

  ended_streams : ((end_stream x sp).nodes x).streams ≡ (sp.nodes x).streams - 1
  unfolding end_stream set_streams update
  ended_streams = ground arith

  -- What follows `conn.streams--`, on each branch.
  settle-Sound :
      (now : ℕ) (failed : Bool)
      → (sp.nodes x).streams ≡ 1
      → Sound lim (settle lim now failed x (end_stream x sp))
  unfolding settle
  settle-Sound now failed h =
      let q = end_stream x sp in
      elim (Bool-cases
        (failed || (leb lim.max_idle q.idle || ltb ((q.nodes x).created + lim.ttl) now))) [
          | inl e ↦ rw e (bs ++ cs, ls, drop_end h)
          | inr e ↦ rw e (
            bs ++ x ∷ cs,
            ls,
            keep_end h
                (below_idle failed (ltb ((q.nodes x).created + lim.ttl) now) lim.max_idle q.idle e),
          )
        ]

  finish-Sound :
      (now : ℕ) (failed : Bool)
      → 0 < (sp.nodes x).streams
      → Sound lim (
          let q = end_stream x sp in
          if (q.nodes x).streams == 0 then settle lim now failed x q else q)
  finish-Sound now failed h = elim (Bool-cases (((end_stream x sp).nodes x).streams == 0)) [
    | inl e ↦ rw e (settle-Sound now failed (ground (arith, ended_streams)))
    | inr e ↦ rw e (bs ++ x ∷ cs, ls, busy_end (ground (arith, ended_streams)))
  ]

  -- A connection at its limit, moved to the front of its own list.
  front-Inv : Inv lim (add_conn_after x head (remove_conn x sp)) (x ∷ bs ++ cs) ls
  unfolding add_conn_after remove_conn zeros
  front-Inv = record {
    shape =
        add_conn_after-Shape head busy (remove_conn x sp) x (bs ++ cs) ls middle.not_null
          middle.not_first middle.not_second middle.fresh
          (ground (arith, unlink-in_list sp.nodes x x))
          (remove_conn-Shape head busy sp bs x cs ls i.shape);
    shared = i.shared;
    idle_exact = ground (
      arith,
      i.idle_exact,
      zeros-link (unlink x sp.nodes) x head (bs ++ cs),
      zeros-unlink sp.nodes x (bs ++ cs),
      zeros-append sp.nodes bs cs,
      zeros-append sp.nodes bs (x ∷ cs),
      link-streams (unlink x sp.nodes) x head x,
      unlink-streams sp.nodes x x,
    );
    busy_full = λ z m.
        link-streams (unlink x sp.nodes) x head z ∙ (unlink-streams sp.nodes x z ∙ i.busy_full z m);
    capped = λ z.
        omega (
          arith,
          unlink-streams sp.nodes x z,
          link-streams (unlink x sp.nodes) x head z,
          i.capped z,
        );
    idle_capped = i.idle_capped;
    size_capped = omega (arith, i.size_capped, i.shape.counted, length-append bs (x ∷ cs));
  }

-- The same for a connection of the busy list.
module _ (lim : Limits) (sp : StreamsPool) (hs bs : List ℕ) (x : ℕ) (cs : List ℕ)
    (i : Inv lim sp hs (bs ++ x ∷ cs)) where
  busy_streams : (sp.nodes x).streams ≡ lim.max_streams
  busy_streams = i.busy_full x (ground (arith, mem-append x bs (x ∷ cs)))

  back-Inv : Inv lim (add_conn_after x head (remove_conn x sp)) (x ∷ hs) (bs ++ cs)
  unfolding add_conn_after remove_conn zeros
  back-Inv = record {
    shape = Shape-swap (move-Shape busy head sp bs x cs hs (Shape-swap i.shape));
    shared = i.shared;
    idle_exact = ground (
      arith,
      i.idle_exact,
      i.shared,
      busy_streams,
      zeros-link (unlink x sp.nodes) x head hs,
      zeros-unlink sp.nodes x hs,
      link-streams (unlink x sp.nodes) x head x,
      unlink-streams sp.nodes x x,
    );
    busy_full = λ z m. ground (
      arith,
      link-streams (unlink x sp.nodes) x head z,
      unlink-streams sp.nodes x z,
      i.busy_full z,
      mem-append z bs cs,
      mem-append z bs (x ∷ cs),
    );
    capped = λ z.
        omega (
          arith,
          unlink-streams sp.nodes x z,
          link-streams (unlink x sp.nodes) x head z,
          i.capped z,
        );
    idle_capped = i.idle_capped;
    size_capped = omega (arith, i.size_capped, i.shape.counted, length-append bs (x ∷ cs));
  }

-- A connection of one of the two lists that carries a stream.
pub to_front-finish :
    (lim : Limits) (sp : StreamsPool) (hs ls : List ℕ) (x now : ℕ) (failed : Bool)
    → Inv lim sp hs ls
    → (sp.nodes x).in_list ≡ true
    → 0 < (sp.nodes x).streams
    → Sound lim (release_listed lim now failed x sp)
unfolding release_listed to_front
to_front-finish lim sp hs ls x now failed i l p = elim (Bool-cases (mem x hs)) [
  | inl m ↦
      let (bs, cs, e) = split_mem x hs m in
      let j : Inv lim sp (bs ++ x ∷ cs) ls = subst (λ (l : List ℕ). Inv lim sp l ls) e i in
      elim (Bool-cases (leb lim.max_streams (sp.nodes x).streams)) [
        | inl full ↦ rw full (
            finish-Sound lim (add_conn_after x head (remove_conn x sp)) [] x (bs ++ cs) ls
              (front-Inv lim sp bs x cs ls j) now failed (moved_streams p))
        | inr spare ↦ rw spare (finish-Sound lim sp bs x cs ls j now failed p)
      ]
  | inr m ↦
      let (bs, cs, e) = split_mem x ls (ground (arith, i.shape.flags x)) in
      let j : Inv lim sp hs (bs ++ x ∷ cs) = subst (λ (l : List ℕ). Inv lim sp hs l) e i in
      let full : leb lim.max_streams (sp.nodes x).streams ≡ true =
        ground (arith, busy_streams lim sp hs bs x cs j) in
      rw full (
        finish-Sound lim (add_conn_after x head (remove_conn x sp)) [] x hs (bs ++ cs)
          (back-Inv lim sp hs bs x cs j) now failed (moved_streams p))
]
  where
    moved_streams :
        0 < (sp.nodes x).streams → 0 < ((add_conn_after x head (remove_conn x sp)).nodes x).streams
    moved_streams p =
        unfold add_conn_after remove_conn in
        omega (arith, link-streams (unlink x sp.nodes) x head x, unlink-streams sp.nodes x x)

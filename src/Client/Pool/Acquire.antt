-- ===== src/Client/Pool/Acquire.antt =====
-- The loop of getConn keeps the invariant, ends, and returns a connection that is fit for a stream.
use mathlib.Core.Path.{subst}
use go_vkit.Prelude.{
  ◌↔◌, ==_iff, beq_of_ne, ℕ, zero, suc, ◌+◌, ◌≤◌, ◌<◌, ◌≡◌, refl, ◌≢◌, Bool, true, false, List, [],
  ◌∷◌, ◌++◌, arith, ◌==◌, length, Bool-cases, inl, inr, ◌⊎◌, leb, ltb, append_assoc,
}
use go_vkit.Client.Nodes.{PoolConn, StreamsPool, null, head, busy}
use go_vkit.Client.Nodes.Chains.{mem}
use go_vkit.Client.Nodes.Shape.{
  Shape-Middle, first_or_null, next-middle, next-sentinel, next-sentinel,
}
use go_vkit.Client.Pool.{
  Limits, ConnState, connecting, ready, idle, transient_failure, shutdown, Visit, skip, take, evict,
  to_busy, claim, visit_usable, visit, Scan, found, exhausted, out_of_fuel, scan, acquire,
}
use go_vkit.Client.Pool.Quiet.{Quiet, Quiet-refl, Quiet-trans, evict-Quiet, to_busy-Quiet}
use go_vkit.Client.Pool.Invariant.{Inv}
use go_vkit.Client.Pool.Steps.{evict-Inv, to_busy-Inv, claim-Inv}

-- A connection that getConn may return: ready or idle, not too old, with a stream to spare.
pub record Usable (lim : Limits) (now : ℕ) (st : ConnState) (c : PoolConn) : Type 0 where
  pub state : (st ≡ ready) ⊎ (st ≡ idle)
  pub young : now ≤ c.created + lim.ttl
  pub spare : c.streams < lim.max_streams

-- After a round at `x`, in the list between `bs` and `cs`, that goes on to `next`.
pub record Skipped (lim : Limits) (now : ℕ) (st : ConnState) (sp : StreamsPool) (x : ℕ)
    (cs : List ℕ) (next : ℕ) (q : StreamsPool) : Type 0 where
  pub before : List ℕ
  pub others : List ℕ
  pub inv : Inv lim q (before ++ cs) others
  pub onward : next ≡ first_or_null cs
  pub quiet : Quiet sp q
  pub unusable : ¬ (Usable lim now st (sp.nodes x))

abbrev pub Visited :
    Limits → ℕ → ConnState → StreamsPool → List ℕ → ℕ → List ℕ → List ℕ → Visit → Type 0
Visited lim now st sp bs x cs ls (skip next q) = Skipped lim now st sp x cs next q
Visited lim now st sp bs x cs ls (take q) =
    Usable lim now st (sp.nodes x)
    × (q ≡ claim x sp)
    × Inv lim q (bs ++ x ∷ cs) ls
    × Inv lim sp (bs ++ x ∷ cs) ls

module _ (lim : Limits) (now : ℕ) (sp : StreamsPool) (bs : List ℕ) (x : ℕ) (cs ls : List ℕ)
    (i : Inv lim sp (bs ++ x ∷ cs) ls) where
  listed : (sp.nodes x).in_list ≡ true
  listed = (Shape-Middle head busy sp bs x cs ls i.shape).listed

  onward : (sp.nodes x).next ≡ first_or_null cs
  onward = next-middle sp.nodes head bs x cs i.shape.first

  stay :
      (st : ConnState)
      → ¬ (Usable lim now st (sp.nodes x))
      → Skipped lim now st sp x cs (sp.nodes x).next sp
  stay st u = record {
    before = bs ++ x ∷ [];
    others = ls;
    inv = rw append_assoc i;
    onward = onward;
    quiet = Quiet-refl sp;
    unusable = u;
  }

  evicted :
      (st : ConnState) (closes : Bool)
      → ¬ (Usable lim now st (sp.nodes x))
      → Skipped lim now st sp x cs (sp.nodes x).next (evict closes x sp)
  unfolding evict
  evicted st closes u = elim (Bool-cases ((sp.nodes x).streams == 0)) [
    | inl e ↦ record {
      before = bs;
      others = ls;
      inv = evict-Inv lim sp bs x cs ls closes (ground arith) i;
      onward = onward;
      quiet = evict-Quiet sp x listed closes (ground arith);
      unusable = u;
    }
    | inr e ↦ rw (e, evict) (stay st u)
  ]

  moved :
      (st : ConnState)
      → lim.max_streams ≤ (sp.nodes x).streams
      → Skipped lim now st sp x cs (sp.nodes x).next (to_busy x sp)
  moved st e = record {
    before = bs;
    others = x ∷ ls;
    inv = to_busy-Inv lim sp bs x cs ls e i;
    onward = onward;
    quiet = to_busy-Quiet sp x listed;
    unusable = λ u. omega (arith, u.spare);
  }

  visit_usable-Visited :
      (st : ConnState)
      → (st ≡ ready) ⊎ (st ≡ idle)
      → Visited lim now st sp bs x cs ls (visit_usable lim now x sp)
  unfolding visit_usable
  visit_usable-Visited st s = elim (Bool-cases (ltb ((sp.nodes x).created + lim.ttl) now)) [
    | inl old ↦ rw old (evicted st true (λ u. ground (arith, u.young)))
    | inr young ↦ rw young (elim (Bool-cases (leb lim.max_streams (sp.nodes x).streams)) [
      | inl full ↦ rw full (moved st (ground arith))
      | inr spare ↦ rw spare (
        record { state = s; young = ground arith; spare = ground arith },
        refl,
        claim-Inv lim sp bs x cs ls (ground arith) i,
        i,
      )
    ])
  ]

  visit-Visited : (st : ConnState) → Visited lim now st sp bs x cs ls (visit lim now st x sp)
  unfolding visit
  visit-Visited connecting = stay connecting (λ u. ground (arith, u.state))
  visit-Visited shutdown = evicted shutdown false (λ u. ground (arith, u.state))
  visit-Visited transient_failure = evicted transient_failure true (λ u. ground (arith, u.state))
  visit-Visited ready = visit_usable-Visited ready (inl refl)
  visit-Visited idle = visit_usable-Visited idle (inr refl)

-- The connections from which the loop starts at `p`, and what its result says of them.
abbrev pub Scanned :
    Limits → ℕ → (ℕ → ConnState) → StreamsPool → List ℕ → Scan × StreamsPool → Type 0
Scanned lim now state sp rest (found c, q) =
    (mem c rest ≡ true)
    × Usable lim now (state c) (sp.nodes c)
    × ((mid : StreamsPool) × Quiet sp mid
        × ((mid.nodes c).in_list ≡ true)
        × ((hs : List ℕ) × (ls : List ℕ) × Inv lim mid hs ls)
        × (q ≡ claim c mid))
    × ((hs : List ℕ) × (ls : List ℕ) × Inv lim q hs ls)
Scanned lim now state sp rest (exhausted, q) =
    ((z : ℕ) → mem z rest ≡ true → ¬ (Usable lim now (state z) (sp.nodes z)))
    × Quiet sp q
    × ((hs : List ℕ) × (ls : List ℕ) × Inv lim q hs ls)
Scanned lim now state sp rest (out_of_fuel, q) = ⊥

Usable-Quiet :
    (lim : Limits) (now : ℕ) (st : ConnState) (sp q : StreamsPool) (z : ℕ)
    → Quiet sp q
    → Usable lim now st (q.nodes z) ↔ Usable lim now st (sp.nodes z)
Usable-Quiet lim now st sp q z k = (
  (λ u. record {
    state = u.state;
    young = omega (arith, u.young, k.created z);
    spare = omega (arith, u.spare, k.streams z);
  }),
  (λ u. record {
    state = u.state;
    young = omega (arith, u.young, k.created z);
    spare = omega (arith, u.spare, k.streams z);
  }),
)

-- A result for the rest of the list, seen from the state before the round at `x`.
Scanned-skip :
    (lim : Limits) (now : ℕ) (state : ℕ → ConnState) (sp q : StreamsPool) (x : ℕ) (cs : List ℕ)
    (r : Scan × StreamsPool)
    → Quiet sp q
    → ¬ (Usable lim now (state x) (sp.nodes x))
    → Scanned lim now state q cs r
    → Scanned lim now state sp (x ∷ cs) r
Scanned-skip lim now state sp q x cs (found c, r) k u (m, ok, (mid, k', l, j, e), i) = (
  ground arith,
  (Usable-Quiet lim now (state c) sp q c k).0 ok,
  (mid, Quiet-trans sp q mid k k', l, j, e),
  i,
)
Scanned-skip lim now state sp q x cs (exhausted, r) k u (none_usable, k', i) = (
  (λ z m h. elim (Bool-cases (z == x)) [
    | inl e ↦ u (subst (λ (a : ℕ). Usable lim now (state a) (sp.nodes a)) ((==_iff z x).0 e) h)
    | inr e ↦ none_usable z (ground arith) ((Usable-Quiet lim now (state z) sp q z k).1 h)
  ]),
  Quiet-trans sp q r k k',
  i,
)
Scanned-skip lim now state sp q x cs (out_of_fuel, r) k u h = h

pub scan-skip :
    (lim : Limits) (now : ℕ) (state : ℕ → ConnState) (fuel x : ℕ) (sp : StreamsPool) {next : ℕ}
    {q : StreamsPool}
    → x ≢ null
    → visit lim now (state x) x sp ≡ skip next q
    → scan lim now state (suc fuel) x sp ≡ scan lim now state fuel next q
unfolding scan
scan-skip lim now state fuel x sp ne e = rw (beq_of_ne x null ne, scan) (rw (e, scan))

pub scan-take :
    (lim : Limits) (now : ℕ) (state : ℕ → ConnState) (fuel x : ℕ) (sp : StreamsPool)
    {q : StreamsPool}
    → x ≢ null
    → visit lim now (state x) x sp ≡ take q
    → scan lim now state (suc fuel) x sp ≡ (found x, q)
unfolding scan
scan-take lim now state fuel x sp ne e = rw (beq_of_ne x null ne, scan) (rw (e, scan))

-- One round at a connection whose visit is known.
round :
    (lim : Limits) (now : ℕ) (state : ℕ → ConnState) (fuel : ℕ) (sp : StreamsPool) (bs : List ℕ)
    (x : ℕ) (cs ls : List ℕ) (v : Visit)
    → visit lim now (state x) x sp ≡ v
    → x ≢ null
    → Visited lim now (state x) sp bs x cs ls v
    → ((q : StreamsPool) (keep others : List ℕ)
        → Inv lim q (keep ++ cs) others
        → Scanned lim now state q cs (scan lim now state fuel (first_or_null cs) q))
    → (sp.nodes x).in_list ≡ true
    → Scanned lim now state sp (x ∷ cs) (scan lim now state (suc fuel) x sp)
round lim now state fuel sp bs x cs ls (skip next q) e ne k rest l =
    rw (scan-skip lim now state fuel x sp ne e, k.onward)
      (Scanned-skip lim now state sp q x cs _ k.quiet k.unusable (rest q k.before k.others k.inv))
round lim now state fuel sp bs x cs ls (take q) e ne (u, c, i, j) rest l =
    rw (scan-take lim now state fuel x sp ne e)
      (ground arith, u, (sp, Quiet-refl sp, l, (bs ++ x ∷ cs, ls, j), c), (bs ++ x ∷ cs, ls, i))

-- From a connection of the list, and with more rounds than connections left, the loop ends; it keeps
-- the invariant, and says by its result whether one of them is usable.
scan-Scanned :
    (lim : Limits) (now : ℕ) (state : ℕ → ConnState) (fuel : ℕ) (sp : StreamsPool)
    (bs rest ls : List ℕ)
    → length rest < fuel
    → Inv lim sp (bs ++ rest) ls
    → Scanned lim now state sp rest (scan lim now state fuel (first_or_null rest) sp)
unfolding scan first_or_null
scan-Scanned lim now state zero sp bs rest ls h i = absurd (omega arith)
scan-Scanned lim now state (suc fuel) sp bs [] ls h i =
    ((λ z m. cc), Quiet-refl sp, (bs ++ [], ls, i))
scan-Scanned lim now state (suc fuel) sp bs (x ∷ cs) ls h i =
    let m = Shape-Middle head busy sp bs x cs ls i.shape in
    round lim now state fuel sp bs x cs ls (visit lim now (state x) x sp) refl m.not_null
      (visit-Visited lim now sp bs x cs ls i (state x))
      (λ q keep others j. scan-Scanned lim now state fuel q keep cs others (omega arith) j) m.listed

-- The first part of getConn ends within the rounds that it is given. It returns a usable connection
-- with one more stream, and none only if no connection of the list is usable; the invariant holds
-- after it.
pub acquire-Scanned :
    (lim : Limits) (now : ℕ) (state : ℕ → ConnState) (sp : StreamsPool) (hs ls : List ℕ)
    → Inv lim sp hs ls
    → Scanned lim now state sp hs (acquire lim now state sp)
unfolding acquire
acquire-Scanned lim now state sp hs ls i =
    rw (next-sentinel sp.nodes head hs i.shape.first)
      (scan-Scanned lim now state (sp.count + 1) sp [] hs ls (omega (arith, i.shape.counted)) i)

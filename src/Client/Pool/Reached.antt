-- ===== src/Client/Pool/Reached.antt =====
-- What holds of a streams pool after any number of steps of its callers.
use go_vkit.Prelude.{ℕ, ◌≤◌, ◌<◌, ◌≡◌, refl, sym, false, List, [], arith, inl, inr, Bool-cases}
use mathlib.Core.Path.{subst}
use go_vkit.Client.Nodes.{StreamsPool}
use go_vkit.Client.Nodes.Chains.{mem}
use go_vkit.Client.Pool.{Limits, ConnState, Scan, found, exhausted, new_streams_pool, acquire}
use go_vkit.Client.Pool.Invariant.{Inv, new_streams_pool-Inv}
use go_vkit.Client.Pool.Acquire.{Scanned, acquire-Scanned}
use go_vkit.Client.Pool.Release.{Sound}
use go_vkit.Client.Pool.Sharing.{
  World, add_user, Step, acquires, scans, opens, releases, Reach, start, next, Fair, Quiet-Fair,
  claim-Fair, open_conn-Fair, release-Fair,
}

acquired-Fair :
    (lim : Limits) (now : ℕ) (state : ℕ → ConnState) (c : ℕ) (q : StreamsPool) (w : World)
    → acquire lim now state w.sp ≡ (found c, q)
    → Fair lim w
    → Fair lim (record { sp = q; users = add_user c w.users })
acquired-Fair lim now state c q w e f =
    let (hs, ls, i) = f.sound in
    let r =
      subst (λ (r : Scan × StreamsPool). Scanned lim now state w.sp hs r) e
        (acquire-Scanned lim now state w.sp hs ls i) in
    let (mid, k, l, s, same) = r.2 in
    subst (λ (p : StreamsPool). Fair lim (record { sp = p; users = add_user c w.users })) (sym same)
      (claim-Fair lim w c mid l (subst (λ (p : StreamsPool). Sound lim p) same r.3)
        (Quiet-Fair lim w mid k s f))

scanned-Fair :
    (lim : Limits) (now : ℕ) (state : ℕ → ConnState) (q : StreamsPool) (w : World)
    → acquire lim now state w.sp ≡ (exhausted, q)
    → Fair lim w
    → Fair lim (record { sp = q; users = w.users })
scanned-Fair lim now state q w e f =
    let (hs, ls, i) = f.sound in
    let r =
      subst (λ (r : Scan × StreamsPool). Scanned lim now state w.sp hs r) e
        (acquire-Scanned lim now state w.sp hs ls i) in
    Quiet-Fair lim w q r.1 r.2 f

-- Each locked part, run by any caller in any fair state, leaves a fair state.
pub Step-Fair : (lim : Limits) (w v : World) → Step lim w v → Fair lim w → Fair lim v
Step-Fair lim w v (acquires now state c q e same) f =
    subst (λ (u : World). Fair lim u) (sym same) (acquired-Fair lim now state c q w e f)
Step-Fair lim w v (scans now state q e same) f =
    subst (λ (u : World). Fair lim u) (sym same) (scanned-Fair lim now state q w e f)
Step-Fair lim w v (opens now same) f =
    subst (λ (u : World). Fair lim u) (sym same) (open_conn-Fair lim now w f)
Step-Fair lim w v (releases now failed c p same) f =
    subst (λ (u : World). Fair lim u) (sym same) (release-Fair lim now failed c w p f)

pub Reach-Fair : {lim : Limits} {w : World} → 1 ≤ lim.max_streams → Reach lim w → Fair lim w
unfolding new_streams_pool
Reach-Fair {lim} p start = record {
  sound = ([], [], new_streams_pool-Inv lim p);
  pooled = λ z l. refl;
  outside = λ z l. inl refl;
  closed = λ z m. cc;
  known = λ z h. absurd (omega arith);
}
Reach-Fair {lim} p (next {w} {v} r s) = Step-Fair lim w v s (Reach-Fair p r)

-- Whatever the callers do and in whatever order, a streams pool that allows a connection at least one
-- stream pools at most `size` connections and keeps at most `max_idle` idle ones, and no
-- connection has more than `max_streams` holders.
pub Reach-capped :
    (lim : Limits) (w : World) (z : ℕ)
    → 1 ≤ lim.max_streams
    → Reach lim w
    → (w.sp.count ≤ lim.size) × (w.sp.idle ≤ lim.max_idle) × (w.users z ≤ lim.max_streams)
Reach-capped lim w z p r =
    let f = Reach-Fair p r in let (hs, ls, i) = f.sound in (i.size_capped, i.idle_capped, cap f i z)
  where
    cap : {hs ls : List ℕ} → Fair lim w → Inv lim w.sp hs ls → (z : ℕ) → w.users z ≤ lim.max_streams
    cap f i z = elim (Bool-cases (w.sp.nodes z).in_list) [
      | inl l ↦ omega (arith, f.pooled z l, i.capped z)
      | inr out ↦ ground (arith, f.outside z out)
    ]

-- Whatever the callers do and in whatever order, the ClientConn of a connection that somebody holds
-- is not closed.
pub Reach-open :
    (lim : Limits) (w : World) (z : ℕ)
    → 1 ≤ lim.max_streams
    → Reach lim w
    → 0 < w.users z
    → mem z w.sp.closed ≡ false
Reach-open lim w z p r h = let f = Reach-Fair p r in ground (arith, f.closed z)

-- ===== src/Client/Pool/Choice.antt =====
-- What the first part of getConn promises its caller.
use mathlib.Core.Path.{subst}
use go_vkit.Prelude.{ℕ, ◌+◌, ◌≡◌, ◌≢◌, true, List, arith, ◌==◌, if◌then◌else◌}
use go_vkit.Client.Nodes.{StreamsPool, update, set_streams, drop_idle}
use go_vkit.Client.Nodes.Chains.{mem}
use go_vkit.Client.Pool.{Limits, ConnState, claim, Scan, found, exhausted, out_of_fuel, acquire}
use go_vkit.Client.Pool.Quiet.{Quiet}
use go_vkit.Client.Pool.Invariant.{Inv}
use go_vkit.Client.Pool.Acquire.{Usable, Scanned, acquire-Scanned}

-- Where the invariant holds, the walk of getConn over the list ends within its rounds, whatever the states of
-- the connections.
pub acquire_ends :
    (lim : Limits) (now : ℕ) (state : ℕ → ConnState) (sp : StreamsPool) (hs ls : List ℕ)
    → Inv lim sp hs ls
    → (acquire lim now state sp).0 ≢ out_of_fuel
acquire_ends lim now state sp hs ls i =
    go (acquire lim now state sp) (acquire-Scanned lim now state sp hs ls i)
  where
    go : (r : Scan × StreamsPool) → Scanned lim now state sp hs r → r.0 ≢ out_of_fuel
    go (found c, q) s = cc
    go (exhausted, q) s = cc
    go (out_of_fuel, q) s = absurd s

claim_streams :
    (sp mid q : StreamsPool) (c z : ℕ)
    → Quiet sp mid
    → q ≡ claim c mid
    → (q.nodes z).streams ≡ (if z == c then (sp.nodes z).streams + 1 else (sp.nodes z).streams)
unfolding claim set_streams drop_idle update
claim_streams sp mid q c z k e = ground (arith, k.streams z, k.streams c)

-- Where the invariant holds, a connection that the first part of getConn returns was in the list, ready or
-- idle, not older than the time to live, and had a stream to spare; it has one more stream now, and the others have as many as before.
pub acquire-found :
    (lim : Limits) (now : ℕ) (state : ℕ → ConnState) (sp q : StreamsPool) (hs ls : List ℕ) (c z : ℕ)
    → Inv lim sp hs ls
    → acquire lim now state sp ≡ (found c, q)
    → (mem c hs ≡ true)
      × Usable lim now (state c) (sp.nodes c)
      × ((q.nodes z).streams ≡ (if z == c then (sp.nodes z).streams + 1 else (sp.nodes z).streams))
acquire-found lim now state sp q hs ls c z i e =
    let s =
      subst (λ (r : Scan × StreamsPool). Scanned lim now state sp hs r) e
        (acquire-Scanned lim now state sp hs ls i) in
    let (mid, k, l, j, same) = s.2 in (s.0, s.1, claim_streams sp mid q c z k same)

-- Where the invariant holds, the first part of getConn finds no connection only if none of the list was
-- ready or idle, young enough and with a stream to spare.
pub acquire-exhausted :
    (lim : Limits) (now : ℕ) (state : ℕ → ConnState) (sp q : StreamsPool) (hs ls : List ℕ) (z : ℕ)
    → Inv lim sp hs ls
    → acquire lim now state sp ≡ (exhausted, q)
    → mem z hs ≡ true
    → ¬ (Usable lim now (state z) (sp.nodes z))
acquire-exhausted lim now state sp q hs ls z i e m =
    let s =
      subst (λ (r : Scan × StreamsPool). Scanned lim now state sp hs r) e
        (acquire-Scanned lim now state sp hs ls i) in
    s.0 z m

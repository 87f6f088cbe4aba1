-- ===== src/Client/Pool/Sharing.antt =====
-- Any number of callers share a streams pool: their locked parts, one after the other in any order.
use go_vkit.Prelude.{
  ℕ, ◌+◌, ◌-◌, ◌<◌, ◌≡◌, sym, ap, ◌∙◌, ◌≢◌, Bool, true, false, ◌||◌, arith, ◌==◌, if◌then◌else◌,
  ◌⊎◌,
}
use go_vkit.Client.Nodes.{StreamsPool, head, update, add_conn_after, set_streams, drop_idle}
use go_vkit.Client.Nodes.Chains.{mem, link-streams, link-in_list}
use go_vkit.Client.Pool.{
  Limits, ConnState, found, exhausted, new_streams_pool, claim, acquire, allocate, admit, open_conn,
  release,
}
use go_vkit.Client.Pool.Quiet.{Quiet}
use go_vkit.Client.Pool.Release.{Sound}
use go_vkit.Client.Pool.Entry.{open_conn-Sound, release-Sound}
use go_vkit.Client.Pool.Released.{release-Released}

-- A streams pool, and how many callers hold each connection, that is got it and did not release it.
pub record World : Type 0 where
  pub sp : StreamsPool
  pub users : ℕ → ℕ

unfoldable pub add_user : ℕ → (ℕ → ℕ) → ℕ → ℕ
add_user c users z = if z == c then users z + 1 else users z

unfoldable pub drop_user : ℕ → (ℕ → ℕ) → ℕ → ℕ
drop_user c users z = if z == c then users z - 1 else users z

-- The first part of getConn with either result, its second part, and release by one of the holders.
pub data Step (lim : Limits) (w v : World) : Type 0 where
  acquires :
      (now : ℕ) (state : ℕ → ConnState) (c : ℕ) (q : StreamsPool)
      → acquire lim now state w.sp ≡ (found c, q)
      → v ≡ record { sp = q; users = add_user c w.users }
      → Step lim w v
  scans :
      (now : ℕ) (state : ℕ → ConnState) (q : StreamsPool)
      → acquire lim now state w.sp ≡ (exhausted, q)
      → v ≡ record { sp = q; users = w.users }
      → Step lim w v
  opens :
      (now : ℕ)
      → v ≡ record { sp = open_conn lim now w.sp; users = add_user w.sp.fresh w.users }
      → Step lim w v
  releases :
      (now : ℕ) (failed : Bool) (c : ℕ)
      → 0 < w.users c
      → v ≡ record { sp = release lim now failed c w.sp; users = drop_user c w.users }
      → Step lim w v

pub data Reach (lim : Limits) : World → Type 0 where
  start : Reach lim (record { sp = new_streams_pool; users = λ z. 0 })
  next : {w v : World} → Reach lim w → Step lim w v → Reach lim v

-- A pooled connection has a stream for each holder. One outside the lists has one holder or none. A
-- closed one has none, and is in no list.
pub record Fair (lim : Limits) (w : World) : Type 0 where
  pub sound : Sound lim w.sp
  pub pooled : (z : ℕ) → (w.sp.nodes z).in_list ≡ true → (w.sp.nodes z).streams ≡ w.users z
  pub outside :
      (z : ℕ)
      → (w.sp.nodes z).in_list ≡ false
      → (w.users z ≡ 0) ⊎ ((w.users z ≡ 1) × ((w.sp.nodes z).streams ≡ 1))
  pub closed :
      (z : ℕ)
      → mem z w.sp.closed ≡ true
      → (w.users z ≡ 0) × ((w.sp.nodes z).in_list ≡ false) × (z < w.sp.fresh)
  pub known : (z : ℕ) → 0 < w.users z → (2 < z) × (z < w.sp.fresh)

listed_known :
    (lim : Limits) (sp : StreamsPool) (z : ℕ)
    → Sound lim sp
    → (sp.nodes z).in_list ≡ true
    → (2 < z) × (z < sp.fresh)
listed_known lim sp z (hs, ls, i) l = (
  omega (
    arith,
    ne 0 (ground (arith, i.shape.own_first, i.shape.own_second)),
    ne 1 (ground (arith, i.shape.own_first, i.shape.apart 1)),
    ne 2 (ground (arith, i.shape.own_second, i.shape.apart 2)),
  ),
  i.shape.below z (sym (i.shape.flags z) ∙ l),
)
  where
    ne : (k : ℕ) → (mem k hs || mem k ls) ≡ false → z ≢ k
    ne k out e = cc (i.shape.flags z, ap (λ (a : ℕ). mem a hs || mem a ls) e)

pub Quiet-Fair :
    (lim : Limits) (w : World) (q : StreamsPool)
    → Quiet w.sp q
    → Sound lim q
    → Fair lim w
    → Fair lim (record { sp = q; users = w.users })
Quiet-Fair lim w q k s f = record {
  sound = s;
  pooled = λ z l. ground (arith, k.dropped z, k.streams z, f.pooled z);
  outside = λ z l. ground (arith, k.dropped z, k.streams z, f.outside z, f.pooled z);
  closed = λ z m. ground (
    arith,
    k.closes z m,
    k.dropped z,
    k.fresh,
    f.closed z,
    f.pooled z,
    listed_known lim w.sp z f.sound,
  );
  known = λ z p. ground (arith, f.known z p, k.fresh);
}

-- A caller gets a stream of a pooled connection.
pub claim-Fair :
    (lim : Limits) (w : World) (c : ℕ) (mid : StreamsPool)
    → (mid.nodes c).in_list ≡ true
    → Sound lim (claim c mid)
    → Fair lim (record { sp = mid; users = w.users })
    → Fair lim (record { sp = claim c mid; users = add_user c w.users })
unfolding claim set_streams drop_idle update add_user
claim-Fair lim w c mid l s f = record {
  sound = s;
  pooled = λ z h. ground (arith, f.pooled z);
  outside = λ z h. ground (arith, f.outside z);
  closed = λ z m. ground (arith, f.closed z);
  known = λ z p. ground (arith, f.known z, listed_known lim (claim c mid) z s);
}

pub open_conn-Fair :
    (lim : Limits) (now : ℕ) (w : World)
    → Fair lim w
    → Fair lim (record { sp = open_conn lim now w.sp; users = add_user w.sp.fresh w.users })
unfolding open_conn allocate admit add_conn_after update add_user
open_conn-Fair lim now w f =
    let sp = w.sp in
    let n = (allocate now sp).nodes in
    record {
      sound = open_conn-Sound lim now sp f.sound;
      pooled = λ z h. ground (
        arith,
        link-streams n sp.fresh head z,
        link-in_list n sp.fresh head z,
        f.pooled z,
        f.known z,
      );
      outside = λ z h. ground (
        arith,
        link-streams n sp.fresh head z,
        link-in_list n sp.fresh head z,
        f.outside z,
        f.known z,
      );
      closed = λ z m. ground (arith, link-in_list n sp.fresh head z, f.closed z);
      known = λ z p. ground (arith, f.known z, f.sound);
    }

pub release-Fair :
    (lim : Limits) (now : ℕ) (failed : Bool) (c : ℕ) (w : World)
    → 0 < w.users c
    → Fair lim w
    → Fair lim (record { sp = release lim now failed c w.sp; users = drop_user c w.users })
unfolding drop_user
release-Fair lim now failed c w p f =
    let held : 0 < (w.sp.nodes c).streams = ground (arith, f.pooled c, f.outside c) in
    let k = release-Released lim now failed c w.sp held (λ out. ground (arith, f.outside c out)) in
    record {
      sound = release-Sound lim now failed c w.sp (f.known c p).0 (f.known c p).1 held f.sound;
      pooled = λ z h. ground (arith, k.others z, k.own, f.pooled z, f.outside z);
      outside = λ z h. ground (arith, k.others z, k.own, f.pooled z, f.outside z);
      closed = λ z m.
          ground
            (arith, k.others z, k.own, k.fresh, f.closed z, f.pooled z, f.outside z, f.known z);
      known = λ z q. ground (arith, f.known z, k.fresh);
    }

-- ===== src/Client/Pool.antt =====
-- grpcclient/pool.go: newPool, getConn, release and Close. Each part of a method between Lock and
-- Unlock is one step on a streams pool; what happens between two parts is other callers' steps.
pub mod Invariant
pub mod Quiet
pub mod Steps
pub mod Acquire
pub mod Release
pub mod Entry
pub mod Released
pub mod Sharing
pub mod Reached
pub mod Choice
pub mod Accounts
pub mod Accounted
use go_vkit.Prelude.{
  ℕ, zero, suc, ◌+◌, ◌-◌, Bool, true, false, ◌&&◌, ◌||◌, not, List, [], ◌∷◌, Option, none, some,
  ltb, leb, ◌==◌, if◌then◌else◌, ℤ, pos, negsuc, Bytes, GoMap, lookup, insert,
}
use go_vkit.Client.Nodes.{
  PoolConn, Nodes, StreamsPool, null, head, busy, update, remove_conn, add_conn_after, close_conn,
  set_streams, drop_idle,
}

-- google.golang.org/grpc/connectivity
pub data ConnState : Type 0 where
  idle connecting ready transient_failure shutdown : ConnState

pub record Limits : Type 0 where
  pub size : ℕ
  pub ttl : ℕ
  pub max_streams : ℕ
  pub max_idle : ℕ

pub record Pool : Type 0 where
  pub limits : Limits
  pub open limits use *
  pub conns : GoMap StreamsPool

positive_or_one : ℤ → ℕ
positive_or_one (pos zero) = 1
positive_or_one (pos (suc n)) = suc n
positive_or_one (negsuc n) = 1

unfoldable pub new_pool : (size ttl : ℕ) (max_idle ms : ℤ) → Pool
unfolding positive_or_one
new_pool size ttl max_idle ms = record {
  limits = record {
    size = size;
    ttl = ttl;
    max_streams = positive_or_one ms;
    max_idle = elim max_idle [ pos n ↦ n | negsuc n ↦ 0 ];
  };
  conns = [];
}

-- `&streamsPool{head: &poolConn{}, busy: &poolConn{}, count: 0, idle: 0}`
abbrev pub no_conn : PoolConn
no_conn = record { streams = 0; created = 0; pre = null; next = null; in_list = false }

unfoldable pub new_streams_pool : StreamsPool
new_streams_pool = record { nodes = λ p. no_conn; count = 0; idle = 0; fresh = 3; closed = [] }

-- What the loop of getConn does at one connection: go on to the next, or return it.
pub data Visit : Type 0 where
  skip : ℕ → StreamsPool → Visit
  take : StreamsPool → Visit

-- The bodies of the tests for an unusable connection: a connection with no stream leaves the list.
unfoldable pub evict : Bool → ℕ → StreamsPool → StreamsPool
evict closes conn sp =
    if (sp.nodes conn).streams == 0
    then drop_idle (if closes then close_conn conn (remove_conn conn sp) else remove_conn conn sp)
    else sp

unfoldable pub to_busy : ℕ → StreamsPool → StreamsPool
to_busy conn sp = add_conn_after conn busy (remove_conn conn sp)

unfoldable pub claim : ℕ → StreamsPool → StreamsPool
claim conn sp =
    let sp' = (if (sp.nodes conn).streams == 0 then drop_idle sp else sp) in
    set_streams conn ((sp.nodes conn).streams + 1) sp'

-- What follows the switch, for a connection that is ready or idle.
unfoldable pub visit_usable : Limits → ℕ → ℕ → StreamsPool → Visit
unfolding evict to_busy claim
visit_usable lim now conn sp =
    let next = (sp.nodes conn).next in
    if ltb ((sp.nodes conn).created + lim.ttl) now
    then skip next (evict true conn sp)
    else if leb lim.max_streams (sp.nodes conn).streams
    then skip next (to_busy conn sp)
    else take (claim conn sp)

unfoldable pub visit : Limits → ℕ → ConnState → ℕ → StreamsPool → Visit
unfolding visit_usable
visit lim now connecting conn sp = skip (sp.nodes conn).next sp
visit lim now shutdown conn sp = skip (sp.nodes conn).next (evict false conn sp)
visit lim now transient_failure conn sp = skip (sp.nodes conn).next (evict true conn sp)
visit lim now ready conn sp = visit_usable lim now conn sp
visit lim now idle conn sp = visit_usable lim now conn sp

pub data Scan : Type 0 where
  found : ℕ → Scan
  exhausted : Scan
  out_of_fuel : Scan

-- The loop of getConn from `conn`; `state` is what GetState answers for each connection.
unfoldable pub scan : Limits → ℕ → (ℕ → ConnState) → ℕ → ℕ → StreamsPool → Scan × StreamsPool
unfolding visit
scan lim now state zero conn sp = (out_of_fuel, sp)
scan lim now state (suc fuel) conn sp = elim (conn == null) [
  | true ↦ (exhausted, sp)
  | false ↦ elim (visit lim now (state conn) conn sp) [
    | skip next sp' ↦ scan lim now state fuel next sp'
    | take sp' ↦ (found conn, sp')
  ]
]

-- The first locked part of getConn, on the streams pool of the address. A round is spent on each
-- connection of the list and one on its end.
unfoldable pub acquire : Limits → ℕ → (ℕ → ConnState) → StreamsPool → Scan × StreamsPool
unfolding scan
acquire lim now state sp = scan lim now state (sp.count + 1) (sp.nodes head).next sp

-- `conn = &poolConn{...}` after a successful Dial, and the second locked part of getConn.
unfoldable pub allocate : ℕ → StreamsPool → StreamsPool
unfolding update
allocate now sp = record sp {
  nodes =
      update sp.nodes sp.fresh
        (record { streams = 1; created = now; pre = null; next = null; in_list = false });
  fresh = suc sp.fresh;
}

unfoldable pub admit : Limits → ℕ → StreamsPool → StreamsPool
admit lim conn sp = if ltb sp.count lim.size then add_conn_after conn head sp else sp

-- A getConn that found no connection, after a Dial that succeeded.
unfoldable pub open_conn : Limits → ℕ → StreamsPool → StreamsPool
unfolding allocate admit
open_conn lim now sp = admit lim sp.fresh (allocate now sp)

-- The last stream of a connection has ended: it is closed, or it stays as an idle one.
unfoldable pub settle : Limits → ℕ → Bool → ℕ → StreamsPool → StreamsPool
settle lim now failed conn sp =
    if failed || (leb lim.max_idle sp.idle || ltb ((sp.nodes conn).created + lim.ttl) now)
    then close_conn conn (remove_conn conn sp)
    else record sp { idle = sp.idle + 1 }

-- A connection at its limit is the first of the list again.
unfoldable pub to_front : Limits → ℕ → StreamsPool → StreamsPool
to_front lim conn sp =
    if leb lim.max_streams (sp.nodes conn).streams
    then add_conn_after conn head (remove_conn conn sp)
    else sp

-- `conn.streams--` follows a stream that was counted, so that `conn.streams` is not 0.
unfoldable pub end_stream : ℕ → StreamsPool → StreamsPool
end_stream conn sp = set_streams conn ((sp.nodes conn).streams - 1) sp

unfoldable pub release_listed : Limits → ℕ → Bool → ℕ → StreamsPool → StreamsPool
unfolding settle to_front end_stream
release_listed lim now failed conn sp =
    let sp' = end_stream conn (to_front lim conn sp) in
    if (sp'.nodes conn).streams == 0 then settle lim now failed conn sp' else sp'

unfoldable pub readmit : Limits → ℕ → StreamsPool → StreamsPool
readmit lim conn sp =
    if not (sp.nodes conn).in_list && ltb sp.count lim.size then add_conn_after conn head sp else sp

-- release; `failed` says that `err` is not nil.
unfoldable pub release : Limits → ℕ → Bool → ℕ → StreamsPool → StreamsPool
unfolding release_listed readmit
release lim now failed conn sp =
    let sp' = readmit lim conn sp in
    if (sp'.nodes conn).in_list then release_listed lim now failed conn sp' else close_conn conn sp'

-- The streams pool of an address, made where there is none.
or_new : Option StreamsPool → StreamsPool
or_new none = new_streams_pool
or_new (some sp) = sp

pub streams_pool : Bytes → Pool → StreamsPool
unfolding or_new
streams_pool addr p = or_new (lookup addr p.conns)

store : Pool → Bytes → StreamsPool → Pool
store p addr sp = record p { conns = insert addr sp p.conns }

-- getConn with no other caller between its two parts; `dials` says that Dial succeeds, at `later`.
pub get_conn : Pool → Bytes → ℕ → (ℕ → ConnState) → Bool → ℕ → Option ℕ × Pool
unfolding streams_pool store
get_conn p addr now state dials later =
    let (r, sp) = acquire p.limits now state (streams_pool addr p) in
    elim r [
      | found conn ↦ (some conn, store p addr sp)
      | exhausted ↦
          if dials
          then (some sp.fresh, store p addr (open_conn p.limits later sp))
          else (none, store p addr sp)
      | out_of_fuel ↦ (none, p)
    ]

-- The method release of the pool; a connection knows the streams pool of its address.
pub pool_release : Pool → Bytes → ℕ → Bool → ℕ → Pool
unfolding streams_pool store
pool_release p addr conn failed now =
    store p addr (release p.limits now failed conn (streams_pool addr p))

-- Close; no code sets `conn.err`.
pub close : Pool → Bytes → ℕ → ℕ → Pool
close p addr conn now = pool_release p addr conn false now

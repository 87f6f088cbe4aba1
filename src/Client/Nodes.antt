-- ===== src/Client/Nodes.antt =====
-- grpcclient/pool.go, the structs streamsPool and poolConn, removeConn and addConnAfter. A pointer is a number, `nil` is 0, and the nodes of one streams pool are a heap of their own, since
-- no pointer leads from one streams pool to another. The clock is an argument, in seconds.
pub mod Chains
pub mod Shape
use go_vkit.Prelude.{
  ℕ, zero, suc, ◌+◌, ◌-◌, Bool, true, false, List, [], ◌∷◌, Option, none, some, ltb, leb, ◌==◌,
  if◌then◌else◌, ℤ, pos, negsuc, Bytes, GoMap, lookup, insert,
}

pub record PoolConn : Type 0 where
  pub streams : ℕ
  pub created : ℕ
  pub pre : ℕ
  pub next : ℕ
  pub in_list : Bool

-- The memory of a streams pool.
abbrev pub Nodes : Type 0
Nodes = ℕ → PoolConn

abbrev pub null : ℕ
null = 0

-- The sentinels that `head` and `busy` point to.
abbrev pub head : ℕ
head = 1

abbrev pub busy : ℕ
busy = 2

-- `closed` logs the connections whose ClientConn was closed, the latest first; `fresh` is the next
-- address that an allocation returns.
pub record StreamsPool : Type 0 where
  pub nodes : Nodes
  pub count : ℕ
  pub idle : ℕ
  pub fresh : ℕ
  pub closed : List ℕ

unfoldable pub update : Nodes → ℕ → PoolConn → Nodes
update nodes p c = λ q. if q == p then c else nodes q

unfoldable pub unlink_pre : ℕ → Nodes → Nodes
unfolding update
unlink_pre conn nodes =
    if (nodes conn).pre == null
    then nodes
    else update nodes (nodes conn).pre
        (record (nodes (nodes conn).pre) { next = (nodes conn).next })

unfoldable pub unlink_next : ℕ → Nodes → Nodes
unfolding update
unlink_next conn nodes =
    if (nodes conn).next == null
    then nodes
    else update nodes (nodes conn).next
        (record (nodes (nodes conn).next) { pre = (nodes conn).pre })

unfoldable pub detach : ℕ → Nodes → Nodes
unfolding update
detach conn nodes =
    update nodes conn (record (nodes conn) { pre = null; next = null; in_list = false })

-- The pointer writes of removeConn, and removeConn.
unfoldable pub unlink : ℕ → Nodes → Nodes
unfolding unlink_pre unlink_next detach
unlink conn nodes = detach conn (unlink_next conn (unlink_pre conn nodes))

unfoldable pub remove_conn : ℕ → StreamsPool → StreamsPool
remove_conn conn sp = record sp { nodes = unlink conn sp.nodes; count = sp.count - 1 }

unfoldable pub attach : ℕ → ℕ → Nodes → Nodes
unfolding update
attach conn after nodes =
    update nodes conn
      (record (nodes conn) { next = (nodes after).next; pre = after; in_list = true })

unfoldable pub link_next : ℕ → ℕ → Nodes → Nodes
unfolding update
link_next conn after nodes =
    if (nodes after).next == null
    then nodes
    else update nodes (nodes after).next (record (nodes (nodes after).next) { pre = conn })

unfoldable pub link_after : ℕ → ℕ → Nodes → Nodes
unfolding update
link_after conn after nodes = update nodes after (record (nodes after) { next = conn })

-- The pointer writes of addConnAfter, and addConnAfter.
unfoldable pub link : ℕ → ℕ → Nodes → Nodes
unfolding attach link_next link_after
link conn after nodes = link_after conn after (link_next conn after (attach conn after nodes))

unfoldable pub add_conn_after : ℕ → ℕ → StreamsPool → StreamsPool
add_conn_after conn after sp = record sp { nodes = link conn after sp.nodes; count = sp.count + 1 }

-- `conn.ClientConn.Close()`
unfoldable pub close_conn : ℕ → StreamsPool → StreamsPool
close_conn conn sp = record sp { closed = conn ∷ sp.closed }

unfoldable pub set_streams : ℕ → ℕ → StreamsPool → StreamsPool
unfolding update
set_streams conn n sp = record sp {
  nodes = update sp.nodes conn (record (sp.nodes conn) { streams = n });
}

-- `sp.idle--` stands where a connection of the list has no stream, so that `sp.idle` is not 0.
unfoldable pub drop_idle : StreamsPool → StreamsPool
drop_idle sp = record sp { idle = sp.idle - 1 }

-- ===== src/Client/Custom.antt =====
-- NewClient of grpcclient/client.go: a client of one address, with its pool and its options.
use go_vkit.Prelude.{ℕ, ◌≤◌, List, arith, Bytes, pos}
use go_vkit.Client.Pool.{Pool, new_pool}
use go_vkit.Client.Pool.Sharing.{World, Reach}
use go_vkit.Client.Pool.Reached.{Reach-capped}
use go_vkit.Client.Registry.{Options, ClientOption, new_options}

pub record CustomClient : Type 0 where
  pub pool : Pool
  pub addr : Bytes
  pub opts : Options

-- The default size, time to live in seconds, idle connections and streams of a connection.
pub new_client : Bytes → List ClientOption → CustomClient
new_client addr opts = record {
  pool = new_pool 100 60 (pos 50) (pos 20);
  addr = addr;
  opts = new_options opts;
}

-- A client that NewClient makes, with any options: whatever its callers do and in whatever order, it pools at
-- most 100 connections, of which at most 50 are idle, and no connection has more than 20 holders.
pub new_client-capped :
    (addr : Bytes) (opts : List ClientOption) (w : World) (z : ℕ)
    → Reach (new_client addr opts).pool.limits w
    → (w.sp.count ≤ 100) × (w.sp.idle ≤ 50) × (w.users z ≤ 20)
unfolding new_client new_pool
new_client-capped addr opts w z r =
    Reach-capped (new_pool 100 60 (pos 50) (pos 20)).limits w z (omega arith) r

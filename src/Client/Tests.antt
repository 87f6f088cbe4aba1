-- ===== src/Client/Tests.antt =====
-- Runs of the client's parts at concrete inputs.
use go_vkit.Prelude.{
  ◌≡◌, ◌≢◌, ◌≤◌, ◌+◌, refl, true, false, List, [], ◌∷◌, Option, none, some, arith, codes, Bytes,
  pos, lookup, All,
}
use go_vkit.Client.Nodes.{
  StreamsPool, head, busy, update, link, remove_conn, add_conn_after, set_streams, close_conn,
}
use go_vkit.Client.Nodes.Chains.{mem}
use go_vkit.Client.Nodes.Shape.{Shape, remove_conn-Shape}
use go_vkit.Client.Pool.{
  Limits, ready, shutdown, out_of_fuel, new_streams_pool, acquire, scan, visit, visit_usable, evict,
  allocate, open_conn, release,
}
use go_vkit.Client.Pool.Invariant.{Inv, new_streams_pool-Inv}
use go_vkit.Client.Pool.Acquire.{Usable}
use go_vkit.Client.Pool.Entry.{enter-Inv, allocate-Inv}
use go_vkit.Client.Pool.Choice.{acquire_ends, acquire-found, acquire-exhausted}
use go_vkit.Client.Pool.Sharing.{World, add_user, drop_user, Reach, start, next, opens, releases}
use go_vkit.Client.Pool.Reached.{Reach-capped, Reach-open}
use go_vkit.Client.Pool.Accounted.{Accounted, Reach-Accounted}
use go_vkit.Strings.Laws.{Lacks}
use go_vkit.Errors.{whole}
use go_vkit.Codec.{json}
use go_vkit.Server.Headers.{time_limit}
use go_vkit.Client.Invoke.{Sent, Texts, answered, after, invoke, prepare, timeout_key}
use go_vkit.Client.Invoke.Passed.{invoke-passed, prepare-time_limit}
use go_vkit.Client.Stream.{Call, recvs, closes, calls, new_stream}
use go_vkit.Client.Stream.Released.{calls-unreported}

abbrev limits : Limits
limits = record { size = 1; ttl = 60; max_streams = 2; max_idle = 1 }

-- A caller opened a connection, at address 3.
abbrev opened : World
opened = record { sp = open_conn limits 5 new_streams_pool; users = add_user 3 (λ z. 0) }

opened-Reach : Reach limits opened
unfolding new_streams_pool
opened-Reach = next start (opens 5 refl)

Reach-open_example : mem 3 opened.sp.closed ≡ false
unfolding add_user
Reach-open_example = Reach-open limits opened 3 (omega arith) opened-Reach (omega arith)

Reach-capped_example : (opened.sp.count ≤ 1) × (opened.sp.idle ≤ 1) × (opened.users 3 ≤ 2)
Reach-capped_example = Reach-capped limits opened 3 (omega arith) opened-Reach

-- The caller's stream ended with an error that counts.
abbrev broken : World
broken = record { sp = release limits 6 true 3 opened.sp; users = drop_user 3 opened.users }

broken-Reach : Reach limits broken
unfolding add_user
broken-Reach = next opened-Reach (releases 6 true 3 (omega arith) refl)

Reach-Accounted_example : Accounted broken 3
unfolding release broken-Reach opened-Reach open_conn add_conn_after link set_streams close_conn
    remove_conn
Reach-Accounted_example =
    Reach-Accounted limits broken 3 (omega arith) broken-Reach ((tt, λ e. e), λ e. e) (omega arith)
      (omega arith)

-- A streams pool with connection 3, which carries one stream.
abbrev shared : StreamsPool
shared = add_conn_after 3 head (allocate 5 new_streams_pool)

shared-Inv : Inv limits shared (3 ∷ []) []
unfolding allocate new_streams_pool update
shared-Inv =
    enter-Inv limits (allocate 5 new_streams_pool) [] [] 3
      (allocate-Inv limits 5 new_streams_pool [] [] (new_streams_pool-Inv limits (omega arith)))
      refl (omega arith) (omega arith) (omega arith) (omega arith)

acquire_ends_example : (acquire limits 9 (λ z. ready) shared).0 ≢ out_of_fuel
acquire_ends_example = acquire_ends limits 9 (λ z. ready) shared (3 ∷ []) [] shared-Inv

acquire-found_example :
    (mem 3 (3 ∷ []) ≡ true)
    × Usable limits 9 ready (shared.nodes 3)
    × (((acquire limits 9 (λ z. ready) shared).1.nodes 3).streams ≡ (shared.nodes 3).streams + 1)
unfolding acquire scan visit visit_usable add_conn_after allocate new_streams_pool update link
acquire-found_example =
    acquire-found limits 9 (λ z. ready) shared (acquire limits 9 (λ z. ready) shared).1 (3 ∷ []) []
      3 3 shared-Inv refl

acquire-exhausted_example : ¬ (Usable limits 9 shutdown (shared.nodes 3))
unfolding acquire scan visit visit_usable evict add_conn_after allocate new_streams_pool update link
acquire-exhausted_example =
    acquire-exhausted limits 9 (λ z. shutdown) shared (acquire limits 9 (λ z. shutdown) shared).1
      (3 ∷ []) [] 3 shared-Inv refl refl

remove_conn-Shape_example : Shape head busy (remove_conn 3 shared) [] []
remove_conn-Shape_example = remove_conn-Shape head busy shared [] 3 [] [] shared-Inv.shape

-- A server that answers with an error of code 7, whose JSON text is abridged here.
abbrev texts : Texts
texts = record {
  sprintf = λ b. b;
  runes = λ b. b;
  of_runes = λ r. r;
  unmarshal = λ b. whole (record { code = pos 7; status = 503; msg = codes "m" });
  json = λ e. [];
}

abbrev sent : Sent
sent = record { path = []; header = []; codec = some json; limit = pos 5 }

invoke-passed_example :
    invoke texts sent none (answered (some (codes "rpc error: desc = {\"code\":7}")))
    ≡ after
        (some (record { code = pos 7; status = 503; msg = codes "m" }))
        (some (record { code = pos 7; status = 503; msg = codes "m" }))
        true
invoke-passed_example =
    invoke-passed texts sent json (record { code = pos 7; status = 503; msg = codes "m" })
      (codes "rpc error: desc = ") (codes "code\":7}") refl lacks (omega arith) refl refl
  where
    lacks : Lacks b'{' (codes "rpc error: desc = ")
    lacks = ground arith

prepare-time_limit_example :
    (t : Bytes) × (lookup timeout_key
        (prepare
          (λ b. none)
          (λ z. z)
          (pos 20)
          none
          (some (pos 5))
          (codes "svc")
          (codes "Foo.Bar")).header
      ≡ some t)
    × (time_limit t ≡ some (pos 5))
unfolding prepare
prepare-time_limit_example =
    prepare-time_limit (λ b. none) (λ z. z) (pos 20) none (some (pos 5)) (codes "svc")
      (codes "Foo.Bar") 5 refl (omega arith)

-- A stream on which a Recv fails before it is closed.
abbrev stream_calls : List (Call Bytes)
stream_calls = recvs none none ∷ recvs (some (codes "broken")) none ∷ closes none ∷ []

calls-unreported_example :
    ((calls (λ (e : Bytes). false) stream_calls new_stream).err ≡ none)
    × All
        (λ (e : Option Bytes). e ≡ none)
        (calls (λ (e : Bytes). false) stream_calls new_stream).released
calls-unreported_example = calls-unreported (λ (e : Bytes). false) stream_calls (tt, (tt, (tt, tt)))

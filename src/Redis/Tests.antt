-- ===== src/Redis/Tests.antt =====
-- A run of the client at a concrete server.
use go_vkit.Prelude.{
  ◌≡◌, refl, ap, [], ◌∷◌, Option, none, some, arith, codes, Bytes, bytes_eq_iff, Result, ok, err,
  pos, inr, GoMap, lookup, insert, lookup-insert,
}
use go_vkit.Redis.{RedisKey, Commands, get_full_key, get_json, set_json}
use go_vkit.Redis.Kept.{Holds, get_json-set_json}

abbrev or_missing : Option Bytes → Result Bytes
or_missing none = err (codes "redis: nil")
or_missing (some v) = ok v

-- A server that keeps a map of texts, and nothing else.
abbrev server : Commands (GoMap Bytes) Bytes
server = record {
  ping = λ s. none;
  text = λ v. v;
  set = λ k v t s. (insert k v s, none);
  del = λ k s. (s, some (codes "unknown command"));
  get = λ k s. or_missing (lookup k s);
  get_set = λ k v s. (s, err (codes "unknown command"));
  incr_by = λ k n s. (s, err (codes "unknown command"));
  hget = λ k h s. err (codes "unknown command");
  hget_all = λ k s. err (codes "unknown command");
  hset = λ k h v s. (s, some (codes "unknown command"));
  hincr_by = λ k h n s. (s, some (codes "unknown command"));
  expire = λ k t s. s;
}

server-Holds : Holds server
server-Holds = record {
  same = λ k v t s u e.
      rw (← ap (λ p. p.0) e, lookup-insert k k v s) (ground (arith, bytes_eq_iff k k));
  other = λ k j v t s u e n.
      rw (← ap (λ p. p.0) e, lookup-insert k j v s) (ground (arith, bytes_eq_iff k j, n));
}

abbrev user : RedisKey
user = record { code = codes "user"; expire = pos 0 }

abbrev after_set : GoMap Bytes
after_set = (codes "user:7", codes "ann") ∷ []

set_user : set_json server user (codes "7") (λ v. ok v) (codes "ann") [] ≡ (after_set, none)
unfolding set_json get_full_key insert
set_user = refl

get_json-set_json_example :
    (get_json server user (codes "7") (λ b. ok b) after_set ≡ ok (codes "ann"))
    × (get_json server user (codes "8") (λ b. ok b) after_set
        ≡ get_json server user (codes "8") (λ b. ok b) [])
get_json-set_json_example =
    get_json-set_json server (λ v. ok v) (λ b. ok b) user user (codes "7") (codes "8") (codes "ann")
      [] after_set server-Holds (λ w b e. ground arith)
      (ground arith, (ground arith, (ground arith, (ground arith, tt))))
      (ground arith, (ground arith, (ground arith, (ground arith, tt)))) (inr (ground arith))
      set_user

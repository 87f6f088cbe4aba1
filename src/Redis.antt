-- ===== src/Redis.antt =====
-- redisx/redisx.go over the library's client: `S` is the state of the server, `V` the values of a command.
pub mod Kept
mod Tests
use go_vkit.Prelude.{
  Bool, true, false, List, [], ◌∷◌, ◌++◌, Option, none, some, codes, Bytes, if◌then◌else◌, ℤ, pos,
  ltb_ℤ, GoMap, Result, ok, err,
}
use go_vkit.Routes.{is_empty}

pub record RedisKey : Type 0 where
  pub code : Bytes
  pub expire : ℤ

-- The commands of the library's client; the error of a command is its text. A text is a value too.
pub record Commands {ℓ} (S V : Type ℓ) : Type ℓ where
  pub ping : S → Option Bytes
  pub text : Bytes → V
  pub set : Bytes → V → ℤ → S → S × Option Bytes
  pub del : Bytes → S → S × Option Bytes
  pub get : Bytes → S → Result Bytes
  pub get_set : Bytes → Bytes → S → S × Result Bytes
  pub incr_by : Bytes → ℤ → S → S × Result ℤ
  pub hget : Bytes → Bytes → S → Result Bytes
  pub hget_all : Bytes → S → Result (GoMap Bytes)
  pub hset : Bytes → Bytes → V → S → S × Option Bytes
  pub hincr_by : Bytes → Bytes → ℤ → S → S × Option Bytes
  pub expire : Bytes → ℤ → S → S

pub get_full_key : RedisKey → Bytes → Bytes
get_full_key key sub = if is_empty sub then key.code else (key.code ++ codes ":") ++ sub

-- NewClient: the error, if there is one.
pub new_client {ℓ} : {S V : Type ℓ} → Commands S V → Bytes → S → Option Bytes
new_client commands addr s = if is_empty addr then some (codes "pamar error") else commands.ping s

module _ {ℓ} {S V : Type ℓ} (commands : Commands S V) (key : RedisKey) (sub : Bytes) where
  pub set_value : V → S → S × Option Bytes
  unfolding get_full_key
  set_value value = commands.set (get_full_key key sub) value key.expire

  pub del : S → S × Option Bytes
  unfolding get_full_key
  del = commands.del (get_full_key key sub)

  pub get_string : S → Result Bytes
  unfolding get_full_key
  get_string = commands.get (get_full_key key sub)

  pub get_set : Bytes → S → S × Result Bytes
  unfolding get_full_key
  get_set value = commands.get_set (get_full_key key sub) value

  pub incr_by : ℤ → S → S × Result ℤ
  unfolding get_full_key
  incr_by value = commands.incr_by (get_full_key key sub) value

  pub get_hash_all_json : S → Result (GoMap Bytes)
  unfolding get_full_key
  get_hash_all_json = commands.hget_all (get_full_key key sub)

  -- After an HSet or an HIncrBy: the time to live, if the key has one.
  renewed : S × Option Bytes → S × Option Bytes
  unfolding get_full_key
  renewed (s, some e) = (s, some e)
  renewed (s, none) = (
    if ltb_ℤ (pos 0) key.expire then commands.expire (get_full_key key sub) key.expire s else s,
    none,
  )

  pub hincr_by : Bytes → ℤ → S → S × Option Bytes
  unfolding get_full_key renewed
  hincr_by hash incr s = renewed (commands.hincr_by (get_full_key key sub) hash incr s)

  -- The conversions of a StringCmd to a number.
  module _ (parse_int : Bytes → Result ℤ) where
    number : Result Bytes → Result ℤ
    number (err e) = err e
    number (ok s) = parse_int s

    pub get_int64 : S → Result ℤ
    unfolding get_full_key number
    get_int64 s = number (commands.get (get_full_key key sub) s)

    -- GetInt reads the key without `sub`.
    get_int : S → Result ℤ
    unfolding number
    get_int s = number (commands.get key.code s)

  -- Marshal and Unmarshal of encoding/json for the values `J`.
  -- Marshal and Unmarshal of encoding/json for the values `J` are parameters.
  pub get_json {κ} : {J : Type κ} → (unmarshal : Bytes → Result J) → S → Result J
  unfolding get_full_key
  get_json unmarshal s = elim (commands.get (get_full_key key sub) s) [
    | err e ↦ err e
    | ok text ↦ unmarshal text
  ]

  pub get_hash_json {κ} : {J : Type κ} → (unmarshal : Bytes → Result J) → Bytes → S → Result J
  unfolding get_full_key
  get_hash_json unmarshal hash s = elim (commands.hget (get_full_key key sub) hash s) [
    | err e ↦ err e
    | ok text ↦ unmarshal text
  ]

  pub set_json {κ} : {J : Type κ} → (marshal : J → Result Bytes) → J → S → S × Option Bytes
  unfolding get_full_key
  set_json marshal value s = elim (marshal value) [
    | err e ↦ (s, some e)
    | ok bytes ↦ commands.set (get_full_key key sub) (commands.text bytes) key.expire s
  ]

  pub set_hash_json {κ} :
      {J : Type κ} → (marshal : J → Result Bytes) → (hash : Bytes) → J → S → S × Option Bytes
  unfolding get_full_key renewed
  set_hash_json marshal hash value s = elim (marshal value) [
    | err e ↦ (s, some e)
    | ok bytes ↦ renewed (commands.hset (get_full_key key sub) hash (commands.text bytes) s)
  ]

-- ===== src/Redis/Kept.antt =====
-- What the server holds after a value is set.
use go_vkit.Prelude.{
  ℕ, ◌≡◌, ◌≢◌, refl, sym, ap, ◌∙◌, [], ◌∷◌, ◌++◌, append_assoc, Option, none, some, arith, codes,
  Bytes, ◌⊎◌, inl, inr, Result, ok, err, ℤ,
}
use go_vkit.Strings.Laws.{Lacks}
use go_vkit.Redis.{RedisKey, Commands, get_full_key, get_json, set_json}

-- Get and Set as the server documents them: a text that was set is what the key holds, and no other key changes.
pub record Holds {ℓ} {S V : Type ℓ} (commands : Commands S V) : Type ℓ where
  pub same :
      (k v : Bytes) (t : ℤ) (s s' : S)
      → commands.set k (commands.text v) t s ≡ (s', none)
      → commands.get k s' ≡ ok v
  pub other :
      (k j v : Bytes) (t : ℤ) (s s' : S)
      → commands.set k (commands.text v) t s ≡ (s', none)
      → k ≢ j
      → commands.get j s' ≡ commands.get j s

with_sub :
    (key : RedisKey) (c : ℕ) (sub : Bytes)
    → get_full_key key (c ∷ sub) ≡ key.code ++ (b':' ∷ c ∷ sub)
unfolding get_full_key
with_sub key c sub = append_assoc key.code (codes ":") (c ∷ sub)

-- A text before the first separator is read back.
cut :
    (a b : Bytes)
    → Lacks b':' a
    → Lacks b':' b
    → (s t : Bytes) → a ++ (b':' ∷ s) ≡ b ++ (b':' ∷ t)
    → (a ≡ b) × (s ≡ t)
cut [] [] la lb s t h = (refl, ap tail h)
  where
    tail : Bytes → Bytes
    tail [] = []
    tail (x ∷ xs) = xs
cut [] (y ∷ b) la (n, lb) s t h = absurd (ground arith)
cut (x ∷ a) [] (n, la) lb s t h = absurd (ground arith)
cut (x ∷ a) (y ∷ b) (n, la) (m, lb) s t h = ground (arith, cut a b la lb s t)

Lacks-none : (a b s : Bytes) → Lacks b':' a → a ≢ b ++ (b':' ∷ s)
Lacks-none [] [] s la h = ground arith
Lacks-none [] (y ∷ b) s la h = ground arith
Lacks-none (x ∷ a) [] s (n, la) h = ground arith
Lacks-none (x ∷ a) (y ∷ b) s (n, la) h = Lacks-none a b s la (ground arith)

-- Two keys whose codes have no colon are one key only if the codes and the parts behind them are the same.
get_full_key-injective :
    (key other : RedisKey) (sub part : Bytes)
    → Lacks b':' key.code
    → Lacks b':' other.code
    → get_full_key key sub ≡ get_full_key other part
    → (key.code ≡ other.code) × (sub ≡ part)
unfolding get_full_key
get_full_key-injective key other [] [] lk lo h = (h, refl)
get_full_key-injective key other [] (d ∷ part) lk lo h =
    absurd (Lacks-none key.code other.code (d ∷ part) lk (h ∙ with_sub other d part))
get_full_key-injective key other (c ∷ sub) [] lk lo h =
    absurd (Lacks-none other.code key.code (c ∷ sub) lo (sym h ∙ with_sub key c sub))
get_full_key-injective key other (c ∷ sub) (d ∷ part) lk lo h =
    cut key.code other.code lk lo (c ∷ sub) (d ∷ part)
      (sym (with_sub key c sub) ∙ h ∙ with_sub other d part)

set_json-marshal {ℓ κ} :
    {S V : Type ℓ} {J : Type κ} (commands : Commands S V) (marshal : J → Result Bytes)
    (key : RedisKey) (sub : Bytes) (v : J) (s t : S)
    → set_json commands key sub marshal v s ≡ (t, none)
    → (b : Bytes) × (marshal v ≡ ok b)
      × (commands.set (get_full_key key sub) (commands.text b) key.expire s ≡ (t, none))
unfolding set_json
set_json-marshal commands marshal key sub v s t h = go (marshal v) refl
  where
    some_not_none : (e : Bytes) → ◌≢◌ {A = Option Bytes} (some e) none
    some_not_none e q = cc

    go :
        (r : Result Bytes)
        → marshal v ≡ r
        → (b : Bytes) × (marshal v ≡ ok b)
          × (commands.set (get_full_key key sub) (commands.text b) key.expire s ≡ (t, none))
    go (err e) q = absurd (some_not_none e (ap (λ p. p.1) (rw (q, set_json) at h)))
    go (ok b) q = (b, q, rw (q, set_json) at h)

-- Where the server does what it documents and Unmarshal reads what Marshal writes: after a SetJson that
-- returned no error, GetJson with that key returns the value, and with another code or another part behind it,
-- the codes having no colon, what it returned before.
pub get_json-set_json {ℓ κ} :
    {S V : Type ℓ} {J : Type κ} (commands : Commands S V) (marshal : J → Result Bytes)
    (unmarshal : Bytes → Result J) (key other : RedisKey) (sub part : Bytes) (v : J) (s t : S)
    → Holds commands
    → ((w : J) (b : Bytes) → marshal w ≡ ok b → unmarshal b ≡ ok w)
    → Lacks b':' key.code
    → Lacks b':' other.code
    → (key.code ≢ other.code) ⊎ (sub ≢ part)
    → set_json commands key sub marshal v s ≡ (t, none)
    → (get_json commands key sub unmarshal t ≡ ok v)
      × (get_json commands other part unmarshal t ≡ get_json commands other part unmarshal s)
unfolding get_json
get_json-set_json commands marshal unmarshal key other sub part v s t holds reads lk lo differ h =
    let (b, written, done) = set_json-marshal commands marshal key sub v s t h in
    (
      rw (holds.same (get_full_key key sub) b key.expire s t done, get_json) (reads v b written),
      rw (
        holds.other (get_full_key key sub) (get_full_key other part) b key.expire s t done
            (apart differ),
        get_json,
      ),
    )
  where
    apart : (key.code ≢ other.code) ⊎ (sub ≢ part) → get_full_key key sub ≢ get_full_key other part
    apart (inl n) e = n (get_full_key-injective key other sub part lk lo e).0
    apart (inr n) e = n (get_full_key-injective key other sub part lk lo e).1

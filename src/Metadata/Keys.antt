-- ===== src/Metadata/Keys.antt =====
-- What a key holds in any case, through FromContext.
use go_vkit.Prelude.{
  ◌≡◌, refl, inl, inr, Bool, true, false, ◌||◌, [], ◌∷◌, some, arith, Bytes, bytes_eq, bytes_eq_iff,
  insert, All, Bool-cases, sym, ◌∙◌,
}
use go_vkit.Strings.{to_lower, title}
use go_vkit.Strings.Laws.{to_lower-title}
use go_vkit.Metadata.{Metadata, Context, new_context, title_into, from_value, from_context}

module _ (j : Bytes) where
  -- Some key is `j` in lower case.
  unfoldable pub has : Metadata → Bool
  has [] = false
  has ((k, v) ∷ md) = bytes_eq (to_lower k) j || has md

  module _ (v : Bytes) where
    -- Every key that is `j` in lower case has the value `v`.
    abbrev pub Holds : Metadata → Type 0
    Holds = All (λ e. to_lower e.0 ≡ j → e.1 ≡ v)

    pub insert-Holds :
        (k w : Bytes) (md : Metadata) → (to_lower k ≡ j → w ≡ v) → Holds md → Holds (insert k w md)
    unfolding insert
    insert-Holds k w [] h a = (h, tt)
    insert-Holds k w ((i, x) ∷ md) h (hx, a) = elim (Bool-cases (bytes_eq i k)) [
      | inl e ↦ rw (e) (h, a)
      | inr e ↦ rw (e) (hx, insert-Holds k w md h a)
    ]

    title_into-Holds : (md acc : Metadata) → Holds md → Holds acc → Holds (title_into md acc)
    unfolding title_into
    title_into-Holds [] acc h a = a
    title_into-Holds ((k, w) ∷ md) acc (hk, h) a =
        title_into-Holds md _ h
          (insert-Holds (title k) w acc (λ e. hk (sym (to_lower-title k) ∙ e)) a)

  pub insert-has :
      (k w : Bytes) (md : Metadata) → has (insert k w md) ≡ (bytes_eq (to_lower k) j || has md)
  unfolding has insert
  insert-has k w [] = refl
  insert-has k w ((i, x) ∷ md) = ground (arith, bytes_eq_iff i k, insert-has k w md)

  title_into-has : (md acc : Metadata) → has (title_into md acc) ≡ (has md || has acc)
  unfolding title_into has
  title_into-has [] acc = refl
  title_into-has ((k, w) ∷ md) acc = ground (
    arith,
    title_into-has md (insert (title k) w acc),
    insert-has (title k) w acc,
    to_lower-title k,
  )

  -- A reader of the context finds metadata with the same value under the key, in any case.
  pub from_context-Holds :
      (v : Bytes) (ctx : Context) (md : Metadata)
      → Holds v md
      → has md ≡ true
      → (new : Metadata) × (from_context (new_context ctx md) ≡ some new)
        × Holds v new
        × (has new ≡ true)
  unfolding from_context from_value new_context has
  from_context-Holds v ctx md h e =
      (title_into md [], refl, title_into-Holds v md [] h tt, ground (arith, title_into-has md []))

-- ===== src/Mongo/Sort/Printed.antt =====
-- A sort order that is written as field names is read as it was meant.
use go_vkit.Prelude.{
  ◌≡◌, ◌≢◌, refl, ap, ◌∙◌, List, [], ◌∷◌, ◌++◌, append_assoc, append-nil, map, some, arith, codes,
  Bytes, bytes_eq, pos, negsuc, All,
}
use go_vkit.Strings.{index, has_prefix, shift}
use go_vkit.Mongo.Sort.{
  by, meta, Entry, split_kind, kind_of, signed, entry_of, entry_signed, sort_field, sort_into, sort,
}

-- A field with a sign, a field without one, and one for the text score.
pub data Key : Type 0 where
  up down plain score : Bytes → Key

pub print : Key → Bytes
print (up f) = b'+' ∷ f
print (down f) = b'-' ∷ f
print (plain f) = f
print (score f) = codes "$textScore:" ++ f

pub meant : Key → Entry
meant (up f) = record { key = f; value = by (pos 1) }
meant (down f) = record { key = f; value = by (negsuc 0) }
meant (plain f) = record { key = f; value = by (pos 1) }
meant (score f) = record { key = f; value = meta (codes "textScore") }

-- A name that can stand without a sign.
abbrev Unsigned : Bytes → Type 0
Unsigned [] = ⊥
Unsigned (c ∷ f) = (c ≢ b'+') × (c ≢ b'-')

abbrev pub Clear : Key → Type 0
Clear (up f) = f ≢ []
Clear (down f) = f ≢ []
Clear (plain []) = ⊥
Clear (plain (c ∷ f)) = (c ≢ b'+') × (c ≢ b'-') × (c ≢ b'$')
Clear (score []) = ⊥
Clear (score (c ∷ f)) = (c ≢ b'+') × (c ≢ b'-')

score_kind : (f : Bytes) → f ≢ [] → kind_of (codes "$textScore:" ++ f) ≡ (codes "textScore", f)
unfolding kind_of split_kind index has_prefix shift
score_kind [] h = absurd (h refl)
score_kind (c ∷ f) h = ground arith

sort_field-print : (k : Key) → Clear k → sort_field (print k) ≡ some (meant k)
unfolding sort_field kind_of signed entry_signed entry_of print meant bytes_eq
sort_field-print (up []) h = absurd (h refl)
sort_field-print (up (c ∷ f)) h = refl
sort_field-print (down []) h = absurd (h refl)
sort_field-print (down (c ∷ f)) h = refl
sort_field-print (plain []) h = absurd h
sort_field-print (plain (c ∷ f)) (p, q, r) = ground arith
sort_field-print (score []) h = absurd h
sort_field-print (score (c ∷ f)) (p, q) = ground (arith, score_kind (c ∷ f))

sort_into-print :
    (ks : List Key) (order : List Entry)
    → All Clear ks
    → sort_into (map print ks) order ≡ some (order ++ map meant ks)
unfolding sort_into
sort_into-print [] order h = rw (append-nil order)
sort_into-print (k ∷ ks) order (h, hs) =
    rw (sort_into, sort_field-print k h)
      (sort_into-print ks (order ++ (meant k ∷ [])) hs
        ∙ ap some (append_assoc order (meant k ∷ []) (map meant ks)))

-- A list of keys with names that are not empty, those without a sign beginning with none of + - $ and those
-- of a text score with none of + -, is sorted by as it was written, in its order, with no panic.
pub sort-print : (ks : List Key) → All Clear ks → sort (map print ks) ≡ some (map meant ks)
unfolding sort
sort-print ks h = sort_into-print ks [] h

-- ===== src/Metadata/Titles.antt =====
-- The maps that FromContext builds: distinct keys, each its own title.
use go_vkit.Prelude.{
  ◌≡◌, refl, [], ◌∷◌, Option, none, some, arith, Bytes, bytes_eq_iff, lookup, insert, erase, All,
  lookup-insert, Distinct, lookup-erase,
}
use go_vkit.Strings.{title}
use go_vkit.Strings.Laws.{title_idem}
use go_vkit.Metadata.{Metadata, title_into}

-- `o`, or else `p`.
abbrev pub or_else : Option Bytes → Option Bytes → Option Bytes
or_else (some v) p = some v
or_else none p = p

abbrev pub Titled : Metadata → Type 0
Titled = All (λ e. title e.0 ≡ e.0)

pub insert-Distinct : (k v : Bytes) (md : Metadata) → Distinct md → Distinct (insert k v md)
unfolding insert lookup
insert-Distinct k v [] d = (refl, tt)
insert-Distinct k v ((j, w) ∷ md) d =
    ground (
      arith,
      bytes_eq_iff j k,
      bytes_eq_iff k j,
      insert-Distinct k v md d.1,
      lookup-insert k j v md,
    )

pub insert-Titled : (k v : Bytes) (md : Metadata) → title k ≡ k → Titled md → Titled (insert k v md)
unfolding insert
insert-Titled k v [] e t = (e, tt)
insert-Titled k v ((j, w) ∷ md) e t = ground (arith, insert-Titled k v md e t.1)

pub erase-Distinct : (k : Bytes) (md : Metadata) → Distinct md → Distinct (erase k md)
unfolding erase lookup
erase-Distinct k [] d = tt
erase-Distinct k ((j, w) ∷ md) d =
    ground (arith, bytes_eq_iff j k, bytes_eq_iff k j, erase-Distinct k md d.1, lookup-erase k j md)

pub erase-Titled : (k : Bytes) (md : Metadata) → Titled md → Titled (erase k md)
unfolding erase
erase-Titled k [] t = tt
erase-Titled k ((j, w) ∷ md) t = ground (arith, erase-Titled k md t.1)

pub title_into-Distinct : (md acc : Metadata) → Distinct acc → Distinct (title_into md acc)
unfolding title_into
title_into-Distinct [] acc d = d
title_into-Distinct ((k, v) ∷ md) acc d =
    title_into-Distinct md _ (insert-Distinct (title k) v acc d)

pub title_into-Titled : (md acc : Metadata) → Titled acc → Titled (title_into md acc)
unfolding title_into
title_into-Titled [] acc t = t
title_into-Titled ((k, v) ∷ md) acc t =
    title_into-Titled md _ (insert-Titled (title k) v acc (title_idem k) t)

-- On a map with distinct titles for keys, the walk keeps every entry.
pub lookup-title_into :
    (md acc : Metadata) (j : Bytes)
    → Distinct md
    → Titled md
    → lookup j (title_into md acc) ≡ or_else (lookup j md) (lookup j acc)
unfolding title_into lookup
lookup-title_into [] acc j d t = refl
lookup-title_into ((k, v) ∷ md) acc j d t = rw t.0 (
    ground (
      arith,
      lookup-title_into md (insert k v acc) j d.1 t.1,
      lookup-insert k j v acc,
      bytes_eq_iff k j,
    ))

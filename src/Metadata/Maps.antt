-- ===== src/Metadata/Maps.antt =====
-- MergeContext on maps as Go has them, with no order: lists of entries up to what is under each key.
use go_vkit.Prelude.{
  ◌≡◌, refl, sym, ◌∙◌, ap, Bool, true, false, [], ◌∷◌, Option, none, some, arith, Bytes, lookup,
  Distinct,
}
use mathlib.Core.Quot
use mathlib.Core.Quot.{Quot, Quot-set}
use go_vkit.Metadata.{
  Metadata, copy_into, merge_entry, merge_into, merge_context, or_make, or_background,
}
use go_vkit.Metadata.Titles.{insert-Distinct, erase-Distinct}
use go_vkit.Metadata.Merge.{merged, lookup-merge_context}

copy_into-Distinct : (md acc : Metadata) → Distinct acc → Distinct (copy_into md acc)
unfolding copy_into
copy_into-Distinct [] acc d = d
copy_into-Distinct ((k, v) ∷ md) acc d = copy_into-Distinct md _ (insert-Distinct k v acc d)

merge_entry-Distinct :
    (overwrite : Bool) (k v : Bytes) (cmd : Metadata)
    → Distinct cmd
    → Distinct (merge_entry overwrite k v cmd)
unfolding merge_entry
merge_entry-Distinct overwrite k v cmd d =
    ground (arith, insert-Distinct k v cmd d, erase-Distinct k cmd d)

merge_into-Distinct :
    (overwrite : Bool) (patch cmd : Metadata)
    → Distinct cmd
    → Distinct (merge_into overwrite patch cmd)
unfolding merge_into
merge_into-Distinct overwrite [] cmd d = d
merge_into-Distinct overwrite ((k, v) ∷ patch) cmd d =
    merge_into-Distinct overwrite patch _ (merge_entry-Distinct overwrite k v cmd d)

-- The entries of a map, in one of the orders of a visit.
abbrev pub Entries : Type 0
Entries = (md : Metadata) × Distinct md

abbrev pub SameMap : Entries → Entries → Type 0
SameMap a b = (k : Bytes) → lookup k a.0 ≡ lookup k b.0

abbrev pub Map : Type 0
Map = Quot SameMap

merge_visited : Bool → Entries → Entries → Entries
unfolding merge_context or_make or_background
merge_visited overwrite (patch, p) (existing, d) = (
  or_make (merge_context (some (record { value = some existing })) patch overwrite).value,
  merge_into-Distinct overwrite patch _ (copy_into-Distinct existing [] tt),
)

lookup-merge_visited :
    (overwrite : Bool) (p c : Entries) (k : Bytes)
    → lookup k (merge_visited overwrite p c).0 ≡ merged overwrite (lookup k p.0) (lookup k c.0)
unfolding merge_visited or_make or_background
lookup-merge_visited overwrite (patch, p) (existing, d) k =
    lookup-merge_context (some (record { value = some existing })) patch overwrite k p d

-- What is under a key.
pub get : Bytes → Map → Option Bytes
get k = Quot.lift (hlevel) (λ e. lookup k e.0) (λ a b h. h k)

visited-SameMap :
    (overwrite : Bool) (p q a b : Entries)
    → SameMap p q
    → SameMap a b
    → SameMap (merge_visited overwrite p a) (merge_visited overwrite q b)
visited-SameMap overwrite p q a b h g k =
    lookup-merge_visited overwrite p a k
    ∙ (ap (λ v. merged overwrite v (lookup k a.0)) (h k)
        ∙ (ap (merged overwrite (lookup k q.0)) (g k) ∙ sym (lookup-merge_visited overwrite q b k)))

merge_patch : Bool → Entries → Map → Map
merge_patch overwrite p =
    Quot.lift Quot-set (λ c. Quot.mk (merge_visited overwrite p c))
      (λ a b h. Quot.sound (visited-SameMap overwrite p p a b (λ k. refl) h))

-- MergeContext of maps: the orders in which the two are visited make no difference.
pub merge : Bool → Map → Map → Map
unfolding merge_patch
merge overwrite patch c =
    Quot.lift Quot-set (λ p. merge_patch overwrite p c)
      (λ p q h.
        Quot.ind {β = λ c. merge_patch overwrite p c ≡ merge_patch overwrite q c}
          (λ c. Quot-set _ _) (λ a. Quot.sound (visited-SameMap overwrite p q a a h (λ k. refl))) c)
      patch

-- As Go maps, with no order of their entries: after MergeContext each key holds what `merged` says of what the
-- patch and the existing metadata have under it.
pub get-merge :
    (overwrite : Bool) (patch existing : Map) (k : Bytes)
    → get k (merge overwrite patch existing) ≡ merged overwrite (get k patch) (get k existing)
unfolding merge merge_patch get
get-merge overwrite patch existing k =
    Quot.ind
      {β = λ p. get k (merge overwrite p existing) ≡ merged overwrite (get k p) (get k existing)}
      (λ p. hlevel)
      (λ p.
        Quot.ind
          {β = λ c. get k (merge_patch overwrite p c) ≡ merged overwrite (lookup k p.0) (get k c)}
          (λ c. hlevel) (λ c. lookup-merge_visited overwrite p c k) existing)
      patch

merged_idem :
    (overwrite : Bool) (new old : Option Bytes)
    → merged overwrite new (merged overwrite new old) ≡ merged overwrite new old
merged_idem overwrite none old = refl
merged_idem true (some []) none = refl
merged_idem true (some (c ∷ v)) none = refl
merged_idem false (some []) none = refl
merged_idem false (some (c ∷ v)) none = refl
merged_idem true (some []) (some w) = refl
merged_idem true (some (c ∷ v)) (some w) = refl
merged_idem false (some v) (some w) = refl

visited_idem :
    (overwrite : Bool) (p c : Entries)
    → SameMap
        (merge_visited overwrite p (merge_visited overwrite p c))
        (merge_visited overwrite p c)
visited_idem overwrite p c k =
    lookup-merge_visited overwrite p (merge_visited overwrite p c) k
    ∙ (ap (merged overwrite (lookup k p.0)) (lookup-merge_visited overwrite p c k)
        ∙ (merged_idem overwrite (lookup k p.0) (lookup k c.0)
            ∙ sym (lookup-merge_visited overwrite p c k)))

-- As Go maps, with no order of their entries: to merge a patch into metadata for a second time changes nothing, whether it
-- overwrites or not.
pub merge_idem :
    (overwrite : Bool) (patch existing : Map)
    → merge overwrite patch (merge overwrite patch existing) ≡ merge overwrite patch existing
unfolding merge merge_patch
merge_idem overwrite patch existing =
    Quot.ind {β = λ p. merge overwrite p (merge overwrite p existing) ≡ merge overwrite p existing}
      (λ p. Quot-set _ _)
      (λ p.
        Quot.ind
          {β = λ c. merge_patch overwrite p (merge_patch overwrite p c) ≡ merge_patch overwrite p c}
          (λ c. Quot-set _ _) (λ c. Quot.sound (visited_idem overwrite p c)) existing)
      patch

-- ===== src/Metadata/Merge.antt =====
-- What MergeContext promises of each key.
use go_vkit.Prelude.{
  ◌≡◌, refl, ap, ◌∙◌, Bool, ◌&&◌, not, [], ◌∷◌, Option, none, some, arith, if◌then◌else◌, is_some,
  Bytes, bytes_eq, bytes_eq_iff, lookup, insert, lookup-insert, lookup-erase, Distinct,
}
use go_vkit.Metadata.{
  Metadata, Context, is_empty, copy_into, copy, merge_entry, merge_into, merge_context, or_make,
  or_background,
}
use go_vkit.Metadata.Titles.{or_else}

lookup-copy_into :
    (md acc : Metadata) (j : Bytes)
    → Distinct md
    → lookup j (copy_into md acc) ≡ or_else (lookup j md) (lookup j acc)
unfolding copy_into lookup
lookup-copy_into [] acc j d = refl
lookup-copy_into ((k, v) ∷ md) acc j d =
    ground
      (arith, lookup-copy_into md (insert k v acc) j d.1, lookup-insert k j v acc, bytes_eq_iff k j)

-- A copy of a map has the same value under every key.
pub lookup-copy : (md : Metadata) (j : Bytes) → Distinct md → lookup j (copy md) ≡ lookup j md
unfolding copy lookup
lookup-copy md j d = ground (arith, lookup-copy_into md [] j d)

-- What is under a key after the merge, from what the patch and the existing metadata have there: the
-- patch yields to what exists unless it overwrites, and an empty value deletes.
abbrev pub merged : Bool → Option Bytes → Option Bytes → Option Bytes
merged overwrite none old = old
merged overwrite (some v) old =
    if is_some old && not overwrite then old else if is_empty v then none else some v

lookup-merge_entry :
    (overwrite : Bool) (k v j : Bytes) (cmd : Metadata)
    → lookup j (merge_entry overwrite k v cmd)
      ≡ (if bytes_eq k j then merged overwrite (some v) (lookup j cmd) else lookup j cmd)
unfolding merge_entry
lookup-merge_entry overwrite k v j cmd =
    ground (arith, lookup-insert k j v cmd, lookup-erase k j cmd, bytes_eq_iff k j)

lookup-merge_into :
    (overwrite : Bool) (patch cmd : Metadata) (j : Bytes)
    → Distinct patch
    → lookup j (merge_into overwrite patch cmd) ≡ merged overwrite (lookup j patch) (lookup j cmd)
unfolding merge_into lookup
lookup-merge_into overwrite [] cmd j d = refl
lookup-merge_into overwrite ((k, v) ∷ patch) cmd j d = ground (
  arith,
  lookup-merge_into overwrite patch (merge_entry overwrite k v cmd) j d.1,
  lookup-merge_entry overwrite k v j cmd,
  bytes_eq_iff k j,
)

-- After MergeContext of maps with distinct keys, each key holds what `merged` says, in whatever order Go visits the two maps. A nil
-- context counts as one with no metadata.
pub lookup-merge_context :
    (ctx : Option Context) (patch : Metadata) (overwrite : Bool) (j : Bytes)
    → Distinct patch
    → Distinct (or_make (or_background ctx).value)
    → lookup j (or_make (merge_context ctx patch overwrite).value)
      ≡ merged overwrite (lookup j patch) (lookup j (or_make (or_background ctx).value))
unfolding merge_context or_make copy
lookup-merge_context ctx patch overwrite j d e =
    let md = or_make (or_background ctx).value in
    lookup-merge_into overwrite patch (copy md) j d
    ∙ ap (merged overwrite (lookup j patch)) (lookup-copy md j e)

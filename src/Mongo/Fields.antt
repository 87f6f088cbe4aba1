-- ===== src/Mongo/Fields.antt =====
-- struct2BsonM of mongox/internal.go, over what package reflect says of its argument.
pub mod Written
use go_vkit.Prelude.{
  ℕ, zero, suc, ◌-◌, Bool, true, false, List, [], ◌∷◌, ◌++◌, Option, none, some, codes, Bytes,
  bytes_eq, if◌then◌else◌, length, GoMap, insert,
}
use go_vkit.Strings.{to_lower, has_prefix}
use go_vkit.Routes.{is_empty}

-- A field of a struct: whether its name is exported, the `bson` key of its tag, its name and its value.
pub record Field {ℓ} (V : Type ℓ) : Type ℓ where
  pub exported : Bool
  pub tag : Bytes
  pub name : Bytes
  pub value : V

-- An argument: a struct or a pointer to one, a nil pointer, or anything else.
pub data Object {ℓ} (V : Type ℓ) : Type ℓ where
  nil_pointer : Object V
  not_struct : Object V
  struct : List (Field V) → Object V

-- strings.Replace(s, old, "", -1); the number counts the bytes of an occurrence that are still to go.
unfoldable pub remove_from : Bytes → ℕ → Bytes → Bytes
remove_from old n [] = []
remove_from old (suc n) (c ∷ s) = remove_from old n s
remove_from old zero (c ∷ s) = elim (has_prefix (c ∷ s) old) [
  | true ↦ remove_from old (length old - 1) s
  | false ↦ c ∷ remove_from old zero s
]

unfoldable pub remove_all : Bytes → Bytes → Bytes
unfolding remove_from
remove_all old s = remove_from old 0 s

unfoldable pub field_name {ℓ} : {V : Type ℓ} → Field V → Bytes
unfolding remove_all
field_name f =
    let name = remove_all (codes ",omitempty") f.tag in
    if is_empty name then to_lower f.name else name

abbrev pub always_ignored : List Bytes
always_ignored = codes "_id" ∷ codes "created_on" ∷ codes "created_at" ∷ codes "tenant_id" ∷ []

module _ {ℓ} {V : Type ℓ} where
  -- The loop over `ignoreField` for one name, before `data[name] = ...`: its `continue` goes on to the next
  -- round of this loop.
  skip_ignored : List Bytes → Bytes → GoMap V → GoMap V
  skip_ignored [] name data_map = data_map
  skip_ignored (v ∷ vs) name data_map =
      let rest = skip_ignored vs name data_map in if bytes_eq v name then rest else rest

  -- The loop over the fields, `none` for a panic: Interface panics on a field that is not exported.
  fill : List Bytes → List (Field V) → GoMap V → Option (GoMap V)
  unfolding skip_ignored field_name
  fill ignore [] data_map = some data_map
  fill ignore (f ∷ fs) data_map =
      let name = field_name f in
      let rest = fill ignore fs (insert name f.value (skip_ignored ignore name data_map)) in
      if f.exported then rest else none

  pub struct_to_bson_m : Object V → (ignore_field : List Bytes) → Option (GoMap V)
  unfolding fill
  struct_to_bson_m nil_pointer ignore_field = none
  struct_to_bson_m not_struct ignore_field = none
  struct_to_bson_m (struct fs) ignore_field = fill (ignore_field ++ always_ignored) fs []

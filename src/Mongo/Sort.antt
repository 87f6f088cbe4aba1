-- ===== src/Mongo/Sort.antt =====
-- The function sort of mongox/internal.go: field names with a direction become a sort order.
pub mod Printed
use go_vkit.Prelude.{
  ℕ, suc, ◌+◌, Bool, true, false, ◌&&◌, List, [], ◌∷◌, ◌++◌, Option, none, some, codes, Bytes,
  bytes_eq, ltb, ◌==◌, if◌then◌else◌, ℤ, pos, negsuc, length, take, drop,
}
use go_vkit.Strings.{index}
use go_vkit.Routes.{is_empty}

-- The value of an entry of the order: 1, -1, or a document with the key `$meta`.
pub data Direction : Type 0 where
  by : ℤ → Direction
  meta : Bytes → Direction

pub record Entry : Type 0 where
  pub key : Bytes
  pub value : Direction

-- `if c := strings.Index(field, ":"); c > 1 && c < len(field)-1`, with the kind and the rest of the field.
split_kind : Option ℕ → Bytes → Bytes × Bytes
split_kind none field = ([], field)
split_kind (some c) field =
    if ltb 1 c && ltb (c + 1) (length field)
    then (drop 1 (take c field), drop (c + 1) field)
    else ([], field)

kind_of : Bytes → Bytes × Bytes
unfolding split_kind
kind_of [] = ([], [])
kind_of (c ∷ field) =
    if c == b'$' then split_kind (index (c ∷ field) (codes ":")) (c ∷ field) else ([], c ∷ field)

-- The switch on `field[0]`; `none` is the panic of an index into an empty field.
signed : Bytes → Option (ℤ × Bytes)
signed [] = none
signed (c ∷ field) =
    if c == b'+'
    then some (pos 1, field)
    else if c == b'-'
    then some (negsuc 0, field)
    else some (pos 1, c ∷ field)

entry_of : Bytes → ℤ × Bytes → Option Entry
entry_of kind (n, field) =
    if is_empty field
    then none
    else if bytes_eq kind (codes "textScore")
    then some (record { key = field; value = meta kind })
    else some (record { key = field; value = by n })

entry_signed : Bytes → Option (ℤ × Bytes) → Option Entry
unfolding entry_of
entry_signed kind none = none
entry_signed kind (some p) = entry_of kind p

-- One round of the loop, `none` for a panic. An empty field goes straight to the test for one.
sort_field : Bytes → Option Entry
unfolding kind_of signed entry_signed
sort_field [] = none
sort_field (c ∷ cs) = let (kind, field) = kind_of (c ∷ cs) in entry_signed kind (signed field)

sort_into : List Bytes → List Entry → Option (List Entry)
unfolding sort_field
sort_into [] order = some order
sort_into (f ∷ fs) order = elim (sort_field f) [
  | none ↦ none
  | some e ↦ sort_into fs (order ++ (e ∷ []))
]

pub sort : List Bytes → Option (List Entry)
unfolding sort_into
sort fields = sort_into fields []

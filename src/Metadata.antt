-- ===== src/Metadata.antt =====
-- metadata/metadata.go: request headers in a context. A map is its entries in the order in which a
-- `range` visits them; Go takes any order, so each is an input of the functions here.
pub mod Titles
pub mod Laws
pub mod Merge
pub mod Maps
pub mod Keys
mod Tests
use go_vkit.Prelude.{
  ◌≡◌, refl, Bool, true, false, ◌&&◌, not, List, [], ◌∷◌, Option, none, some, if◌then◌else◌,
  is_some, Bytes, GoMap, lookup, insert, erase,
}
use go_vkit.Strings.{title}

abbrev pub Metadata : Type 0
Metadata = GoMap Bytes

-- What a context holds under `metadataKey{}`.
pub record Context : Type 0 where
  pub value : Option Metadata

abbrev pub background : Context
background = record { value = none }

abbrev pub is_empty : Bytes → Bool
is_empty [] = true
is_empty (c ∷ s) = false

-- `val, ok := md[key]`, and if there is none, `md[strings.Title(key)]`.
pub or_title : Option Bytes → Metadata → Bytes → Option Bytes
or_title (some v) md key = some v
or_title none md key = lookup (title key) md

pub get_field : Metadata → Bytes → Option Bytes
unfolding or_title
get_field md key = or_title (lookup key md) md key

pub set_field : Metadata → Bytes → Bytes → Metadata
set_field md key val = insert key val md

pub delete_field : Metadata → Bytes → Metadata
delete_field md key = erase (title key) (erase key md)

-- The loop of Copy.
copy_into : Metadata → Metadata → Metadata
copy_into [] cmd = cmd
copy_into ((k, v) ∷ md) cmd = copy_into md (insert k v cmd)

pub copy : Metadata → Metadata
unfolding copy_into
copy md = copy_into md []

-- The loop of FromContext.
pub title_into : Metadata → Metadata → Metadata
title_into [] new_md = new_md
title_into ((k, v) ∷ md) new_md = title_into md (insert (title k) v new_md)

pub from_value : Option Metadata → Option Metadata
unfolding title_into
from_value none = none
from_value (some md) = some (title_into md [])

pub from_context : Context → Option Metadata
unfolding from_value
from_context ctx = from_value ctx.value

pub new_context : Context → Metadata → Context
new_context ctx md = record ctx { value = some md }

-- `if !ok { md = make(Metadata) }`
pub or_make : Option Metadata → Metadata
or_make none = []
or_make (some md) = md

pub set : Context → Bytes → Bytes → Context
unfolding or_make
set ctx k v =
    let md = or_make (from_context ctx) in
    record ctx { value = some (if is_empty v then erase k md else insert k v md) }

pub delete : Context → Bytes → Context
unfolding set
delete ctx k = set ctx k []

get_found : Option Metadata → Bytes → Option Bytes
unfolding get_field
get_found none key = none
get_found (some md) key = get_field md key

pub get : Context → Bytes → Option Bytes
unfolding get_found
get ctx key = get_found (from_context ctx) key

-- One round of the second loop of MergeContext.
pub merge_entry : Bool → Bytes → Bytes → Metadata → Metadata
merge_entry overwrite k v cmd =
    if is_some (lookup k cmd) && not overwrite
    then cmd
    else if not (is_empty v)
    then insert k v cmd
    else erase k cmd

pub merge_into : Bool → Metadata → Metadata → Metadata
unfolding merge_entry
merge_into overwrite [] cmd = cmd
merge_into overwrite ((k, v) ∷ patch) cmd =
    merge_into overwrite patch (merge_entry overwrite k v cmd)

-- A nil `ctx` becomes the background context.
pub or_background : Option Context → Context
or_background none = background
or_background (some ctx) = ctx

pub merge_context : Option Context → Metadata → Bool → Context
unfolding copy_into or_make merge_into or_background
merge_context ctx patch overwrite =
    let base = or_background ctx in
    record base { value = some (merge_into overwrite patch (copy_into (or_make base.value) [])) }

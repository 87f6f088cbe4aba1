-- ===== src/Metadata/Laws.antt =====
-- What Set, Delete and Get promise on a context, through the titles that FromContext makes.
use go_vkit.Prelude.{
  ◌≡◌, refl, ◌≢◌, false, [], ◌∷◌, Option, none, some, arith, if◌then◌else◌, Bytes, bytes_eq,
  bytes_eq_iff, bytes_eq_refl, lookup, insert, erase, lookup-insert, lookup-erase, Distinct,
}
use go_vkit.Strings.{title}
use go_vkit.Strings.Laws.{title_idem}
use go_vkit.Metadata.{
  Metadata, Context, is_empty, or_title, get_field, title_into, from_value, from_context, or_make,
  set, delete, get, get_found,
}
use go_vkit.Metadata.Titles.{
  or_else, Titled, insert-Distinct, insert-Titled, erase-Distinct, erase-Titled,
  title_into-Distinct, title_into-Titled, lookup-title_into,
}

-- What a caller of FromContext reads, `none` also where the context has no metadata.
unfoldable pub read : Context → Bytes → Option Bytes
unfolding or_make
read ctx j = lookup j (or_make (from_context ctx))

from_context-Distinct : (ctx : Context) → Distinct (or_make (from_context ctx))
unfolding from_context or_make
from_context-Distinct ctx = go ctx.value
  where
    go : (o : Option Metadata) → Distinct (or_make (from_value o))
    go none = tt
    go (some md) = title_into-Distinct md [] tt

from_context-Titled : (ctx : Context) → Titled (or_make (from_context ctx))
unfolding from_context or_make
from_context-Titled ctx = go ctx.value
  where
    go : (o : Option Metadata) → Titled (or_make (from_value o))
    go none = tt
    go (some md) = title_into-Titled md [] tt

-- A key that is no title is not found among titled keys.
lookup_of_Titled : (j : Bytes) (md : Metadata) → Titled md → title j ≢ j → lookup j md ≡ none
unfolding lookup
lookup_of_Titled j [] t h = refl
lookup_of_Titled j ((k, v) ∷ md) t h = ground (arith, bytes_eq_iff k j, lookup_of_Titled j md t.1 h)

or_else-none : (o : Option Bytes) → or_else o none ≡ o
or_else-none none = refl
or_else-none (some v) = refl

-- A second walk changes nothing.
title_into_again :
    (md : Metadata) (j : Bytes)
    → Distinct md
    → Titled md
    → lookup j (title_into md []) ≡ lookup j md
unfolding lookup
title_into_again md j d t = rw (lookup-title_into md [] j d t) (or_else-none (lookup j md))

-- Set under a key that is its own title, then FromContext: that key has the value (or none, if the
-- value is empty), and every other key is as before.
pub read-set :
    (ctx : Context) (k v j : Bytes)
    → title k ≡ k
    → read (set ctx k v) j
      ≡ (if bytes_eq k j then (if is_empty v then none else some v) else read ctx j)
unfolding read set from_context from_value or_make
read-set ctx k v j e =
    let md = or_make (from_context ctx) in
    let d = from_context-Distinct ctx in
    let t = from_context-Titled ctx in
    ground (
      arith,
      title_into_again (erase k md) j (erase-Distinct k md d) (erase-Titled k md t),
      title_into_again (insert k v md) j (insert-Distinct k v md d) (insert-Titled k v md e t),
      lookup-erase k j md,
      lookup-insert k j v md,
    )

-- Get after Set, under a key that is its own title, with a value that is not empty.
pub get-set :
    (ctx : Context) (k v : Bytes) → title k ≡ k → is_empty v ≡ false → get (set ctx k v) k ≡ some v
unfolding get read get_field or_title lookup
get-set ctx k v e h =
    ground (arith, go (from_context (set ctx k v)), read-set ctx k v k e, bytes_eq_refl k)
  where
    go : (o : Option Metadata) → lookup k (or_make o) ≡ some v → get_found o k ≡ some v
    go none q = q
    go (some md) q = rw q

-- Delete under a key that is not its own title deletes nothing: FromContext reads every key as before.
pub read-delete_untitled :
    (ctx : Context) (k j : Bytes) → title k ≢ k → read (delete ctx k) j ≡ read ctx j
unfolding read delete set from_context from_value or_make
read-delete_untitled ctx k j h =
    let md = or_make (from_context ctx) in
    let d = from_context-Distinct ctx in
    let t = from_context-Titled ctx in
    ground (
      arith,
      title_into_again (erase k md) j (erase-Distinct k md d) (erase-Titled k md t),
      lookup-erase k j md,
      lookup_of_Titled j md t,
      bytes_eq_iff k j,
    )

-- Set of a value that is not empty, under a key that is not its own title, leaves an entry under the title in
-- place: the map that the new context holds has both, with the old value and the new one.
pub set_untitled_keeps :
    (ctx : Context) (k v w : Bytes)
    → title k ≢ k
    → is_empty w ≡ false
    → read ctx (title k) ≡ some v
    → (lookup (title k) (or_make (set ctx k w).value) ≡ some v)
      × (lookup k (or_make (set ctx k w).value) ≡ some w)
unfolding read set or_make
set_untitled_keeps ctx k v w h e q =
    let md = or_make (from_context ctx) in
    ground (
      arith,
      lookup-insert k (title k) w md,
      lookup-insert k k w md,
      bytes_eq_refl k,
      bytes_eq_iff k (title k),
    )

-- Where a context holds a key and its title, the order in which Go visits the map decides which of the two
-- values FromContext gives.
pub title_into_collision :
    (k v w : Bytes)
    → title k ≢ k
    → (read (record { value = some ((title k, v) ∷ (k, w) ∷ []) }) (title k) ≡ some w)
      × (read (record { value = some ((k, w) ∷ (title k, v) ∷ []) }) (title k) ≡ some v)
unfolding read from_context from_value or_make title_into lookup insert
title_into_collision k v w h = ground (
  arith,
  title_idem k,
  bytes_eq_iff (title k) (title k),
  bytes_eq_iff (title k) (title (title k)),
  bytes_eq_iff (title (title k)) (title k),
  bytes_eq_iff (title (title k)) (title (title k)),
)

-- ===== src/Strings.antt =====
-- The functions of Go's package strings that the program calls, on the bytes of ASCII text.
pub mod Laws
pub mod Decimal
use go_vkit.Prelude.{
  ℕ, zero, suc, ◌+◌, ◌-◌, Bool, true, false, ◌&&◌, ◌||◌, List, [], ◌∷◌, ◌++◌, map, Option, none,
  some, leb, ◌==◌, if◌then◌else◌, Bytes,
}

pub is_lower : ℕ → Bool
is_lower c = leb b'a' c && leb c b'z'

pub is_upper : ℕ → Bool
is_upper c = leb b'A' c && leb c b'Z'

unfoldable pub byte_upper : ℕ → ℕ
unfolding is_lower
byte_upper c = if is_lower c then c - 32 else c

unfoldable pub byte_lower : ℕ → ℕ
unfolding is_upper
byte_lower c = if is_upper c then c + 32 else c

-- ToUpper and ToLower
unfoldable pub to_upper : Bytes → Bytes
unfolding byte_upper
to_upper = map byte_upper

unfoldable pub to_lower : Bytes → Bytes
unfolding byte_lower
to_lower = map byte_lower

-- In ASCII text every byte but a letter, a digit and `_` separates words.
unfoldable pub is_separator : ℕ → Bool
is_separator c =
    if (leb b'0' c && leb c b'9')
      || (leb b'a' c && leb c b'z')
      || (leb b'A' c && leb c b'Z')
      || c == b'_'
    then false
    else true

-- The walk of Title; the first argument is the previous byte.
unfoldable pub title_from : ℕ → Bytes → Bytes
unfolding byte_upper is_separator
title_from prev [] = []
title_from prev (c ∷ s) = (if is_separator prev then byte_upper c else c) ∷ title_from c s

-- Title
unfoldable pub title : Bytes → Bytes
unfolding title_from
title s = title_from b' ' s

unfoldable pub cons_head : ℕ → List Bytes → List Bytes
cons_head c [] = (c ∷ []) ∷ []
cons_head c (p ∷ ps) = (c ∷ p) ∷ ps

-- Split(s, sep) for a separator of one byte
unfoldable pub split : Bytes → ℕ → List Bytes
unfolding cons_head
split [] sep = [] ∷ []
split (c ∷ s) sep = if c == sep then [] ∷ split s sep else cons_head c (split s sep)

-- Join
unfoldable pub join : List Bytes → Bytes → Bytes
join [] sep = []
join (p ∷ []) sep = p
join (p ∷ q ∷ ps) sep = p ++ (sep ++ join (q ∷ ps) sep)

unfoldable pub has_prefix : Bytes → Bytes → Bool
has_prefix s [] = true
has_prefix [] (p ∷ ps) = false
has_prefix (c ∷ s) (p ∷ ps) = (c == p) && has_prefix s ps

unfoldable pub shift : Option ℕ → Option ℕ
shift none = none
shift (some n) = some (suc n)

-- Index(s, sub), with `none` for -1
unfoldable pub index : Bytes → Bytes → Option ℕ
unfolding has_prefix shift
index [] sub = if has_prefix [] sub then some 0 else none
index (c ∷ s) sub = if has_prefix (c ∷ s) sub then some 0 else shift (index s sub)

-- Contains
unfoldable pub contains : Bytes → Bytes → Bool
unfolding index
contains s sub = elim (index s sub) [ none ↦ false | some i ↦ true ]

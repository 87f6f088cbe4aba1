-- ===== src/Strings/Decimal.antt =====
-- Decimal numbers: the verb %d for a number that is not negative, and strconv.ParseUint(s, 10, 64).
use go_vkit.Prelude.{
  ℤ, pos, negsuc, ℕ, zero, suc, ◌+◌, ◌-◌, ◌*◌, ◌<◌, ◌≡◌, refl, ◌≢◌, ◌∙◌, ap, Bool, true, false,
  ◌&&◌, [], ◌∷◌, ◌++◌, Option, none, some, arith, leb, ltb, if◌then◌else◌, Bytes, inl, inr,
  Bool-cases,
}
use Prim.Native.Nat.{◌/◌, ◌%◌}
use mathlib.Core.List.{cons-ne-nil, concat-ne-nil}
use native.Mathlib.Numerals.{add-one}

-- The digits, on fuel; `n + 1` rounds are enough.
format_from : ℕ → ℕ → Bytes
format_from zero n = []
format_from (suc f) n =
    let rest = format_from f (n / 10) in
    if ltb n 10 then (b'0' + n) ∷ [] else rest ++ (b'0' + n % 10) ∷ []

unfoldable pub format_uint : ℕ → Bytes
unfolding format_from
format_uint n = format_from (n + 1) n

-- The verb %d of a signed integer.
unfoldable pub format_int : ℤ → Bytes
unfolding format_uint
format_int (pos n) = format_uint n
format_int (negsuc n) = b'-' ∷ format_uint (suc n)

is_digit : ℕ → Bool
is_digit c = leb b'0' c && leb c b'9'

parse_from : Bytes → ℕ → Option ℕ
unfolding is_digit
parse_from [] acc = some acc
parse_from (c ∷ s) acc = elim (is_digit c) [
  | true ↦ parse_from s (acc * 10 + (c - b'0'))
  | false ↦ none
]

in_range : Option ℕ → Option ℕ
in_range none = none
in_range (some n) = if ltb n 18446744073709551616 then some n else none

-- `none` is an error, of syntax or of range.
unfoldable pub parse_uint : Bytes → Option ℕ
unfolding parse_from in_range
parse_uint [] = none
parse_uint (c ∷ s) = in_range (parse_from (c ∷ s) 0)

last_digit : ℕ → Option ℕ → Option ℕ
last_digit d none = none
last_digit d (some v) = some (v * 10 + d)

parse_from-concat :
    (s : Bytes) (d acc : ℕ)
    → d < 10
    → parse_from (s ++ (b'0' + d) ∷ []) acc ≡ last_digit d (parse_from s acc)
unfolding parse_from last_digit
parse_from-concat [] d acc h = ground arith
parse_from-concat (c ∷ s) d acc h = ground (arith, parse_from-concat s d (acc * 10 + (c - b'0')) h)

last_digit_zero : (n : ℕ) → last_digit n (parse_from [] 0) ≡ some n
unfolding last_digit parse_from
last_digit_zero n = ap some (omega arith)

last_digit_div : (n : ℕ) → last_digit (n % 10) (some (n / 10)) ≡ some n
unfolding last_digit
last_digit_div n = ap some (omega arith)

format_from-ne-nil : (f n : ℕ) → format_from (suc f) n ≢ []
unfolding format_from
format_from-ne-nil f n = elim (Bool-cases (ltb n 10)) [
  | inl small ↦ rw small (cons-ne-nil _ _)
  | inr large ↦ rw large (concat-ne-nil _ _)
]

parse_uint_of_ne_nil : (s : Bytes) → s ≢ [] → parse_uint s ≡ in_range (parse_from s 0)
unfolding parse_uint
parse_uint_of_ne_nil [] h = absurd (h refl)
parse_uint_of_ne_nil (c ∷ s) h = refl

parse_from-format_from : (f n : ℕ) → n < f → parse_from (format_from f n) 0 ≡ some n
unfolding format_from
parse_from-format_from zero n h = absurd (omega arith)
parse_from-format_from (suc f) n h = elim (Bool-cases (ltb n 10)) [
  | inl small ↦ rw small (parse_from-concat [] n 0 (ground arith) ∙ last_digit_zero n)
  | inr large ↦ rw large (
      parse_from-concat (format_from f (n / 10)) (n % 10) 0 (omega arith)
      ∙ (ap (last_digit (n % 10)) (parse_from-format_from f (n / 10) (ground arith))
          ∙ last_digit_div n))
]

-- Every number of 64 bits is read back from its digits.
pub parse_uint-format_uint :
    (n : ℕ) → n < 18446744073709551616 → parse_uint (format_uint n) ≡ some n
unfolding format_uint in_range
parse_uint-format_uint n h =
    rw (add-one n, parse_uint_of_ne_nil (format_from (suc n) n) (format_from-ne-nil n n))
      (rw (parse_from-format_from (suc n) n (omega arith)) (ground arith))

pub format_uint-ne-nil : (n : ℕ) → format_uint n ≢ []
unfolding format_uint
format_uint-ne-nil n = rw (add-one n) (format_from-ne-nil n n)

-- ===== src/Strings/Laws.antt =====
-- Laws of the string functions.
use go_vkit.Prelude.{
  ◌≢◌, All, Bool-cases, inl, inr, List, ◌++◌, ◌==◌, ℕ, ◌≡◌, refl, [], ◌∷◌, arith, if◌then◌else◌,
  Bytes,
}
use go_vkit.Strings.{
  is_upper, is_lower, byte_lower, to_lower, byte_upper, is_separator, title_from, title, split,
  cons_head,
}

title_byte_idem :
    (prev c : ℕ)
    → let d = (if is_separator prev then byte_upper c else c) in
      (if is_separator prev then byte_upper d else d) ≡ d
unfolding byte_upper is_separator
title_byte_idem prev c = ground arith

separator_title_byte :
    (prev c : ℕ) → is_separator (if is_separator prev then byte_upper c else c) ≡ is_separator c
unfolding byte_upper is_separator
separator_title_byte prev c = ground arith

title_from_congr :
    (p q : ℕ) (s : Bytes) → is_separator p ≡ is_separator q → title_from p s ≡ title_from q s
unfolding title_from
title_from_congr p q [] h = refl
title_from_congr p q (c ∷ s) h = rw h refl

title_from_idem : (p : ℕ) (s : Bytes) → title_from p (title_from p s) ≡ title_from p s
unfolding title_from
title_from_idem p [] = refl
title_from_idem p (c ∷ s) = cc (
  title_byte_idem p c,
  title_from_congr (if is_separator p then byte_upper c else c) c (title_from c s)
      (separator_title_byte p c),
  title_from_idem c s,
)

-- Title of a title is that title.
pub title_idem : (s : Bytes) → title (title s) ≡ title s
unfolding title
title_idem s = title_from_idem b' ' s

byte_lower_title :
    (p c : ℕ) → byte_lower (if is_separator p then byte_upper c else c) ≡ byte_lower c
unfolding byte_lower byte_upper is_separator is_upper is_lower
byte_lower_title p c = ground arith

to_lower-title_from : (p : ℕ) (s : Bytes) → to_lower (title_from p s) ≡ to_lower s
unfolding to_lower title_from
to_lower-title_from p [] = refl
to_lower-title_from p (c ∷ s) = cc (byte_lower_title p c, to_lower-title_from c s)

-- A title differs from the text in the case of letters alone.
pub to_lower-title : (s : Bytes) → to_lower (title s) ≡ to_lower s
unfolding title
to_lower-title s = to_lower-title_from b' ' s

byte_lower_idem : (c : ℕ) → byte_lower (byte_lower c) ≡ byte_lower c
unfolding byte_lower is_upper
byte_lower_idem c = ground arith

pub to_lower_idem : (s : Bytes) → to_lower (to_lower s) ≡ to_lower s
unfolding to_lower
to_lower_idem [] = refl
to_lower_idem (c ∷ s) = cc (byte_lower_idem c, to_lower_idem s)

abbrev pub Lacks : ℕ → Bytes → Type 0
Lacks sep = All (λ c. c ≢ sep)

-- Text without the separator is one part.
pub split_one : (s : Bytes) (sep : ℕ) → Lacks sep s → split s sep ≡ s ∷ []
unfolding split cons_head
split_one [] sep h = refl
split_one (c ∷ s) sep h = ground (arith, split_one s sep h.1)

-- A part without the separator, and the parts of what follows it.
pub split-append :
    (s t : Bytes) (sep : ℕ) → Lacks sep s → split (s ++ sep ∷ t) sep ≡ s ∷ split t sep
unfolding split cons_head
split-append [] t sep h = ground arith
split-append (c ∷ s) t sep h = ground (arith, split-append s t sep h.1)

-- Any text before a separator adds parts in front.
pub split_behind :
    (s t : Bytes) (sep : ℕ)
    → (p : Bytes) × (ps : List Bytes) × (split (s ++ sep ∷ t) sep ≡ p ∷ (ps ++ split t sep))
unfolding split cons_head
split_behind [] t sep = ([], [], ground arith)
split_behind (c ∷ s) t sep =
    let (p, ps, e) = split_behind s t sep in
    elim (Bool-cases (c == sep)) [
      | inl h ↦ ([], p ∷ ps, ground arith)
      | inr h ↦ (c ∷ p, ps, ground arith)
    ]

pub split_some : (s : Bytes) (sep : ℕ) → (p : Bytes) × (ps : List Bytes) × (split s sep ≡ p ∷ ps)
unfolding split cons_head
split_some [] sep = ([], [], refl)
split_some (c ∷ s) sep =
    let (p, ps, e) = split_some s sep in
    elim (Bool-cases (c == sep)) [
      | inl h ↦ ([], p ∷ ps, ground arith)
      | inr h ↦ (c ∷ p, ps, ground arith)
    ]

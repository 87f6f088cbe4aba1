-- ===== src/Logger/Expiry/Aged.antt =====
-- Which files the ticks of mainloop remove.
use go_vkit.Prelude.{
  ℕ, ◌≡◌, ◌⊎◌, inl, inr, Bool-cases, Option-cases, true, List, [], ◌∷◌, ◌++◌, some, arith, Bytes,
  ◌==◌, ℤ, ltb_ℤ, All, All-append,
}
use go_vkit.Logger.Config.{LoggerOptions}
use go_vkit.Logger.{Time}
use go_vkit.Logger.Expiry.{Directory, age, need_delete, delete_files, try_delete_file, ticks}

-- The file was last changed longer before a time than it is to be kept.
abbrev pub Aged : LoggerOptions → Directory × Time → Bytes → Type 0
Aged o (d, date) path =
    (changed : ℤ) × (d.mod_time path ≡ some changed)
    × (ltb_ℤ o.keep_second (age date changed) ≡ true)

-- It was at one of the ticks.
abbrev pub Once : LoggerOptions → List (Directory × Time) → Bytes → Type 0
Once o [] path = ⊥
Once o (tick ∷ later) path = Aged o tick path ⊎ Once o later path

need_delete-Aged :
    (d : Directory) (o : LoggerOptions) (date : Time) (path : Bytes)
    → need_delete d o date path ≡ true
    → Aged o (d, date) path
unfolding need_delete
need_delete-Aged d o date path h = elim (Option-cases (d.mod_time path)) [
  | inl e ↦ absurd (ground (arith, e, h))
  | inr (changed, e) ↦ (changed, e, rw (e, need_delete) at h)
]

delete_files-Aged :
    (d : Directory) (o : LoggerOptions) (date : Time) (names : List Bytes)
    → All (Aged o (d, date)) (delete_files d o date names)
unfolding delete_files
delete_files-Aged d o date [] = tt
delete_files-Aged d o date (name ∷ names) =
    elim (Bool-cases (need_delete d o date (o.log_dir ++ name))) [
      | inl e ↦ rw (e) (need_delete-Aged d o date _ e, delete_files-Aged d o date names)
      | inr e ↦ rw (e) (delete_files-Aged d o date names)
    ]

try_delete_file-Aged :
    (d : Directory) (o : LoggerOptions) (date : Time) (day : ℕ)
    → All (Aged o (d, date)) (try_delete_file d o date day).1
unfolding try_delete_file
try_delete_file-Aged d o date day = elim (Bool-cases (day == date.year_day)) [
  | inl e ↦ rw (e) tt
  | inr e ↦ rw (e) (elim (Option-cases (d.read_dir o.log_dir)) [
    | inl n ↦ rw (n) tt
    | inr (names, n) ↦ rw (n) (delete_files-Aged d o date names)
  ])
]

All-weaken {ℓ κ μ} :
    {A : Type ℓ} (P : A → Type κ) (Q : A → Type μ) (xs : List A)
    → ((x : A) → P x → Q x)
    → All P xs
    → All Q xs
All-weaken P Q [] f h = tt
All-weaken P Q (x ∷ xs) f (p, h) = (f x p, All-weaken P Q xs f h)

-- Whatever the directory holds at each tick, a file is removed only if it was, at one of the ticks, last
-- changed longer ago than KeepSecond.
pub ticks-Once :
    (o : LoggerOptions) (visits : List (Directory × Time)) (day : ℕ)
    → All (Once o visits) (ticks o visits day)
unfolding ticks
ticks-Once o [] day = tt
ticks-Once o ((d, date) ∷ later) day =
    All-append (Once o ((d, date) ∷ later)) (try_delete_file d o date day).1 _
      (All-weaken (Aged o (d, date)) (Once o ((d, date) ∷ later)) _ (λ p h. inl h)
        (try_delete_file-Aged d o date day))
      (All-weaken (Once o later) (Once o ((d, date) ∷ later)) _ (λ p h. inr h)
        (ticks-Once o later (try_delete_file d o date day).0))

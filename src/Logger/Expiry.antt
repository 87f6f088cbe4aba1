-- ===== src/Logger/Expiry.antt =====
-- The deletion of old log files: tryDelteFile and needDelete, for one tick of mainloop.
pub mod Aged
use go_vkit.Prelude.{
  ℕ, Bool, true, false, List, [], ◌∷◌, ◌++◌, Option, none, some, Bytes, ◌==◌, if◌then◌else◌, ℤ, pos,
  negsuc, pos_part, neg_part, sub_ℕ, ltb_ℤ, ◌+◌, ◌||◌, GoMap,
}
use go_vkit.Logger.Config.{LoggerOptions}
use go_vkit.Logger.{Time, Log}

-- What os.Open and Stat tell of a path: the time of its last change, if both succeed.
pub record Directory : Type 0 where
  pub read_dir : Bytes → Option (List Bytes)
  pub mod_time : Bytes → Option ℤ

-- The difference of two times in seconds.
abbrev pub age : Time → ℤ → ℤ
age date changed =
    sub_ℕ (pos_part date.unix + neg_part changed) (pos_part changed + neg_part date.unix)

unfoldable pub need_delete : Directory → LoggerOptions → Time → Bytes → Bool
need_delete d o date file_path = elim (d.mod_time file_path) [
  | none ↦ false
  | some changed ↦ ltb_ℤ o.keep_second (age date changed)
]

-- The loop over the entries of the directory: the paths that are handed to os.Remove.
unfoldable pub delete_files : Directory → LoggerOptions → Time → List Bytes → List Bytes
unfolding need_delete
delete_files d o date [] = []
delete_files d o date (name ∷ names) =
    let path = o.log_dir ++ name in
    let rest = delete_files d o date names in
    if need_delete d o date path then path ∷ rest else rest

-- The day of the last deletion after the call, and the paths that it removes.
unfoldable pub try_delete_file :
    Directory → LoggerOptions → Time → (delete_file_date : ℕ) → ℕ × List Bytes
unfolding delete_files
try_delete_file d o date delete_file_date =
    if delete_file_date == date.year_day
    then (delete_file_date, [])
    else elim (d.read_dir o.log_dir) [
      | none ↦ (date.year_day, [])
      | some names ↦ (date.year_day, delete_files d o date names)
    ]

-- The ticks of mainloop, one after the other, each with the directory as it is then.
pub ticks : LoggerOptions → List (Directory × Time) → (delete_file_date : ℕ) → List Bytes
unfolding try_delete_file
ticks o [] delete_file_date = []
ticks o ((d, date) ∷ later) delete_file_date =
    let (day, removed) = try_delete_file d o date delete_file_date in removed ++ ticks o later day

-- os.Remove of these paths; `same` says which paths name one file.
unfoldable pub removes : (same : Bytes → Bytes → Bool) → List Bytes → Bytes → Bool
removes same [] path = false
removes same (r ∷ removed) path = same r path || removes same removed path

unfoldable pub remove_files :
    (same : Bytes → Bytes → Bool) → (removed : List Bytes) → GoMap (List Bytes) → GoMap (List Bytes)
unfolding removes
remove_files same removed [] = []
remove_files same removed ((path, ls) ∷ files) =
    let rest = remove_files same removed files in
    if removes same removed path then rest else (path, ls) ∷ rest

-- A tick of mainloop.
unfoldable pub tick : (same : Bytes → Bytes → Bool) → Directory → Time → Log → Log
unfolding try_delete_file remove_files
tick same d date s =
    let (day, removed) = try_delete_file d s.options date s.delete_file_date in
    record s { delete_file_date = day; files = remove_files same removed s.files }

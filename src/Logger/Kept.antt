-- ===== src/Logger/Kept.antt =====
-- What the files hold, line by line.
pub mod Reached
use go_vkit.Prelude.{
  ℕ, suc, ◌≤◌, ◌≡◌, ◌≢◌, refl, sym, ap, ◌∙◌, Bool, true, false, List, [], ◌∷◌, ◌++◌, append_assoc,
  append-nil, Option, none, some, arith, Bytes, bytes_eq_iff, Bool-cases, inl, inr, ℤ, pos, int32,
  ◌+ℤ◌, ltb_ℤ, ◌||◌, length, length-snoc, All, All-append, GoMap,
}
use mathlib.Core.Option.{none-ne-some}
use go_vkit.Logger.Config.{LoggerOption, new_logger_options, split_date}
use go_vkit.Logger.{
  Time, Disk, Stat, found, missing, unreadable, Log, create, append_line, file_path, opened,
  new_file, try_new_file, write_file, write_line, line_of, Moment, written, format_and_write,
  need_new_file, init,
}

-- The lines of all files, file by file.
abbrev pub all_lines : GoMap (List Bytes) → List Bytes
all_lines [] = []
all_lines ((path, ls) ∷ files) = ls ++ all_lines files

abbrev pub Other : Bytes → Bytes × List Bytes → Type 0
Other path (p, ls) = p ≢ path

abbrev pub Bounded : Bytes × List Bytes → Type 0
Bounded (p, ls) = length ls ≤ 65537

all_lines-append :
    (xs ys : GoMap (List Bytes)) → all_lines (xs ++ ys) ≡ all_lines xs ++ all_lines ys
all_lines-append [] ys = refl
all_lines-append ((p, ls) ∷ xs) ys =
    ap (λ t. ls ++ t) (all_lines-append xs ys) ∙ sym (append_assoc ls (all_lines xs) (all_lines ys))

create_new :
    (path : Bytes) (files : GoMap (List Bytes))
    → All (Other path) files
    → create path files ≡ files ++ ((path, []) ∷ [])
unfolding create
create_new path [] h = refl
create_new path ((p, ls) ∷ files) (n, h) =
    ground (arith, bytes_eq_iff p path, create_new path files h, n)

append_line_last :
    (path line : Bytes) (done : GoMap (List Bytes)) (ls : List Bytes)
    → All (Other path) done
    → append_line path line (done ++ ((path, ls) ∷ [])) ≡ done ++ ((path, ls ++ (line ∷ [])) ∷ [])
unfolding append_line
append_line_last path line [] ls h = ground (arith, bytes_eq_iff path path)
append_line_last path line ((p, ms) ∷ done) ls (n, h) =
    ground (arith, bytes_eq_iff p path, append_line_last path line done ls h, n)

-- The log writes to the last of its files, of which it counts the lines, `most` at most; and the standard
-- output has the lines of all files.
pub record Kept (most : ℕ) (s : Log) : Type 0 where
  pub initialised : s.initialised ≡ true
  pub done : GoMap (List Bytes)
  pub path : Bytes
  pub lines : List Bytes
  pub files : s.files ≡ done ++ ((path, lines) ∷ [])
  pub file : s.file ≡ some path
  pub other : All (Other path) done
  pub count : s.line_count ≡ pos (length lines)
  pub few : length lines ≤ most
  pub bounded : All Bounded done
  pub stdout : s.stdout ≡ all_lines s.files

one_more : (n : ℕ) → n ≤ 65536 → int32 (pos n +ℤ pos 1) ≡ pos (suc n)
one_more n h = ground arith

all_lines-snoc :
    (done : GoMap (List Bytes)) (path line : Bytes) (ls : List Bytes)
    → all_lines (done ++ ((path, ls) ∷ [])) ++ (line ∷ [])
      ≡ all_lines (done ++ ((path, ls ++ (line ∷ [])) ∷ []))
all_lines-snoc done path line ls =
    rw
      (
        all_lines-append done ((path, ls) ∷ []),
        all_lines-append done ((path, ls ++ (line ∷ [])) ∷ []),
        append-nil ls,
        append-nil (ls ++ (line ∷ [])),
      )
      (append_assoc (all_lines done) ls (line ∷ []))

pub write_line-Kept :
    (line : Bytes) (s : Log) → Kept 65536 s → Kept 65537 (write_line none none line s)
unfolding write_line write_file
write_line-Kept line s k =
    let appended = append_line_last k.path line k.done k.lines k.other in
    record {
      initialised = k.initialised;
      done = k.done;
      path = k.path;
      lines = k.lines ++ (line ∷ []);
      files = rw (k.file, k.files) appended;
      file = k.file;
      other = k.other;
      count = rw (k.count, length-snoc k.lines line) (one_more (length k.lines) k.few);
      few = rw (length-snoc k.lines line) (omega (arith, k.few));
      bounded = k.bounded;
      stdout = rw (k.stdout, k.file, k.files, appended) (all_lines-snoc k.done k.path line k.lines);
    }

-- The path of a file made now is not that of a file there is.
abbrev pub Fresh : Time → Log → Type 0
Fresh cur s = All (Other (file_path s.options cur)) s.files

opened-Kept :
    (e : Option Bytes) (cur : Time) (s t : Log)
    → s.initialised ≡ true
    → All Bounded s.files
    → s.stdout ≡ all_lines s.files
    → Fresh cur s
    → opened e cur s ≡ (t, none)
    → Kept 65536 t
unfolding opened
opened-Kept (some e) cur s t i b o f h = absurd (cc)
opened-Kept none cur s t i b o f h =
    let path = file_path s.options cur in
    rw (← ap (λ p. p.0) h) (record {
      initialised = i;
      done = s.files;
      path = path;
      lines = [];
      files = create_new path s.files f;
      file = refl;
      other = f;
      count = refl;
      few = omega arith;
      bounded = b;
      stdout =
          rw (create_new path s.files f, all_lines-append s.files ((path, []) ∷ []))
            (o ∙ sym (append-nil (all_lines s.files)));
    })

pub new_file-Kept :
    (disk : Disk) (cur : Time) (s t : Log)
    → s.initialised ≡ true
    → All Bounded s.files
    → s.stdout ≡ all_lines s.files
    → Fresh cur s
    → new_file disk cur s ≡ (t, none)
    → Kept 65536 t
unfolding new_file
new_file-Kept disk cur s t i b o f h = go disk.stat refl disk.mkdir_all refl
  where
    go : (a : Stat) → disk.stat ≡ a → (e : Option Bytes) → disk.mkdir_all ≡ e → Kept 65536 t
    go found p e q = opened-Kept disk.open_file cur s t i b o f (rw (p, new_file) at h)
    go unreadable p e q = opened-Kept disk.open_file cur s t i b o f (rw (p, new_file) at h)
    go missing p none q = opened-Kept disk.open_file cur s t i b o f (rw (p, q, new_file) at h)
    go missing p (some e) q =
        absurd (none-ne-some _ (sym (ap (λ r. r.1) (rw (p, q, new_file) at h))))

All-Bounded : (s : Log) → Kept 65537 s → All Bounded s.files
All-Bounded s k = rw (k.files) (All-append Bounded k.done _ k.bounded (k.few, tt))

few_of : (n : ℕ) (b : Bool) → (ltb_ℤ (pos 65536) (pos n) || b) ≡ false → n ≤ 65536
few_of n b h = ground arith

-- The condition of a new file holds by the count at least.
few_enough :
    (now : Time) (s : Log) → Kept 65537 s → need_new_file false now s ≡ false → Kept 65536 s
unfolding need_new_file
few_enough now s k h = record {
  initialised = k.initialised;
  done = k.done;
  path = k.path;
  lines = k.lines;
  files = k.files;
  file = k.file;
  other = k.other;
  count = k.count;
  few = few_of (length k.lines) _ (rw (k.count, need_new_file) at h);
  bounded = k.bounded;
  stdout = k.stdout;
}

pub try_new_file-Kept :
    (disk : Disk) (now cur : Time) (s t : Log)
    → Kept 65537 s
    → (need_new_file false now s ≡ true → Fresh cur s)
    → try_new_file false disk now cur s ≡ (t, none)
    → Kept 65536 t
unfolding try_new_file
try_new_file-Kept disk now cur s t k f h = elim (Bool-cases (need_new_file false now s)) [
  | inl e ↦
      new_file-Kept disk cur s t k.initialised (All-Bounded s k) k.stdout (f e)
        (rw (e, try_new_file) at h)
  | inr e ↦ rw (← ap (λ p. p.0) (rw (e, try_new_file) at h)) (few_enough now s k e)
]

-- ===== src/Logger/Kept/Reached.antt =====
-- What the files hold after any number of log lines.
use go_vkit.Prelude.{
  ◌≡◌, refl, sym, ap, ◌∙◌, Bool, GoMap, some, ◌∷◌, true, false, List, [], none, arith, Bytes, ℤ,
  pos, All, All-append,
}
use go_vkit.Logger.Config.{LoggerOption, new_logger_options, split_date}
use go_vkit.Logger.{
  Time, Disk, Log, try_new_file, write_line, line_of, Moment, written, format_and_write,
  need_new_file, init, Ended, start_main_loop, new_file,
}
use go_vkit.Logger.Expiry.{Directory, removes, remove_files, try_delete_file, tick}
use mathlib.Core.Option.{none-ne-some}
use go_vkit.Logger.Kept.{
  all_lines, Bounded, Fresh, Kept, write_line-Kept, new_file-Kept, try_new_file-Kept,
}

-- The variables of the package before the first call.
abbrev pub initial : Log
initial = record {
  initialised = false;
  main_loop = false;
  options = record {
    keep_second = pos 0;
    log_dir = [];
    split_type = split_date;
    call_back = false;
  };
  file = none;
  line_count = pos 0;
  create_file_date = 0;
  create_file_hour = 0;
  delete_file_date = 0;
  files = [];
  stdout = [];
  called = [];
}

-- A tick of mainloop removes none of these files.
abbrev pub Spared :
    (same : Bytes → Bytes → Bool) → (removed : List Bytes) → GoMap (List Bytes) → Type 0
Spared same removed = All (λ f. removes same removed f.0 ≡ false)

-- The logs after Init and any number of lines and ticks of mainloop, where no call panics, no write fails, a file
-- that is made has a new name, and no tick removes a file that the log has written.
pub data Reach : Log → Type 0 where
  started :
      {s : Log} (opts : List LoggerOption) (disk : Disk) (now cur : Time)
      → init opts disk now cur initial ≡ (s, none)
      → Reach s
  logged :
      {s t : Log} (level : ℤ) (message : Bytes) (m : Moment)
      → Reach s
      → m.std_write ≡ none
      → m.file_write ≡ none
      → (need_new_file false m.next_now (write_line none none (line_of level m.now message) s)
            ≡ true
          → Fresh m.next_cur (write_line none none (line_of level m.now message) s))
      → format_and_write level message m s ≡ (t, none)
      → Reach t
  ticked :
      {s : Log} (same : Bytes → Bytes → Bool) (d : Directory) (date : Time)
      → Reach s
      → s.main_loop ≡ true
      → Spared same (try_delete_file d s.options date s.delete_file_date).1 s.files
      → Reach (tick same d date s)

format_and_write-Kept :
    (level : ℤ) (message : Bytes) (m : Moment) (s t : Log)
    → Kept 65536 s
    → m.std_write ≡ none
    → m.file_write ≡ none
    → (need_new_file false m.next_now (write_line none none (line_of level m.now message) s) ≡ true
        → Fresh m.next_cur (write_line none none (line_of level m.now message) s))
    → format_and_write level message m s ≡ (t, none)
    → Kept 65536 t
unfolding format_and_write init written
format_and_write-Kept level message m s t k p q f h =
    try_new_file-Kept m.next_disk m.next_now m.next_cur
      (write_line none none (line_of level m.now message) s) t
      (write_line-Kept (line_of level m.now message) s k) f
      (rw (p, q) at (rw (k.initialised, format_and_write, init) at h))

remove_files-Spared :
    (same : Bytes → Bytes → Bool) (removed : List Bytes) (files : GoMap (List Bytes))
    → Spared same removed files
    → remove_files same removed files ≡ files
unfolding remove_files
remove_files-Spared same removed [] h = refl
remove_files-Spared same removed ((path, ls) ∷ files) (e, h) =
    rw (e, remove_files-Spared same removed files h) refl

tick-Kept :
    (same : Bytes → Bytes → Bool) (d : Directory) (date : Time) (s : Log)
    → Kept 65536 s
    → Spared same (try_delete_file d s.options date s.delete_file_date).1 s.files
    → Kept 65536 (tick same d date s)
unfolding tick
tick-Kept same d date s k h =
    let kept = remove_files-Spared same _ s.files h in
    record {
      initialised = k.initialised;
      done = k.done;
      path = k.path;
      lines = k.lines;
      files = kept ∙ k.files;
      file = k.file;
      other = k.other;
      count = k.count;
      few = k.few;
      bounded = k.bounded;
      stdout = rw (kept) k.stdout;
    }

-- Init ends with the log that tryNewFile leaves, and mainloop runs.
init-Kept :
    (s : Log) (r : Ended)
    → ((t : Log) → r ≡ (t, none) → Kept 65536 t)
    → start_main_loop r ≡ (s, none)
    → Kept 65536 s
unfolding start_main_loop
init-Kept s (t, none) f h =
    let k = f t refl in
    rw (← ap (λ p. p.0) h) (record {
      initialised = k.initialised;
      done = k.done;
      path = k.path;
      lines = k.lines;
      files = k.files;
      file = k.file;
      other = k.other;
      count = k.count;
      few = k.few;
      bounded = k.bounded;
      stdout = k.stdout;
    })
init-Kept s (t, some panic) f h = absurd (none-ne-some _ (sym (ap (λ p. p.1) h)))

Reach-Kept : {s : Log} → Reach s → Kept 65536 s
unfolding init try_new_file need_new_file
Reach-Kept (started {s} opts disk now cur h) =
    let begun = record initial { initialised = true; options = new_logger_options opts } in
    init-Kept s (new_file disk cur begun) (λ t e. new_file-Kept disk cur begun t refl tt refl tt e)
      h
Reach-Kept (logged {s} {t} level message m r p q f h) =
    format_and_write-Kept level message m s t (Reach-Kept r) p q f h
Reach-Kept (ticked {s} same d date r runs h) = tick-Kept same d date s (Reach-Kept r) h

-- After Init and any number of lines and ticks of mainloop, where no call panics, no write to the standard output
-- or a file fails, every file that is made has a new name, and no tick removes a file of the log: the files,
-- one after the other, hold exactly the lines that went to the standard output, in their order, and
-- no file has more than 65537 lines.
pub Reach-all_lines : {s : Log} → Reach s → (s.stdout ≡ all_lines s.files) × All Bounded s.files
Reach-all_lines {s} r =
    let k = Reach-Kept r in
    (k.stdout, rw (k.files) (All-append Bounded k.done _ k.bounded (omega (arith, k.few), tt)))

-- ===== src/Logger.antt =====
-- The package logger. A time is what the code reads off it, the file system the lines of each file under its
-- path, in the order in which the files came to be; the standard output and the callback keep what they got.
pub mod Kept
pub mod Expiry
pub mod Config
mod Tests
use go_vkit.Prelude.{
  ℕ, Bool, true, false, ◌&&◌, ◌||◌, not, List, [], ◌∷◌, ◌++◌, Option, none, some, codes, Bytes,
  bytes_eq, ◌==◌, if◌then◌else◌, ℤ, pos, negsuc, ◌+ℤ◌, ltb_ℤ, int32, GoMap, ◌⊎◌, inl, inr,
}
use go_vkit.Logger.Config.{
  debug_level, info_level, warn_level, error_level, file_max_line, level_string, SplitType,
  split_date, split_hour, split_other, LoggerOptions, LoggerOption, new_logger_options,
}

-- What the code reads off a time.Time: Format with either layout, Unix, YearDay and Hour.
pub record Time : Type 0 where
  pub stamp : Bytes
  pub shown : Bytes
  pub unix : ℤ
  pub year_day : ℕ
  pub hour : ℕ

-- The answer of os.Stat for the directory.
pub data Stat : Type 0 where
  found missing unreadable : Stat

-- What the operating system answers when a file is made: an error is its text.
pub record Disk : Type 0 where
  pub stat : Stat
  pub mkdir_all : Option Bytes
  pub open_file : Option Bytes

-- The variables of the package and what they refer to. `file` is the path of logFile; `main_loop` says that the
-- goroutine mainloop runs, of which Logger.Expiry has a tick.
pub record Log : Type 0 where
  pub initialised : Bool
  pub main_loop : Bool
  pub options : LoggerOptions
  pub file : Option Bytes
  pub line_count : ℤ
  pub create_file_date : ℕ
  pub create_file_hour : ℕ
  pub delete_file_date : ℕ
  pub files : GoMap (List Bytes)
  pub stdout : List Bytes
  pub called : List Bytes

-- A state, and what a panic says if there is one.
abbrev pub Ended : Type 0
Ended = Log × Option Bytes

-- O_CREATE with O_APPEND: a file that exists keeps its lines.
pub create : Bytes → GoMap (List Bytes) → GoMap (List Bytes)
create path [] = (path, []) ∷ []
create path ((p, ls) ∷ files) =
    if bytes_eq p path then (p, ls) ∷ files else (p, ls) ∷ create path files

pub append_line : Bytes → Bytes → GoMap (List Bytes) → GoMap (List Bytes)
append_line path line [] = []
append_line path line ((p, ls) ∷ files) =
    if bytes_eq p path
    then (p, ls ++ (line ∷ [])) ∷ files
    else (p, ls) ∷ append_line path line files

-- `fmt.Sprintf("%s/%s.log", fileDir, timeStr)`
pub file_path : LoggerOptions → Time → Bytes
file_path o cur = o.log_dir ++ (b'/' ∷ (cur.stamp ++ codes ".log"))

pub need_new_file : Bool → Time → Log → Bool
need_new_file force now s = force || ltb_ℤ file_max_line s.line_count || elim s.options.split_type [
  | split_date ↦ not (s.create_file_date == now.year_day)
  | split_hour ↦ not (s.create_file_hour == now.hour)
  | split_other n ↦ false
]

-- From os.OpenFile on.
pub opened : Option Bytes → Time → Log → Ended
unfolding create file_path
opened (some e) cur s = (s, some (codes "open log file failed, err:" ++ e))
opened none cur s =
    let path = file_path s.options cur in
    (
      record s {
        line_count = pos 0;
        create_file_date = cur.year_day;
        create_file_hour = cur.hour;
        file = some path;
        files = create path s.files;
      },
      none,
    )

pub new_file : Disk → Time → Log → Ended
unfolding opened
new_file disk cur s = elim disk.stat [
  | found ↦ opened disk.open_file cur s
  | unreadable ↦ opened disk.open_file cur s
  | missing ↦ elim disk.mkdir_all [
    | none ↦ opened disk.open_file cur s
    | some e ↦ (
      s,
      some (codes "create forder fail fileDir=:" ++ (s.options.log_dir ++ (codes " err:" ++ e))),
    )
  ]
]

-- `now` is the time that the condition reads, `cur` the one of the new file.
pub try_new_file : Bool → Disk → (now cur : Time) → Log → Ended
unfolding need_new_file new_file
try_new_file force disk now cur s = elim (need_new_file force now s) [
  | true ↦ new_file disk cur s
  | false ↦ (s, none)
]

-- `go mainloop()`, which a panic before it leaves out.
start_main_loop : Ended → Ended
start_main_loop (s, none) = (record s { main_loop = true }, none)
start_main_loop (s, some panic) = (s, some panic)

-- Init, under initOnce: a panic in it counts as the one time.
pub init : List LoggerOption → Disk → (now cur : Time) → Log → Ended
unfolding try_new_file start_main_loop
init opts disk now cur s = elim s.initialised [
  | true ↦ (s, none)
  | false ↦ start_main_loop (
      try_new_file true disk now cur
        (record s { initialised = true; options = new_logger_options opts }))
]

pub format_header : ℤ → Time → Bytes
unfolding level_string
format_header l t = level_string l ++ t.shown

pub line_of : ℤ → Time → Bytes → Bytes
unfolding format_header
line_of l now message = (format_header l now ++ message) ++ (b'\n' ∷ [])

-- What a call of formatAndWrite meets: the times of Init, of the header and of the last tryNewFile, the answers to
-- either of the files that may be made, and how the writes to the standard output and to the file end: `none`
-- where the whole line is written, or the part of it that was written before an error, which the code drops.
pub record Moment : Type 0 where
  pub init_now : Time
  pub init_cur : Time
  pub init_disk : Disk
  pub now : Time
  pub std_write : Option Bytes
  pub file_write : Option Bytes
  pub next_now : Time
  pub next_cur : Time
  pub next_disk : Disk

part_of : Option Bytes → Bytes → Bytes
part_of none line = line
part_of (some part) line = part

-- A nil logFile takes no line.
pub write_file : Option Bytes → Bytes → GoMap (List Bytes) → GoMap (List Bytes)
unfolding append_line
write_file none line files = files
write_file (some path) line files = append_line path line files

-- Under the mutex, from the header on; `line` is the buffer.
pub write_line : (std_write file_write : Option Bytes) → Bytes → Log → Log
unfolding write_file part_of
write_line std_write file_write line s = record s {
  stdout = s.stdout ++ (part_of std_write line ∷ []);
  files = write_file s.file (part_of file_write line) s.files;
  line_count = int32 (s.line_count +ℤ pos 1);
  called = if s.options.call_back then s.called ++ (line ∷ []) else s.called;
}

pub written : Bytes → Moment → Ended → Ended
unfolding write_line try_new_file
written line m (s, some panic) = (s, some panic)
written line m (s, none) =
    try_new_file false m.next_disk m.next_now m.next_cur
      (write_line m.std_write m.file_write line s)

pub format_and_write : ℤ → Bytes → Moment → Log → Ended
unfolding written init line_of
format_and_write l message m s =
    written (line_of l m.now message) m (init [] m.init_disk m.init_now m.init_cur s)

-- Sprintf and Sprint are parameters, `V` the values that they print; for JsonInfo, Marshal is one, with the
-- value of a string or of an error's text.
module _ {ℓ} {V : Type ℓ} (sprintf : Bytes → List V → Bytes) where
  infof : Bytes → List V → Moment → Log → Ended
  unfolding format_and_write
  infof format v = format_and_write info_level (sprintf format v)

  warnf : Bytes → List V → Moment → Log → Ended
  unfolding format_and_write
  warnf format v = format_and_write warn_level (sprintf format v)

  errorf : Bytes → List V → Moment → Log → Ended
  unfolding format_and_write
  errorf format v = format_and_write error_level (sprintf format v)

  debugf : Bytes → List V → Moment → Log → Ended
  unfolding format_and_write
  debugf format v = format_and_write debug_level (sprintf format v)

  -- The printed text is the format of the next call.
  pub info : (List V → Bytes) → List V → Moment → Log → Ended
  unfolding infof
  info sprint v = infof (sprint v) []

  pub warn : (List V → Bytes) → List V → Moment → Log → Ended
  unfolding warnf
  warn sprint v = warnf (sprint v) []

  pub error : (List V → Bytes) → List V → Moment → Log → Ended
  unfolding errorf
  error sprint v = errorf (sprint v) []

  pub debug : (List V → Bytes) → List V → Moment → Log → Ended
  unfolding debugf
  debug sprint v = debugf (sprint v) []

  -- JsonInfo: the text that Marshal gives, as a value of Sprintf, or the value of its error.
  json_info : (marshal : V → V ⊎ V) → (format : Bytes) → V → Moment → Log → Ended
  unfolding errorf debugf
  json_info marshal format v = elim (marshal v) [
    | inl text ↦ debugf format (text ∷ [])
    | inr e ↦ errorf (codes "e:%s") (e ∷ [])
  ]

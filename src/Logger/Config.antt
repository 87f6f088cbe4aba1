-- ===== src/Logger/Config.antt =====
-- The levels and the options of logger/logger.go.
use go_vkit.Prelude.{Bool, false, List, [], ◌∷◌, codes, Bytes, ◌==◌, if◌then◌else◌, ℤ, pos, negsuc}

abbrev pub debug_level : ℤ
debug_level = pos 1

abbrev pub info_level : ℤ
info_level = pos 2

abbrev pub warn_level : ℤ
warn_level = pos 3

abbrev pub error_level : ℤ
error_level = pos 4

abbrev pub file_max_line : ℤ
file_max_line = pos 65536

-- Level.String
unfoldable pub level_string : ℤ → Bytes
level_string (negsuc n) = codes "[none]"
level_string (pos n) =
    if n == 1
    then codes "[debug]"
    else if n == 2
    then codes "[info]"
    else if n == 3
    then codes "[warn]"
    else if n == 4
    then codes "[error]"
    else codes "[none]"

pub data SplitType : Type 0 where
  split_date split_hour : SplitType
  split_other : ℤ → SplitType

pub record LoggerOptions : Type 0 where
  pub keep_second : ℤ
  pub log_dir : Bytes
  pub split_type : SplitType
  pub call_back : Bool

pub data LoggerOption : Type 0 where
  with_keep_second : ℤ → LoggerOption
  with_log_dir : Bytes → LoggerOption
  with_split_type : SplitType → LoggerOption
  with_call_back : Bool → LoggerOption

apply : LoggerOption → LoggerOptions → LoggerOptions
apply (with_keep_second n) o = record o { keep_second = n }
apply (with_log_dir d) o = record o { log_dir = d }
apply (with_split_type t) o = record o { split_type = t }
apply (with_call_back c) o = record o { call_back = c }

unfoldable pub apply_all : List LoggerOption → LoggerOptions → LoggerOptions
unfolding apply
apply_all [] opt = opt
apply_all (o ∷ opts) opt = apply_all opts (apply o opt)

unfoldable pub new_logger_options : List LoggerOption → LoggerOptions
unfolding apply_all
new_logger_options opts = apply_all opts (record {
  keep_second = pos 604800;
  log_dir = codes "./logs/";
  split_type = split_date;
  call_back = false;
})

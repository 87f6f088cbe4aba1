-- ===== src/Logger/Tests.antt =====
-- Runs of the logger at concrete inputs.
use go_vkit.Prelude.{
  ◌≡◌, refl, true, false, [], ◌∷◌, none, some, arith, codes, Bytes, bytes_eq, pos, All,
}
use go_vkit.Logger.Config.{
  LoggerOptions, split_date, new_logger_options, apply_all, level_string, info_level,
}
use go_vkit.Logger.{
  start_main_loop, part_of, Time, Disk, missing, Log, Moment, create, append_line, file_path,
  opened, new_file, try_new_file, need_new_file, format_header, line_of, write_file, write_line,
  written, init, format_and_write,
}
use go_vkit.Logger.Kept.{all_lines, Bounded}
use go_vkit.Logger.Kept.Reached.{Reach, started, logged, ticked, initial, Reach-all_lines}
use go_vkit.Logger.Expiry.{
  Directory, tick, try_delete_file, delete_files, need_delete, removes, remove_files, ticks,
}
use go_vkit.Logger.Expiry.Aged.{Once, ticks-Once}

abbrev morning : Time
morning = record {
  stamp = codes "20240101080000";
  shown = codes "[2024-01-01 08:00:00.000000]";
  unix = pos 1704096000;
  year_day = 1;
  hour = 8;
}

abbrev next_day : Time
next_day = record {
  stamp = codes "20240102080000";
  shown = codes "[2024-01-02 08:00:00.000000]";
  unix = pos 1704182400;
  year_day = 2;
  hour = 8;
}

abbrev disk : Disk
disk = record { stat = missing; mkdir_all = none; open_file = none }

abbrev options : LoggerOptions
options = record {
  keep_second = pos 604800;
  log_dir = codes "./logs/";
  split_type = split_date;
  call_back = false;
}

-- After Init, and after a line that is followed by a new file.
abbrev begun : Log
begun = record initial {
  initialised = true;
  options = options;
  file = some (codes "./logs//20240101080000.log");
  create_file_date = 1;
  create_file_hour = 8;
  main_loop = true;
  files = (codes "./logs//20240101080000.log", []) ∷ [];
}

abbrev line : Bytes
line = codes "[info][2024-01-01 08:00:00.000000]up\n"

abbrev turned : Log
turned = record begun {
  file = some (codes "./logs//20240102080000.log");
  create_file_date = 2;
  files =
      (codes "./logs//20240101080000.log", line ∷ [])
      ∷ (codes "./logs//20240102080000.log", [])
      ∷ [];
  stdout = line ∷ [];
}

abbrev moment : Moment
moment = record {
  init_now = morning;
  init_cur = morning;
  init_disk = disk;
  now = morning;
  std_write = none;
  file_write = none;
  next_now = next_day;
  next_cur = next_day;
  next_disk = disk;
}

turned-Reach : Reach turned
unfolding init start_main_loop part_of try_new_file need_new_file new_file opened create bytes_eq
    new_logger_options apply_all format_and_write written line_of format_header level_string
    write_line write_file append_line file_path
turned-Reach =
    logged {s = begun} info_level (codes "up") moment (started [] disk morning morning refl) refl
      refl (λ e. (ground arith, tt)) refl

abbrev directory : Directory
directory = record { read_dir = λ d. some (codes "a.log" ∷ []); mod_time = λ p. some (pos 1000) }

-- A tick of mainloop that removes an old file which the log has not written.
abbrev ticked_once : Log
ticked_once = record turned { delete_file_date = 2 }

ticked_once-Reach : Reach ticked_once
unfolding tick try_delete_file delete_files need_delete removes remove_files bytes_eq
ticked_once-Reach =
    ticked {s = turned} bytes_eq directory next_day turned-Reach refl (refl, (refl, tt))

Reach-all_lines_example :
    (ticked_once.stdout ≡ all_lines ticked_once.files) × All Bounded ticked_once.files
Reach-all_lines_example = Reach-all_lines ticked_once-Reach

ticks-Once_example :
    All (Once options ((directory, morning) ∷ [])) (ticks options ((directory, morning) ∷ []) 0)
ticks-Once_example = ticks-Once options ((directory, morning) ∷ []) 0

-- ===== src/LogManager.antt =====
-- cpp_modules/log_manager: `LogManager` of include/log_manager.h and src/log_manager.cpp. Each
-- method holds the mutex for all of its body, so that a history is a sequence of calls.
pub mod History
pub mod Last
pub mod Cache
use linux_iot_gateway.Common.{
  ℕ, suc, ◌+◌, Bool, true, false, List, [], ◌∷◌, ◌++◌, Option, none, some, Bytes, codes, ltb, ◌==◌,
  if◌then◌else◌, length,
}
use linux_iot_gateway.Common.OrderedMap

pub data LogLevel : Type 0 where
  info warning error : LogLevel

abbrev pub level_key : LogLevel → ℕ
level_key info = 0
level_key warning = 1
level_key error = 2

-- `std::ofstream`: what is flushed, and what was written behind it. It may also flush by itself.
pub record OutputFile : Type 0 where
  pub is_open : Bool
  pub flushed : Bytes
  pub buffered : Bytes

pub record LogManager : Type 0 where
  pub file_path : Bytes
  pub log_file : OutputFile
  pub console_enabled : Bool
  pub auto_flush : Bool
  pub max_cached_logs : ℕ
  pub recent_logs : List Bytes
  pub log_counts : List (ℕ × ℕ)

-- The constructor; whether the file opens is the system's.
abbrev pub new_log_manager : Bytes → Bool → LogManager
new_log_manager file_path opens = record {
  file_path = file_path;
  log_file = record { is_open = opens; flushed = []; buffered = [] };
  console_enabled = true;
  auto_flush = true;
  max_cached_logs = 10;
  recent_logs = [];
  log_counts = (0, 0) ∷ (1, 0) ∷ (2, 0) ∷ [];
}

unfoldable pub flush : OutputFile → OutputFile
flush f = record f { flushed = f.flushed ++ f.buffered; buffered = [] }

unfoldable pub write : OutputFile → Bytes → OutputFile
write f text = record f { buffered = f.buffered ++ text }

unfoldable pub set_console_enabled : LogManager → Bool → LogManager
set_console_enabled l enabled = record l { console_enabled = enabled }

unfoldable pub set_auto_flush : LogManager → Bool → LogManager
set_auto_flush l enabled = record l { auto_flush = enabled }

-- `while (recentLogs_.size() > maxCachedLogs_)` the first is erased.
unfoldable pub erase_oldest : ℕ → List Bytes → List Bytes
erase_oldest max_count [] = []
erase_oldest max_count (line ∷ lines) =
    if ltb max_count (suc (length lines)) then erase_oldest max_count lines else line ∷ lines

unfoldable pub set_max_cached_logs : LogManager → ℕ → LogManager
unfolding erase_oldest
set_max_cached_logs l max_count = record l {
  max_cached_logs = max_count;
  recent_logs = if max_count == 0 then [] else erase_oldest max_count l.recent_logs;
}

unfoldable pub level_to_string : LogLevel → Bytes
level_to_string info = codes "INFO"
level_to_string warning = codes "WARNING"
level_to_string error = codes "ERROR"

unfoldable pub log_line : LogLevel → Bytes → Bytes
unfolding level_to_string
log_line level message = codes "[" ++ level_to_string level ++ codes "] " ++ message

unfoldable pub cache_log_line : LogManager → Bytes → LogManager
unfolding erase_oldest
cache_log_line l line = record l {
  recent_logs =
      if l.max_cached_logs == 0
      then l.recent_logs
      else erase_oldest l.max_cached_logs (l.recent_logs ++ line ∷ []);
}

-- `if (logFile_.is_open())` the line is written, and flushed if it is to be.
unfoldable pub write_line : LogManager → Bytes → LogManager
unfolding flush write
write_line l line =
    let f = write l.log_file (line ++ b'\n' ∷ []) in
    record l {
      log_file = if l.log_file.is_open then if l.auto_flush then flush f else f else l.log_file;
    }

abbrev pub count_of : Option ℕ → ℕ
count_of none = 0
count_of (some n) = n

unfoldable pub get_log_count : LogManager → LogLevel → ℕ
get_log_count l level = count_of (OrderedMap.find (level_key level) l.log_counts)

-- `++logCounts_[level]`.
abbrev count_line : LogManager → LogLevel → LogManager
count_line l level = record l {
  log_counts =
      OrderedMap.assign (level_key level)
        (suc (count_of (OrderedMap.find (level_key level) l.log_counts))) l.log_counts;
}

-- With what is printed on the console.
unfoldable pub log : LogManager → LogLevel → Bytes → LogManager × Bytes
unfolding cache_log_line log_line write_line
log l level message =
    let line = log_line level message in
    let printed = if l.console_enabled then line ++ b'\n' ∷ [] else [] in
    (count_line (cache_log_line (write_line l line) line) level, printed)

unfoldable pub clear_recent_logs : LogManager → LogManager
clear_recent_logs l = record l { recent_logs = [] }

unfoldable pub reset_log_counts : LogManager → LogManager
unfolding OrderedMap.map_values
reset_log_counts l = record l { log_counts = OrderedMap.map_values (λ _. 0) l.log_counts }

-- The destructor, with what it prints; closing the stream flushes it too.
unfoldable pub destroy : LogManager → LogManager × Bytes
unfolding flush
destroy l =
    let closed =
      if l.log_file.is_open then record (flush l.log_file) { is_open = false } else l.log_file in
    (
      record l { log_file = closed },
      if l.console_enabled
          then codes "[INFO] Log file closed: " ++ l.file_path ++ b'\n' ∷ []
          else [],
    )

-- ===== src/ThreadSafeLog.antt =====
-- cpp_modules/thread_safe_log_demo/main.cpp: two workers that write to one log.
pub mod Counts
use linux_iot_gateway.Common.{
  ℕ, suc, Bool, true, false, List, [], ◌∷◌, ◌++◌, Bytes, codes, leb, if◌then◌else◌, Option, none,
  some,
}
use linux_iot_gateway.Common.Decimal.{to_string}
use linux_iot_gateway.LogManager
use linux_iot_gateway.LogManager.{LogManager, new_log_manager, LogLevel, info, warning}

abbrev pub logs_per_worker : ℕ
logs_per_worker = 5

-- A worker with its arguments, the text of its thread's number and its `index`.
pub record Worker : Type 0 where
  pub level : LogLevel
  pub worker_name : Bytes
  pub thread_id : Bytes
  pub index : ℕ

abbrev pub message_of : Worker → Bytes
message_of w =
    codes "worker="
    ++ w.worker_name
    ++ codes "thread"
    ++ w.thread_id
    ++ codes "sequence="
    ++ to_string w.index

-- One round of the loop of `writeLogs`, or nothing behind the loop.
unfoldable pub write_logs : Worker → LogManager → Worker × LogManager
write_logs w l =
    if leb w.index logs_per_worker
    then (record w { index = suc w.index }, (LogManager.log l w.level (message_of w)).0)
    else (w, l)

pub record Demo : Type 0 where
  pub logger : LogManager
  pub collector : Worker
  pub processor : Worker

-- The threads take turns in any order.
pub data Turn : Type 0 where
  collector_turn processor_turn : Turn

unfoldable pub step : Demo → Turn → Demo
step d collector_turn =
    let (w, l) = write_logs d.collector d.logger in record d { collector = w; logger = l }
step d processor_turn =
    let (w, l) = write_logs d.processor d.logger in record d { processor = w; logger = l }

abbrev pub run : Demo → List Turn → Demo
run d [] = d
run d (t ∷ ts) = run (step d t) ts

-- The log as `main` sets it up.
unfoldable pub set_up : LogManager → LogManager
set_up l =
    LogManager.set_max_cached_logs
      (LogManager.set_auto_flush (LogManager.set_console_enabled l true) true) 20

-- The threads as `main` starts them.
unfoldable pub new_demo : LogManager → Bytes → Bytes → Demo
new_demo l id id' = record {
  logger = set_up l;
  collector = record { level = info; worker_name = codes "collector"; thread_id = id; index = 1 };
  processor = record {
    level = warning;
    worker_name = codes "processor";
    thread_id = id';
    index = 1;
  };
}

-- `main` up to the start of the threads, by whether the log file opens: `none` is the exit status 1,
-- with the texts of the threads' numbers.
unfoldable pub main : Bool → Bytes → Bytes → Option Demo
unfolding set_up new_demo
main opens id id' =
    let l = new_log_manager (codes "thread_safe_log_demo.log") opens in
    if (set_up l).log_file.is_open then some (new_demo l id id') else none

-- ===== src/Examples/WorkerRuns.antt =====
-- The two workers of the log, the first ahead of the second, and one turn too many.
use linux_iot_gateway.Common.{true, List, [], ◌∷◌, codes, arith, ◌++◌}
use linux_iot_gateway.Common.OrderedMap
use linux_iot_gateway.LogManager
use linux_iot_gateway.LogManager.{LogManager, new_log_manager}
use linux_iot_gateway.ThreadSafeLog.{Turn, collector_turn, processor_turn, run, new_demo}
use linux_iot_gateway.ThreadSafeLog.Counts.{Totals, run-log_counts}

abbrev log : LogManager
log = new_log_manager (codes "thread_safe_log_demo.log") true

abbrev five : Turn → List Turn
five t = t ∷ t ∷ t ∷ t ∷ t ∷ []

abbrev turns : List Turn
turns = collector_turn ∷ (five processor_turn ++ five collector_turn)

run-log_counts_example : Totals 0 0 0 (run (new_demo log (codes "1") (codes "2")) turns).logger
unfolding LogManager.get_log_count OrderedMap.find
run-log_counts_example =
    run-log_counts log (codes "1") (codes "2") turns (omega arith) (omega arith)

-- ===== src/Examples/LogRuns.antt =====
-- A log with room for one line, and one that is set up anew.
use linux_iot_gateway.Common.{true, List, [], ◌∷◌, ◌≡◌, refl, codes}
use linux_iot_gateway.LogManager
use linux_iot_gateway.LogManager.{LogManager, info, error, new_log_manager, get_log_count}
use linux_iot_gateway.LogManager.History.{
  Call, logs, max_cached, resets, run, counted, run-get_log_count, lines,
}
use linux_iot_gateway.LogManager.Cache.{IsValid, kept, run-recent_logs}

abbrev fresh_log : LogManager
fresh_log = new_log_manager (codes "a.log") true

abbrev calls : List Call
calls =
    logs info (codes "up")
    ∷ max_cached 1
    ∷ logs error (codes "lost")
    ∷ resets
    ∷ logs error (codes "gone")
    ∷ []

run-recent_logs_example :
    IsValid (run fresh_log calls) (lines calls)
    × ((run fresh_log calls).recent_logs ≡ kept 10 [] calls)
run-recent_logs_example = run-recent_logs (codes "a.log") true calls

run-get_log_count_example :
    get_log_count (run fresh_log calls) error ≡ counted error (get_log_count fresh_log error) calls
run-get_log_count_example = run-get_log_count fresh_log calls error

one_line : kept 10 [] calls ≡ codes "[ERROR] gone" ∷ []
unfolding LogManager.log_line LogManager.level_to_string
one_line = refl

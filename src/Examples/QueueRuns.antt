-- ===== src/Examples/QueueRuns.antt =====
-- The programs around one queue on their own inputs.
use linux_iot_gateway.Common.{ℕ, true, List, [], ◌≡◌, ◌+◌, ◌*◌, codes, length}
use linux_iot_gateway.LogManager.{LogManager, new_log_manager, get_log_count, warning}
use linux_iot_gateway.ThreadSafeQueue.Threads.{new_machine, run}
use linux_iot_gateway.ThreadSafeQueue.Order.{in_turn, ended-consumed}
use linux_iot_gateway.ThreadSafeQueue.Progress.{Ended, rounds, rounds-Ended}
use linux_iot_gateway.QueuePrograms.{Line, number_client, numbers}
use linux_iot_gateway.QueuePrograms.Consumed.{consumed_in, add, number_client-Observes}
use linux_iot_gateway.GatewayPipeline.{client, new_gateway, test_inputs}
use linux_iot_gateway.GatewayPipeline.Counts.{valid_inputs, invalid_inputs, rounds-counters}

abbrev no_lines : List (Line ℕ)
no_lines = []

ended-consumed_example :
    consumed_in
      (run number_client (new_machine numbers no_lines) (rounds (4 * length numbers + 5))).shared
    ≡ in_turn add numbers []
ended-consumed_example =
    ended-consumed number_client consumed_in add number_client-Observes numbers no_lines
      (rounds (4 * length numbers + 5)) (rounds-Ended number_client numbers no_lines).1

abbrev demo_log : LogManager
demo_log = new_log_manager (codes "gateway_pipeline_demo.log") true

rounds-counters_example :
    let m = run client (new_gateway demo_log test_inputs) (rounds (4 * length test_inputs + 5)) in
    Ended client m
    × (m.shared.stats.accepted ≡ valid_inputs test_inputs)
    × (m.shared.stats.rejected ≡ invalid_inputs test_inputs)
    × (get_log_count m.shared.logger warning
        ≡ get_log_count demo_log warning + invalid_inputs test_inputs)
rounds-counters_example = rounds-counters demo_log test_inputs

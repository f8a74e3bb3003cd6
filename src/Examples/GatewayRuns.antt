-- ===== src/Examples/GatewayRuns.antt =====
-- The five inputs of the program, with a log that has just been opened.
use linux_iot_gateway.Common.{true, ◌≡◌, ◌+◌, ◌*◌, codes, length}
use linux_iot_gateway.LogManager.{LogManager, new_log_manager}
use linux_iot_gateway.GatewayAck.{Consumer, new_gateway, test_inputs}
use linux_iot_gateway.GatewayAck.Schedule.{run, numbered, answers_to}
use linux_iot_gateway.GatewayAck.Progress.{rounds, rounds-answers_to}

abbrev demo_log : LogManager
demo_log = new_log_manager (codes "gateway_ack_demo.log") true

rounds-answers_to_example :
    let g = run (new_gateway demo_log test_inputs) (rounds (4 * length test_inputs + 5)) in
    (g.consumer ≡ Consumer.ended) × (g.printed ≡ answers_to (numbered 0 test_inputs))
rounds-answers_to_example = rounds-answers_to demo_log test_inputs

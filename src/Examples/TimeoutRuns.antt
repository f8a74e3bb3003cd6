-- ===== src/Examples/TimeoutRuns.antt =====
-- The four commands of the program: the third is answered at its second attempt.
use linux_iot_gateway.Common.{true, List, [], ◌∷◌, ◌++◌, ◌≡◌, ◌+◌, ◌*◌, refl, codes, length}
use linux_iot_gateway.Common.OrderedMap
use linux_iot_gateway.ProtocolParser
use linux_iot_gateway.LogManager.{LogManager, new_log_manager}
use linux_iot_gateway.GatewayTimeout.{
  PendingRequest, Sender, Device, new_gateway, commands, ack_of, sender_step, device_step,
}
use linux_iot_gateway.GatewayTimeout.Schedule.{
  Turn, sender_turn, deadline_turn, device_turn, step, run, due,
}
use linux_iot_gateway.GatewayTimeout.SenderTurns.{Accounted}
use linux_iot_gateway.GatewayTimeout.Outcomes.{run-Accounted}
use linux_iot_gateway.GatewayTimeout.Settled.{IsSettled, run-IsSettled}
use linux_iot_gateway.GatewayTimeout.Progress.Rounds.{rounds, rounds-ended}

abbrev demo_log : LogManager
demo_log = new_log_manager (codes "gateway_timeout_demo.log") true

-- A request is sent and handled; the sender looks for its ACK, and takes it up.
abbrev sent : List Turn
sent = sender_turn ∷ sender_turn ∷ device_turn ∷ device_turn ∷ device_turn ∷ []

abbrev answered : List Turn
answered = sender_turn ∷ (sent ++ sender_turn ∷ sender_turn ∷ [])

-- Up to the ACK of request 3: its first attempt times out.
abbrev up_to_third : List Turn
up_to_third =
    answered
    ++ (answered
        ++ (sender_turn ∷ (sent ++ (deadline_turn ∷ sender_turn ∷ (sent ++ sender_turn ∷ [])))))

abbrev third : PendingRequest
third = record { sequence = 3; payload = codes "STOP"; attempt = 2 }

third_acknowledged :
    (run (new_gateway demo_log commands) up_to_third).sender
    ≡ Sender.acknowledged third (ack_of third) (codes "RELEASE" ∷ [])
unfolding new_gateway step sender_step device_step ProtocolParser.is_valid ProtocolParser.parse
    ProtocolParser.normalize_input OrderedMap.find OrderedMap.assign OrderedMap.insert
    OrderedMap.erase
third_acknowledged = refl

accounts : Accounted (due 0 commands) (run (new_gateway demo_log commands) up_to_third)
accounts = run-Accounted demo_log commands up_to_third

rounds-ended_example :
    let g = run (new_gateway demo_log commands) (rounds (18 * length commands + 6)) in
    (g.sender ≡ Sender.ended) × (g.device ≡ Device.ended) × (g.tx_queue ≡ [])
rounds-ended_example = rounds-ended demo_log commands

run-IsSettled_example :
    IsSettled
      (due 0 commands)
      (run (new_gateway demo_log commands) (rounds (18 * length commands + 6)))
run-IsSettled_example =
    run-IsSettled demo_log commands (rounds (18 * length commands + 6))
      (rounds-ended demo_log commands).0

whole_run :
    (run (new_gateway demo_log commands) (up_to_third ++ (sender_turn ∷ answered))).stats
    ≡ record { sent_frames = 5; acked = 4; timeouts = 1; retries = 1; failed = 0 }
unfolding new_gateway step sender_step device_step ProtocolParser.is_valid ProtocolParser.parse
    ProtocolParser.normalize_input OrderedMap.find OrderedMap.assign OrderedMap.insert
    OrderedMap.erase
whole_run = refl

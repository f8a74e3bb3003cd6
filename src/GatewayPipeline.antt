-- ===== src/GatewayPipeline.antt =====
-- cpp_modules/gateway_pipeline_demo: main.cpp, a producer of raw inputs and a consumer that parses
-- them, with a queue between their threads.
pub mod Counts
use linux_iot_gateway.Common.{
  ℕ, suc, ◌+◌, Bool, true, false, not, List, [], ◌∷◌, ◌++◌, Bytes, codes, if◌then◌else◌, Option,
  none, some,
}
use linux_iot_gateway.Common.Decimal.{to_string}
use linux_iot_gateway.ProtocolParser
use linux_iot_gateway.ProtocolParser.{Command}
use linux_iot_gateway.LogManager
use linux_iot_gateway.LogManager.{LogManager, new_log_manager, LogLevel, info, warning}
use linux_iot_gateway.ThreadSafeQueue.Threads.{Client, Machine, new_machine}

-- The two are of the type int; that they stay below 2 ^ 31 is left to the number of the inputs.
pub record PipelineStats : Type 0 where
  pub accepted : ℕ
  pub rejected : ℕ

-- What the threads use besides the queue and its flag; `sequence` is the producer's variable.
pub record Gateway : Type 0 where
  pub sequence : ℕ
  pub logger : LogManager
  pub stats : PipelineStats

abbrev pub test_inputs : List Bytes
test_inputs =
    codes "OPEN" ∷ codes "grab\r\n" ∷ codes "JUMP" ∷ codes "\tSTOP\t" ∷ codes "release\n" ∷ []

abbrev log : LogLevel → Bytes → Gateway → Gateway
log level message g = record g { logger = (LogManager.log g.logger level message).0 }

-- `++sequence` comes before the lock, and no other thread reads it.
unfoldable pub count_input : Gateway → Gateway
count_input g = record g { sequence = suc g.sequence }

unfoldable pub log_queued : Gateway → Gateway
log_queued g = log info (codes "Input producer queued command #" ++ to_string g.sequence) g

unfoldable pub log_producer_finished : Gateway → Gateway
log_producer_finished g = log info (codes "Input producer finished ") g

abbrev reject : Gateway → Gateway
reject g =
    log warning (codes "Rejected invalid gateway command")
      (record g { stats = record g.stats { rejected = suc g.stats.rejected } })

abbrev accept : Command → Gateway → Gateway
accept command g =
    let command_name = ProtocolParser.command_to_string command in
    let executor_command = ProtocolParser.to_executor_command command in
    log info (codes "Gateway command: " ++ command_name ++ codes " -> " ++ executor_command)
      (record g { stats = record g.stats { accepted = suc g.stats.accepted } })

-- Behind `lock.unlock()`.
unfoldable pub handle : Bytes → Gateway → Gateway
handle raw_input g =
    let command = ProtocolParser.parse raw_input in
    if not (ProtocolParser.is_valid command) then reject g else accept command g

unfoldable pub log_consumer_finished : Gateway → Gateway
log_consumer_finished g = log info (codes "Command consumer finished") g

-- `inputProducer` and `commandConsumer`, by what they do around the queue.
abbrev pub client : Client Bytes Gateway
client = record {
  while_pushing = λ raw_input. count_input;
  when_pushed = λ raw_input. log_queued;
  when_stopped = log_producer_finished;
  consume = handle;
  when_closed = log_consumer_finished;
}

-- The log as `main` sets it up.
unfoldable pub set_up : LogManager → LogManager
set_up l =
    LogManager.set_max_cached_logs
      (LogManager.set_auto_flush (LogManager.set_console_enabled l true) true) 50

-- The threads as `main` starts them.
unfoldable pub new_gateway : LogManager → List Bytes → Machine Bytes Gateway
new_gateway l inputs =
    new_machine inputs
      (record { sequence = 0; logger = set_up l; stats = record { accepted = 0; rejected = 0 } })

-- `main` up to the start of the threads, by whether the log file opens: `none` is the exit status 1.
unfoldable pub main : Bool → Option (Machine Bytes Gateway)
unfolding set_up new_gateway
main opens =
    let l = new_log_manager (codes "gateway_pipeline_demo.log") opens in
    if (set_up l).log_file.is_open then some (new_gateway l test_inputs) else none

-- ===== src/GatewayAck.antt =====
-- cpp_modules/gateway_ack_demo: main.cpp, a producer of raw commands and a consumer that answers
-- them, with a queue between their threads.
pub mod Schedule
pub mod Order
pub mod Answers
pub mod Progress
use linux_iot_gateway.Common.{
  ℕ, suc, ◌+◌, ◌%◌, ◌^◌, Bool, true, false, not, List, [], ◌∷◌, ◌++◌, Bytes, codes, if◌then◌else◌,
  Option, none, some,
}
use linux_iot_gateway.Common.Decimal.{to_string}
use linux_iot_gateway.ProtocolParser
use linux_iot_gateway.ProtocolParser.{Command}
use linux_iot_gateway.LogManager
use linux_iot_gateway.LogManager.{LogManager, new_log_manager, LogLevel, info, warning}

pub record RawCommand : Type 0 where
  pub sequence : ℕ
  pub source : Bytes
  pub payload : Bytes

pub data ResultCode : Type 0 where
  ok invalid_command execution_failed : ResultCode

pub record CommandResult : Type 0 where
  pub sequence : ℕ
  pub code : ResultCode
  pub command : Bytes
  pub executor_command : Bytes
  pub message : Bytes

pub record PipelineStats : Type 0 where
  pub received : ℕ
  pub accepted : ℕ
  pub rejected : ℕ
  pub ack_count : ℕ

-- Where the producer is: it has inputs left, or logs what it has queued, or ends.
pub data Producer : Type 0 where
  sends : List Bytes → Producer
  logs_queued : List Bytes → Producer
  logs_finished : Producer
  ended : Producer

-- Where the consumer is: it waits at the queue, or holds a command, or ends.
pub data Consumer : Type 0 where
  waits : Consumer
  holds : RawCommand → Consumer
  logs_finished : Consumer
  ended : Consumer

-- `sequence` is the producer's variable; `printed` is what `printResult` has put out.
pub record Gateway : Type 0 where
  pub command_queue : List RawCommand
  pub input_finished : Bool
  pub stats : PipelineStats
  pub sequence : ℕ
  pub producer : Producer
  pub consumer : Consumer
  pub logger : LogManager
  pub printed : List Bytes

unfoldable pub result_code_to_int : ResultCode → ℕ
result_code_to_int ok = 0
result_code_to_int invalid_command = 1001
result_code_to_int execution_failed = 1002

unfoldable pub result_code_to_string : ResultCode → Bytes
result_code_to_string ok = codes "OK"
result_code_to_string invalid_command = codes "INVALID_COMMAND"
result_code_to_string execution_failed = codes "EXECUTION_FAILED"

abbrev print_fields : CommandResult → Bytes
print_fields result =
    codes " seq="
    ++ to_string result.sequence
    ++ codes " code="
    ++ to_string (result_code_to_int result.code)
    ++ codes " result="
    ++ result_code_to_string result.code

abbrev print_error : CommandResult → Bytes
print_error result =
    codes "[ERROR]" ++ print_fields result ++ codes " message=" ++ result.message ++ b'\n' ∷ []

unfoldable pub print_result : CommandResult → Bytes
print_result result = elim result.code [
  | ok ↦
      codes "[ACK]"
      ++ print_fields result
      ++ codes " command="
      ++ result.command
      ++ codes " executor="
      ++ result.executor_command
      ++ b'\n' ∷ []
  | invalid_command ↦ print_error result
  | execution_failed ↦ print_error result
]

abbrev pub test_inputs : List Bytes
test_inputs =
    codes "OPEN" ∷ codes " grab\r\n" ∷ codes "JUMP" ∷ codes "\tSTOP\t" ∷ codes "release\n" ∷ []

-- `++sequence`, and the push under `queueMutex`, which counts it.
unfoldable pub push_next : Bytes → List Bytes → Gateway → Gateway
push_next payload rest g =
    let sequence = (g.sequence + 1) % 2 ^ 32 in
    record g {
      sequence = sequence;
      command_queue =
          g.command_queue
          ++ record { sequence = sequence; source = codes "SIMULATED_UART"; payload = payload }
            ∷ [];
      stats = record g.stats { received = suc g.stats.received };
      producer = logs_queued rest;
    }

unfoldable pub producer_step : Producer → Gateway → Gateway
unfolding push_next
producer_step (sends (payload ∷ rest)) g = push_next payload rest g
producer_step (logs_queued rest) g = record g {
  logger = (LogManager.log g.logger info (codes "Queued command seq=" ++ to_string g.sequence)).0;
  producer = sends rest;
}
producer_step (sends []) g = record g { input_finished = true; producer = Producer.logs_finished }
producer_step Producer.logs_finished g = record g {
  logger = (LogManager.log g.logger info (codes "Input producer finished")).0;
  producer = Producer.ended;
}
producer_step Producer.ended g = g

-- Under `queueMutex`: woken when there is a command, or when the input has finished.
unfoldable pub take_next : List RawCommand → Gateway → Gateway
take_next [] g = if g.input_finished then record g { consumer = Consumer.logs_finished } else g
take_next (raw_command ∷ rest) g = record g { command_queue = rest; consumer = holds raw_command }

abbrev rejected_result : RawCommand → CommandResult
rejected_result raw_command = record {
  sequence = raw_command.sequence;
  code = invalid_command;
  command = codes "UNKNOWN";
  executor_command = codes "HAND_NONE";
  message = codes "invalid gateway command";
}

abbrev accepted_result : RawCommand → Command → CommandResult
accepted_result raw_command command = record {
  sequence = raw_command.sequence;
  code = ok;
  command = ProtocolParser.command_to_string command;
  executor_command = ProtocolParser.to_executor_command command;
  message = codes "command accepted";
}

abbrev accepted_line : CommandResult → Bytes
accepted_line result =
    codes "Command seq="
    ++ to_string result.sequence
    ++ codes " "
    ++ result.command
    ++ codes " -> "
    ++ result.executor_command

abbrev reject : RawCommand → Gateway → Gateway
reject raw_command g = record g {
  stats = record g.stats { rejected = suc g.stats.rejected; ack_count = suc g.stats.ack_count };
  logger =
      (LogManager.log g.logger warning
        (codes "Rejected command seq=" ++ to_string raw_command.sequence)).0;
  printed = g.printed ++ print_result (rejected_result raw_command) ∷ [];
  consumer = waits;
}

abbrev accept : RawCommand → Command → Gateway → Gateway
accept raw_command command g =
    let result = accepted_result raw_command command in
    record g {
      stats = record g.stats { accepted = suc g.stats.accepted; ack_count = suc g.stats.ack_count };
      logger = (LogManager.log g.logger info (accepted_line result)).0;
      printed = g.printed ++ print_result result ∷ [];
      consumer = waits;
    }

-- Behind `lock.unlock()`.
unfoldable pub handle : RawCommand → Gateway → Gateway
handle raw_command g =
    let command = ProtocolParser.parse raw_command.payload in
    if not (ProtocolParser.is_valid command)
    then reject raw_command g
    else accept raw_command command g

unfoldable pub consumer_step : Consumer → Gateway → Gateway
unfolding take_next handle
consumer_step waits g = take_next g.command_queue g
consumer_step (holds raw_command) g = handle raw_command g
consumer_step Consumer.logs_finished g = record g {
  logger = (LogManager.log g.logger info (codes "Command consumer finished")).0;
  consumer = Consumer.ended;
}
consumer_step Consumer.ended g = g

-- The gateway as `main` starts the threads.
unfoldable pub new_gateway : LogManager → List Bytes → Gateway
new_gateway logger inputs = record {
  command_queue = [];
  input_finished = false;
  stats = record { received = 0; accepted = 0; rejected = 0; ack_count = 0 };
  sequence = 0;
  producer = sends inputs;
  consumer = waits;
  logger = logger;
  printed = [];
}

-- `main` up to the start of the threads, by whether the log file opens: `none` is the exit status 1.
unfoldable pub main : Bool → Option Gateway
unfolding new_gateway
main opens =
    let l = new_log_manager (codes "gateway_ack_demo.log") opens in
    let logger =
      LogManager.set_max_cached_logs
        (LogManager.set_auto_flush (LogManager.set_console_enabled l true) true) 50 in
    if logger.log_file.is_open then some (new_gateway logger test_inputs) else none

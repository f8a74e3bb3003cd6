-- ===== src/GatewayTimeout.antt =====
-- cpp_modules/gateway_timeout_demo: main.cpp, a sender of commands that waits for the ACK of each
-- with a deadline and one retry, and a simulated device, with a queue and a map between them.
pub mod Schedule
pub mod Accounts
pub mod SenderTurns
pub mod Outcomes
pub mod Loss
pub mod Settled
pub mod Progress
use linux_iot_gateway.Common.{
  ℕ, suc, ◌+◌, ◌%◌, ◌^◌, Bool, true, false, not, ◌&&◌, List, [], ◌∷◌, ◌++◌, Option, none, some,
  Bytes, codes, if◌then◌else◌, ◌==◌, leb,
}
use linux_iot_gateway.Common.Decimal.{to_string}
use linux_iot_gateway.Common.OrderedMap
use linux_iot_gateway.ProtocolParser
use linux_iot_gateway.LogManager
use linux_iot_gateway.LogManager.{LogManager, new_log_manager, LogLevel, info, warning, error}

abbrev pub max_retries : ℕ
max_retries = 1

pub record PendingRequest : Type 0 where
  pub sequence : ℕ
  pub payload : Bytes
  pub attempt : ℕ

pub record AckFrame : Type 0 where
  pub sequence : ℕ
  pub success : Bool
  pub message : Bytes

pub record RetryStats : Type 0 where
  pub sent_frames : ℕ
  pub acked : ℕ
  pub timeouts : ℕ
  pub retries : ℕ
  pub failed : ℕ

-- Where `commandSender` is: the commands behind the present one are its last argument.
pub data Sender : Type 0 where
  next : ℕ → List Bytes → Sender
  sends : PendingRequest → List Bytes → Sender
  logs_send : PendingRequest → List Bytes → Sender
  waits : PendingRequest → List Bytes → Sender
  acknowledged : PendingRequest → AckFrame → List Bytes → Sender
  timed_out : PendingRequest → List Bytes → Sender
  closes : Sender
  logs_finished : Sender
  ended : Sender

-- Where `simulatedDevice` is.
pub data Device : Type 0 where
  waits : Device
  logs_received : PendingRequest → Device
  logs_loss : Device
  stores_ack : PendingRequest → Device
  logs_finished : Device
  ended : Device

-- The variables of the namespace and of `main`, and what the sender has put out.
pub record Gateway : Type 0 where
  pub tx_queue : List PendingRequest
  pub transmission_finished : Bool
  pub ack_map : List (ℕ × AckFrame)
  pub stats : RetryStats
  pub sender : Sender
  pub device : Device
  pub logger : LogManager
  pub printed : List Bytes

abbrev log : Gateway → LogLevel → Bytes → LogManager
log g level message = (LogManager.log g.logger level message).0

-- Under `txMutex`: woken when there is a request, or when the transmission has finished.
unfoldable pub take_request : List PendingRequest → Gateway → Gateway
take_request [] g =
    if g.transmission_finished then record g { device = Device.logs_finished } else g
take_request (request ∷ rest) g = record g { tx_queue = rest; device = logs_received request }

-- The first attempt of request 3 is lost.
abbrev pub is_lost : PendingRequest → Bool
is_lost request = request.sequence == 3 && request.attempt == 1

abbrev pub ack_of : PendingRequest → AckFrame
ack_of request = record { sequence = request.sequence; success = true; message = codes "OK" }

unfoldable pub device_step : Device → Gateway → Gateway
unfolding take_request
device_step waits g = take_request g.tx_queue g
device_step (logs_received request) g = record g {
  logger = log g info (
      codes "Device received seq="
      ++ to_string request.sequence
      ++ codes "attempt="
      ++ to_string request.attempt);
  device = if is_lost request then logs_loss else stores_ack request;
}
device_step logs_loss g = record g {
  logger = log g warning (codes "Simulated ACK loss for seq=3");
  device = waits;
}
device_step (stores_ack request) g = record g {
  ack_map = OrderedMap.assign request.sequence (ack_of request) g.ack_map;
  device = waits;
}
device_step Device.logs_finished g = record g {
  logger = log g info (codes "Simulated device finished");
  device = Device.ended;
}
device_step Device.ended g = g

-- The head of the loop over the commands: `++sequence`, and an invalid command is passed over.
unfoldable pub next_command : ℕ → List Bytes → Sender
next_command s [] = closes
next_command s (payload ∷ rest) =
    let sequence = (s + 1) % 2 ^ 32 in
    if not (ProtocolParser.is_valid (ProtocolParser.parse payload))
    then next sequence rest
    else sends (record { sequence = sequence; payload = payload; attempt = 1 }) rest

-- `wait_for` under `ackMutex`, when its predicate is looked at. At the deadline it gives up.
unfoldable pub found_ack : Option AckFrame → Bool → PendingRequest → List Bytes → Gateway → Gateway
found_ack none deadline request rest g =
    if deadline then record g { sender = timed_out request rest } else g
found_ack (some ack) deadline request rest g = record g {
  ack_map = OrderedMap.erase request.sequence g.ack_map;
  sender = acknowledged request ack rest;
}

unfoldable pub look_for_ack : Bool → PendingRequest → List Bytes → Gateway → Gateway
unfolding found_ack
look_for_ack deadline request rest g =
    found_ack (OrderedMap.find request.sequence g.ack_map) deadline request rest g

abbrev pub ack_line : AckFrame → Bytes
ack_line ack =
    codes "[ACK] seq=" ++ to_string ack.sequence ++ codes " message=" ++ ack.message ++ b'\n' ∷ []

abbrev pub timeout_line : ℕ → ℕ → Bytes
timeout_line sequence attempt =
    codes "[TIMEOUT] seq="
    ++ to_string sequence
    ++ codes " attempt="
    ++ to_string attempt
    ++ b'\n' ∷ []

abbrev pub retry_line : ℕ → Bytes
retry_line sequence = codes "[RETRY] seq=" ++ to_string sequence ++ b'\n' ∷ []

abbrev pub failed_line : ℕ → Bytes
failed_line sequence = codes "[FAILED] seq=" ++ to_string sequence ++ b'\n' ∷ []

abbrev retry : PendingRequest → List Bytes → Gateway → Gateway
retry request rest g = record g {
  stats = record g.stats { timeouts = suc g.stats.timeouts; retries = suc g.stats.retries };
  printed =
      g.printed ++ timeout_line request.sequence request.attempt ∷ retry_line request.sequence ∷ [];
  sender = sends (record request { attempt = suc request.attempt }) rest;
}

abbrev give_up : PendingRequest → List Bytes → Gateway → Gateway
give_up request rest g = record g {
  stats = record g.stats { timeouts = suc g.stats.timeouts; failed = suc g.stats.failed };
  printed =
      g.printed
      ++ timeout_line request.sequence request.attempt ∷ failed_line request.sequence ∷ [];
  logger = log g error (codes "Request failed seq=" ++ to_string request.sequence);
  sender = next request.sequence rest;
}

-- What follows a wait with no ACK.
unfoldable pub after_timeout : PendingRequest → List Bytes → Gateway → Gateway
after_timeout request rest g =
    if leb request.attempt max_retries then retry request rest g else give_up request rest g

-- The flag says whether a deadline has come.
unfoldable pub sender_step : Bool → Sender → Gateway → Gateway
unfolding next_command look_for_ack after_timeout
sender_step deadline (next sequence rest) g = record g { sender = next_command sequence rest }
sender_step deadline (sends request rest) g = record g {
  tx_queue = g.tx_queue ++ request ∷ [];
  stats = record g.stats { sent_frames = suc g.stats.sent_frames };
  sender = logs_send request rest;
}
sender_step deadline (logs_send request rest) g = record g {
  logger = log g info (
      codes "Send seq="
      ++ to_string request.sequence
      ++ codes " attempt="
      ++ to_string request.attempt);
  sender = Sender.waits request rest;
}
sender_step deadline (Sender.waits request rest) g = look_for_ack deadline request rest g
sender_step deadline (acknowledged request ack rest) g = record g {
  stats = record g.stats { acked = suc g.stats.acked };
  logger = log g info (codes "ACK received seq=" ++ to_string ack.sequence);
  printed = g.printed ++ ack_line ack ∷ [];
  sender = next request.sequence rest;
}
sender_step deadline (timed_out request rest) g = after_timeout request rest g
sender_step deadline closes g = record g {
  transmission_finished = true;
  sender = Sender.logs_finished;
}
sender_step deadline Sender.logs_finished g = record g {
  logger = log g info (codes "Command sender finished");
  sender = Sender.ended;
}
sender_step deadline Sender.ended g = g

abbrev pub commands : List Bytes
commands = codes "OPEN" ∷ codes "GRAB" ∷ codes "STOP" ∷ codes "RELEASE" ∷ []

-- The gateway as `main` starts the threads.
unfoldable pub new_gateway : LogManager → List Bytes → Gateway
new_gateway logger inputs = record {
  tx_queue = [];
  transmission_finished = false;
  ack_map = [];
  stats = record { sent_frames = 0; acked = 0; timeouts = 0; retries = 0; failed = 0 };
  sender = next 0 inputs;
  device = waits;
  logger = logger;
  printed = [];
}

-- `main` up to the start of the threads, by whether the log file opens: `none` is the exit status 1.
unfoldable pub main : Bool → Option Gateway
unfolding new_gateway
main opens =
    let l = new_log_manager (codes "gateway_timeout_demo.log") opens in
    let logger =
      LogManager.set_max_cached_logs
        (LogManager.set_auto_flush (LogManager.set_console_enabled l true) true) 50 in
    if logger.log_file.is_open then some (new_gateway logger commands) else none

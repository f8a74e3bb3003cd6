-- ===== src/HandBridge/Node/Schedule.antt =====
-- The steps of the node in any order: what the callbacks, the threads and the device do next.
use linux_iot_gateway.Common.{ℕ, List, [], ◌∷◌, Bytes}
use linux_iot_gateway.HandBridge.Uart.{WriteReply}
use linux_iot_gateway.HandBridge.Node
use linux_iot_gateway.HandBridge.Node.{Node, Callback}

pub data Event : Type 0 where
  command : Bytes → Event
  callback_runs : Event
  tx_runs : List WriteReply → ℕ → Event
  byte_arrives : ℕ → ℕ → Event
  retry_runs : ℕ → Event
  flags_set queue_closed : Event

-- Callbacks do not overlap: a command is taken when no callback runs.
abbrev pub when_idle : Callback → Node → Node → Node
when_idle Callback.idle next n = next
when_idle c next n = n

unfoldable pub step : Node → Event → Node
step n (command cmd) = when_idle n.callback (Node.callback_begin cmd n) n
step n callback_runs = Node.callback_step n.callback n
step n (tx_runs replies now) = Node.tx_step n.tx replies now n
step n (byte_arrives ch now) = Node.rx_byte ch now n
step n (retry_runs now) = Node.retry_step n.retry now n
step n flags_set = Node.shutdown_flags n
step n queue_closed = Node.shutdown_queue n

unfoldable pub run : Node → List Event → Node
run n [] = n
run n (e ∷ es) = run (step n e) es

-- ===== src/HandBridge/Node.antt =====
-- ros2_ws/src/hand_bridge/src/hand_bridge_node.cpp: the node, its callbacks and its three threads.
-- Each function below is one critical section, or one step of a thread between two of them; the
-- threads interleave at these steps. A thread's local variables are a field of the node.
pub mod Schedule
pub mod Sound
pub mod Polled
pub mod Invariant
pub mod Callbacks
pub mod Threads
pub mod Safety
pub mod Latest
pub mod PolicyCalls
pub mod Preemption
pub mod Answers
pub mod Registration
pub mod Tracking
pub mod Status
pub mod Priority
use linux_iot_gateway.Common.{
  ℕ, suc, ◌+◌, ◌%◌, ◌^◌, Bool, true, false, not, ◌&&◌, ◌||◌, List, [], ◌∷◌, ◌++◌, Option, none,
  some, Bytes, codes, ltb, ◌==◌, if◌then◌else◌, is_empty, length, list_eq,
}
use linux_iot_gateway.Common.Decimal.{to_string}
use linux_iot_gateway.HandBridge.AckParser.{parse_ack}
use linux_iot_gateway.HandBridge.RetryPolicy
use linux_iot_gateway.HandBridge.RetryPolicy.{RetryPolicy, RetryFrame, RequestState}
use linux_iot_gateway.HandBridge.Uart.{WriteReply, Written, returned, waiting, write_uart}

-- `command_callback`, between its critical sections: it has a number, it has registered the
-- request, or it could not queue it.
pub data Callback : Type 0 where
  idle : Callback
  numbered registered : RetryFrame → Bool → Callback
  unsent : RetryFrame → Callback

pub data TxWorker : Type 0 where
  waits : TxWorker
  holds : RetryFrame → TxWorker
  stopped : TxWorker

pub data RetryWorker : Type 0 where
  polls : RetryWorker
  queues : List RetryFrame → RetryWorker
  stopped : RetryWorker

pub record RxWorker : Type 0 where
  pub rx_line : Bytes
  pub discard_line : Bool

-- `transmitted` records the frames that `write_uart` put out whole; the node has no such field.
pub record Node : Type 0 where
  pub uart_fd : Option ℕ
  pub next_seq : ℕ
  pub latest_requested_seq : ℕ
  pub command_queue : List RetryFrame
  pub stop_worker : Bool
  pub rx_stop : Bool
  pub retry_stop : Bool
  pub retry_policy : RetryPolicy
  pub callback : Callback
  pub tx : TxWorker
  pub retry : RetryWorker
  pub rx : RxWorker
  pub transmitted : List RetryFrame

-- The constructor, after `open_uart`; without a port no thread is started.
unfoldable pub new_node : Option ℕ → Node
unfolding RetryPolicy.empty
new_node uart_fd = record {
  uart_fd = uart_fd;
  next_seq = 1;
  latest_requested_seq = 0;
  command_queue = [];
  stop_worker = false;
  rx_stop = false;
  retry_stop = false;
  retry_policy = RetryPolicy.empty;
  callback = idle;
  tx = elim uart_fd [ none ↦ TxWorker.stopped | some _ ↦ waits ];
  retry = elim uart_fd [ none ↦ RetryWorker.stopped | some _ ↦ polls ];
  rx = record { rx_line = []; discard_line = false };
  transmitted = [];
}

unfoldable pub valid_command : Bytes → Bool
valid_command cmd =
    list_eq cmd (codes "OPEN")
    || list_eq cmd (codes "GRAB")
    || list_eq cmd (codes "RELEASE")
    || list_eq cmd (codes "STOP")

abbrev uart_line : Bytes → ℕ → Bytes
uart_line action seq =
    codes "SEQ:" ++ to_string seq ++ codes " CMD:" ++ action ++ b'\r' ∷ b'\n' ∷ []

unfoldable pub map_to_uart_command : Bytes → ℕ → Bytes
map_to_uart_command cmd seq =
    if list_eq cmd (codes "OPEN")
    then uart_line (codes "HAND_OPEN") seq
    else if list_eq cmd (codes "GRAB")
    then uart_line (codes "HAND_GRAB") seq
    else if list_eq cmd (codes "RELEASE")
    then uart_line (codes "HAND_RELEASE") seq
    else if list_eq cmd (codes "STOP")
    then uart_line (codes "HAND_STOP") seq
    else []

unfoldable pub request_state_to_string : RequestState → Bytes
request_state_to_string RequestState.queued = codes "QUEUED"
request_state_to_string RequestState.waiting_ack = codes "WAITING_ACK"
request_state_to_string RequestState.executing = codes "EXECUTING"
request_state_to_string RequestState.retry_queued = codes "RETRY_QUEUED"
request_state_to_string RequestState.succeeded = codes "SUCCEEDED"
request_state_to_string RequestState.preempted = codes "PREEMPTED"
request_state_to_string RequestState.busy = codes "BUSY"
request_state_to_string RequestState.error = codes "ERROR"
request_state_to_string RequestState.superseded = codes "SUPERSEDED"
request_state_to_string RequestState.result_unknown = codes "RESULT_UNKNOWN"

-- `command_callback` up to its first lock: the checks, and a number from `next_seq_`, whose
-- `fetch_add` wraps in 32 bits.
unfoldable pub callback_begin : Bytes → Node → Node
callback_begin cmd n = if not (valid_command cmd) then n else elim n.uart_fd [
  | none ↦ n
  | some _ ↦
      let seq = n.next_seq in
      let frame = map_to_uart_command cmd seq in
      let is_stop = list_eq cmd (codes "STOP") in
      let n' = record n { next_seq = (seq + 1) % 2 ^ 32 } in
      if seq == 0
      then n'
      else if is_empty frame
      then n'
      else record n' { callback = numbered (record { seq = seq; frame = frame }) is_stop }
]

-- Under `ack_mutex_`: a STOP cancels the others, and the request is registered.
unfoldable pub callback_register : RetryFrame → Bool → Node → Node
callback_register f is_stop n =
    let policy = if is_stop then RetryPolicy.cancel_non_stop n.retry_policy else n.retry_policy in
    let (policy', started) = RetryPolicy.start policy f.seq f.frame is_stop in
    if started
    then record n {
      retry_policy = policy';
      latest_requested_seq = f.seq;
      callback = registered f is_stop;
    }
    else record n { retry_policy = policy'; callback = idle }

-- Under `queue_mutex_`: refused once the worker is to stop; a STOP goes to the front.
unfoldable pub enqueue_uart_command : RetryFrame → Bool → Node → Node × Bool
enqueue_uart_command f high_priority n =
    if n.stop_worker
    then (n, false)
    else if high_priority
    then (record n { command_queue = f ∷ n.command_queue }, true)
    else (record n { command_queue = n.command_queue ++ f ∷ [] }, true)

unfoldable pub callback_enqueue : RetryFrame → Bool → Node → Node
unfolding enqueue_uart_command
callback_enqueue f is_stop n =
    let (n', queued) = enqueue_uart_command f is_stop n in
    if queued then record n' { callback = idle } else record n' { callback = unsent f }

unfoldable pub callback_fail : RetryFrame → Node → Node
callback_fail f n = record n {
  retry_policy = (RetryPolicy.mark_send_failed n.retry_policy f.seq).0;
  callback = idle;
}

-- The next section of the callback that runs; `callback_begin` starts one.
unfoldable pub callback_step : Callback → Node → Node
unfolding callback_register callback_enqueue callback_fail
callback_step idle n = n
callback_step (numbered f is_stop) n = callback_register f is_stop n
callback_step (registered f is_stop) n = callback_enqueue f is_stop n
callback_step (unsent f) n = callback_fail f n

-- The reply of `status_callback`: `success` and `message`.
unfoldable pub status_callback : Node → Bool × Bytes
status_callback n =
    let seq = n.latest_requested_seq in
    if seq == 0
    then (false, codes "No command submitted")
    else elim (RetryPolicy.find n.retry_policy seq) [
      | none ↦ (false, codes "Request not found")
      | some item ↦ (
        elim item.state [ RequestState.succeeded ↦ true | _ ↦ false ],
        codes "SEQ:" ++ to_string seq ++ codes " STATUS:" ++ request_state_to_string item.state,
      )
    ]

-- `uart_tx_worker` under `queue_mutex_`: woken when it is to stop, or when there is a frame.
abbrev take_frame : List RetryFrame → Node → Node
take_frame [] n = n
take_frame (f ∷ rest) n = record n { command_queue = rest; tx = holds f }

unfoldable pub tx_take : Node → Node
tx_take n =
    if n.stop_worker then record n { tx = TxWorker.stopped } else take_frame n.command_queue n

-- `uart_tx_worker` under `ack_mutex_`, with the answers of `write`; while the loop of `write_uart`
-- waits, the section does not end.
abbrev finish_send : RetryFrame → ℕ → Written → Node → Node
finish_send f now (returned true out) n = record n {
  retry_policy = (RetryPolicy.mark_sent n.retry_policy f.seq now).0;
  tx = waits;
  transmitted = n.transmitted ++ f ∷ [];
}
finish_send f now (returned false out) n = record n {
  retry_policy = (RetryPolicy.mark_send_failed n.retry_policy f.seq).0;
  tx = waits;
}
finish_send f now (waiting out) n = n

unfoldable pub tx_send : RetryFrame → List WriteReply → ℕ → Node → Node
tx_send f replies now n =
    if RetryPolicy.should_transmit n.retry_policy f.seq
    then finish_send f now (write_uart n.uart_fd f.frame replies) n
    else record n { tx = waits }

unfoldable pub tx_step : TxWorker → List WriteReply → ℕ → Node → Node
unfolding tx_take tx_send
tx_step waits replies now n = tx_take n
tx_step (holds f) replies now n = tx_send f replies now n
tx_step TxWorker.stopped replies now n = n

abbrev max_line : ℕ
max_line = 95

-- `uart_rx_worker` on a newline: a whole line is parsed, and an answer goes to the policy.
unfoldable pub rx_newline : ℕ → RxWorker → RetryPolicy → RetryPolicy
rx_newline now rx policy =
    if not rx.discard_line && not (is_empty rx.rx_line)
    then elim (parse_ack (rx.rx_line ++ b'\n' ∷ [])) [
      | none ↦ policy
      | some (seq, status) ↦ (RetryPolicy.on_ack policy seq status now).0
    ]
    else policy

-- Any other byte: a line that grows too long is dropped up to its end.
unfoldable pub rx_store : ℕ → RxWorker → RxWorker
rx_store ch rx =
    if not rx.discard_line
    then if ltb (length rx.rx_line) max_line
      then record rx { rx_line = rx.rx_line ++ ch ∷ [] }
      else record rx { rx_line = []; discard_line = true }
    else rx

-- One byte of what `read` returned. The loop looks at `rx_stop_` before it reads, so that bytes of one
-- read may come behind the stop; here any bytes may.
unfoldable pub rx_byte : ℕ → ℕ → Node → Node
unfolding rx_newline rx_store
rx_byte ch now n =
    if ch == b'\n'
    then record n {
      retry_policy = rx_newline now n.rx n.retry_policy;
      rx = record { rx_line = []; discard_line = false };
    }
    else record n { rx = rx_store ch n.rx }

-- `retry_worker`: a round polls under `ack_mutex_` and queues the frames one by one.
unfoldable pub retry_poll : ℕ → Node → Node
retry_poll now n =
    if n.retry_stop
    then record n { retry = RetryWorker.stopped }
    else let (policy, frames) = RetryPolicy.poll n.retry_policy now in
      record n { retry_policy = policy; retry = queues frames }

unfoldable pub retry_queue : RetryFrame → List RetryFrame → Node → Node
unfolding enqueue_uart_command
retry_queue f rest n =
    if n.retry_stop
    then record n { retry = polls }
    else record (enqueue_uart_command f false n).0 { retry = queues rest }

unfoldable pub retry_step : RetryWorker → ℕ → Node → Node
unfolding retry_poll retry_queue
retry_step polls now n = retry_poll now n
retry_step (queues []) now n = record n { retry = polls }
retry_step (queues (f ∷ rest)) now n = retry_queue f rest n
retry_step RetryWorker.stopped now n = n

-- The destructor: the flags, then the queue under `queue_mutex_`.
unfoldable pub shutdown_flags : Node → Node
shutdown_flags n = record n { retry_stop = true; rx_stop = true }

unfoldable pub shutdown_queue : Node → Node
shutdown_queue n = record n { stop_worker = true; command_queue = [] }

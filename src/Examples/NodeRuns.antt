-- ===== src/Examples/NodeRuns.antt =====
-- A node with an open port, and one in which a STOP is about to be registered while a GRAB waits.
use linux_iot_gateway.Common.{
  ℕ, Option, suc, ◌≤◌, ◌++◌, true, false, List, [], ◌∷◌, some, none, ◌≡◌, refl, codes, arith,
}
use linux_iot_gateway.Common.OrderedMap
use linux_iot_gateway.HandBridge.AckParser.{AckStatus}
use linux_iot_gateway.HandBridge.RetryPolicy
use linux_iot_gateway.HandBridge.RetryPolicy.{
  RetryPolicy, Request, RetryFrame, waiting_ack, max_retries,
}
use linux_iot_gateway.HandBridge.RetryPolicy.Retries.{count_seq}
use linux_iot_gateway.HandBridge.Uart.{wrote, returned, write_uart}
use linux_iot_gateway.HandBridge.Uart
use linux_iot_gateway.HandBridge.Node
use linux_iot_gateway.HandBridge.Node.{Node, Callback, TxWorker, RetryWorker}
use linux_iot_gateway.HandBridge.Node.Schedule.{Event, run}
use linux_iot_gateway.HandBridge.Node.Safety.{transmitted-count_le}
use linux_iot_gateway.HandBridge.Node.Preemption.{stop_silences}
use linux_iot_gateway.HandBridge.Node.Answers.{fresh, arrivals, answer_text, run-answer}
use linux_iot_gateway.HandBridge.Node.Registration.{LastRegistered}
use linux_iot_gateway.HandBridge.Node.Status.{StatusReply, run-StatusReply}
use linux_iot_gateway.HandBridge.Node.Priority.{stop_goes_next}

-- An OPEN is submitted, sent and answered.
abbrev one_command : List Event
one_command =
    Event.command (codes "OPEN")
    ∷ Event.callback_runs
    ∷ Event.callback_runs
    ∷ Event.tx_runs [] 0
    ∷ Event.tx_runs (wrote 21 ∷ []) 0
    ∷ arrivals (codes "ACK:1 OK\r\n") 5

transmitted-count_le_example :
    count_seq 1 (run (Node.new_node (some 3)) one_command).transmitted ≤ suc max_retries
transmitted-count_le_example = transmitted-count_le (some 3) one_command 1

run-StatusReply_example :
    let n = run (Node.new_node (some 3)) one_command in
    (last : Option ℕ) × LastRegistered (Node.new_node (some 3)) none one_command last
    × StatusReply last n.retry_policy (Node.status_callback n)
run-StatusReply_example = run-StatusReply (some 3) one_command

-- A GRAB waits for its answer and for room on the wire; a STOP has got its number.
abbrev grab_frame : RetryFrame
grab_frame = record { seq = 1; frame = codes "SEQ:1 CMD:HAND_GRAB\r\n" }

abbrev stop_frame : RetryFrame
stop_frame = record { seq = 2; frame = codes "STOP" }

abbrev grab_request : Request
grab_request = record {
  seq = 1;
  frame = grab_frame.frame;
  is_stop = false;
  state = waiting_ack;
  retries_used = 1;
  deadline = 1500000000;
}

abbrev stopping : Node
stopping = record {
  uart_fd = some 3;
  next_seq = 3;
  latest_requested_seq = 1;
  command_queue = grab_frame ∷ [];
  stop_worker = false;
  rx_stop = false;
  retry_stop = false;
  retry_policy = record { requests = (1, grab_request) ∷ [] };
  callback = Callback.numbered stop_frame true;
  tx = TxWorker.waits;
  retry = RetryWorker.queues [];
  rx = fresh;
  transmitted = grab_frame ∷ [];
}

stopping-find : RetryPolicy.find stopping.retry_policy 1 ≡ some grab_request
unfolding RetryPolicy.find OrderedMap.find
stopping-find = refl

stopping-new : RetryPolicy.find stopping.retry_policy 2 ≡ none
unfolding RetryPolicy.find OrderedMap.find
stopping-new = refl

stop_silences_example :
    count_seq 1
      (run stopping
        (Event.callback_runs ∷ Event.tx_runs [] 0 ∷ Event.retry_runs 9 ∷ [])).transmitted
    ≡ count_seq 1 stopping.transmitted
stop_silences_example =
    stop_silences stopping stop_frame (Event.tx_runs [] 0 ∷ Event.retry_runs 9 ∷ []) 1 refl
      stopping-find refl

stop_is_written : write_uart (some 3) (codes "STOP") (wrote 4 ∷ []) ≡ returned true (codes "STOP")
unfolding write_uart Uart.write_loop
stop_is_written = refl

stop_goes_next_example :
    (run stopping (
      Event.callback_runs
      ∷ Event.callback_runs
      ∷ Event.tx_runs [] 0
      ∷ Event.tx_runs (wrote 4 ∷ []) 0
      ∷ [])).transmitted
    ≡ stopping.transmitted ++ stop_frame ∷ []
stop_goes_next_example =
    stop_goes_next stopping stop_frame (wrote 4 ∷ []) 0 refl refl refl stopping-new refl
      stop_is_written

run-answer_example :
    run stopping (arrivals (answer_text 1 AckStatus.in_progress ++ b'\n' ∷ []) 8)
    ≡ record stopping {
      retry_policy = (RetryPolicy.on_ack stopping.retry_policy 1 AckStatus.in_progress 8).0;
      rx = fresh;
    }
run-answer_example = run-answer stopping 1 AckStatus.in_progress 8 refl (omega arith)

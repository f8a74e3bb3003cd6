-- ===== src/HandBridge/Node/Safety.antt =====
-- What holds of the node after any sequence of steps from its construction.
use linux_iot_gateway.Common.{
  ℕ, suc, ◌≤◌, true, List, [], ◌∷◌, Option, none, some, ◌≡◌, refl, sym, ◌∙◌, inl, inr, arith, Bytes,
  All, All-map, Option-cases,
}
use linux_iot_gateway.Common.OrderedMap
use linux_iot_gateway.HandBridge.RetryPolicy
use linux_iot_gateway.HandBridge.RetryPolicy.{
  RetryPolicy, Request, RetryFrame, is_sendable, max_retries,
}
use linux_iot_gateway.HandBridge.RetryPolicy.Invariant.{
  IsValid as PolicyIsValid, find-RequestIsValid,
}
use linux_iot_gateway.HandBridge.RetryPolicy.Retries.{count_seq}
use linux_iot_gateway.HandBridge.Node
use linux_iot_gateway.HandBridge.Node.{
  Node, Callback, TxWorker, RetryWorker, valid_command, map_to_uart_command,
}
use linux_iot_gateway.HandBridge.Node.Schedule
use linux_iot_gateway.HandBridge.Node.Schedule.{Event, step, run}
use linux_iot_gateway.HandBridge.Node.Sound.{allowance, Known, EncodedEntry, SendsFit}
use linux_iot_gateway.HandBridge.Node.Invariant.{IsValid}
use linux_iot_gateway.HandBridge.Node.Callbacks.{callback_begin-IsValid, callback_step-IsValid}
use linux_iot_gateway.HandBridge.Node.Threads.{tx_step-IsValid, rx_byte-IsValid, retry_step-IsValid}

command-IsValid :
    (cmd : Bytes) (c : Callback) (n : Node)
    → n.callback ≡ c
    → IsValid n
    → IsValid (Schedule.when_idle c (Node.callback_begin cmd n) n)
command-IsValid cmd Callback.idle n e v = callback_begin-IsValid cmd n v e
command-IsValid cmd (Callback.numbered f b) n e v = v
command-IsValid cmd (Callback.registered f b) n e v = v
command-IsValid cmd (Callback.unsent f) n e v = v

-- Every step of every thread keeps the invariant of the node: its policy is sound for what was put
-- out, and each frame in the queue or in a thread belongs to a registered request.
pub step-IsValid : (n : Node) (e : Event) → IsValid n → IsValid (step n e)
unfolding step Node.shutdown_flags Node.shutdown_queue
step-IsValid n (Event.command cmd) v = command-IsValid cmd n.callback n refl v
step-IsValid n Event.callback_runs v = callback_step-IsValid n.callback n refl v
step-IsValid n (Event.tx_runs replies now) v = tx_step-IsValid n.tx replies now n refl v
step-IsValid n (Event.byte_arrives ch now) v = rx_byte-IsValid ch now n v
step-IsValid n (Event.retry_runs now) v = retry_step-IsValid n.retry now n refl v
step-IsValid n Event.flags_set v = record {
  core = v.core;
  callback_known = v.callback_known;
  prepared = v.prepared;
}
step-IsValid n Event.queue_closed v = record {
  core = (v.core.0, tt, v.core.2, v.core.3);
  callback_known = v.callback_known;
  prepared = v.prepared;
}

run-IsValid : (n : Node) (es : List Event) → IsValid n → IsValid (run n es)
unfolding run
run-IsValid n [] v = v
run-IsValid n (e ∷ es) v = run-IsValid (step n e) es (step-IsValid n e v)

pub new_node-IsValid : (uart_fd : Option ℕ) → IsValid (Node.new_node uart_fd)
unfolding Node.new_node RetryPolicy.find OrderedMap.find
new_node-IsValid none = record {
  core = (record { valid = tt; sends = λ j. refl; known = tt; encoded = λ j. tt }, tt, tt, tt);
  callback_known = tt;
  prepared = tt;
}
new_node-IsValid (some fd) = record {
  core = (record { valid = tt; sends = λ j. refl; known = tt; encoded = λ j. tt }, tt, tt, tt);
  callback_known = tt;
  prepared = tt;
}

sends-le :
    (n : ℕ) (p : RetryPolicy) (j : ℕ)
    → PolicyIsValid p
    → SendsFit n (RetryPolicy.find p j)
    → n ≤ suc max_retries
sends-le n p j v s = elim (Option-cases (RetryPolicy.find p j)) [
  | inl e ↦ let zero_times : n ≡ 0 = rw e at s in omega arith
  | inr (r, e) ↦
      let fits : n ≤ allowance r = rw e at s in
      let capped = (find-RequestIsValid p j v e).capped in ground arith
]

-- However the callbacks, the threads and the device interleave, the frame of a number is put out
-- whole at most three times: once, and once for each of the two retries.
pub transmitted-count_le :
    (uart_fd : Option ℕ) (es : List Event) (j : ℕ)
    → count_seq j (run (Node.new_node uart_fd) es).transmitted ≤ suc max_retries
transmitted-count_le uart_fd es j =
    let v = run-IsValid (Node.new_node uart_fd) es (new_node-IsValid uart_fd) in
    let sound = v.core.0 in
    sends-le _ (run (Node.new_node uart_fd) es).retry_policy j sound.valid (sound.sends j)

-- The frame is the line of a valid command with the frame's own number.
abbrev pub IsCommandLine : RetryFrame → Type 0
IsCommandLine f =
    (cmd : Bytes) × (valid_command cmd ≡ true) × (f.frame ≡ map_to_uart_command cmd f.seq)

Known-IsCommandLine :
    (p : RetryPolicy)
    → ((j : ℕ) → EncodedEntry j (RetryPolicy.find p j))
    → (f : RetryFrame) → Known p f
    → IsCommandLine f
Known-IsCommandLine p encoded f (r, e, same) =
    let (cmd, valid, spelled, kind) = rw e at (encoded f.seq) in (cmd, valid, sym same ∙ spelled)

-- Nothing but the lines of valid commands, each with its own number, is ever put out.
pub run-AllCommandLines :
    (uart_fd : Option ℕ) (es : List Event)
    → All IsCommandLine (run (Node.new_node uart_fd) es).transmitted
run-AllCommandLines uart_fd es =
    let v = run-IsValid (Node.new_node uart_fd) es (new_node-IsValid uart_fd) in
    let sound = v.core.0 in
    All-map (Known-IsCommandLine (run (Node.new_node uart_fd) es).retry_policy sound.encoded)
      (run (Node.new_node uart_fd) es).transmitted sound.known

-- ===== src/HandBridge/Node/PolicyCalls.antt =====
-- The node drives its policy by calls alone: which calls a step amounts to.
use linux_iot_gateway.Common.{
  ℕ, Bool, true, false, not, ◌&&◌, List, [], ◌∷◌, ◌++◌, ◌≡◌, ◌⊎◌, refl, sym, subst, inl, inr, All,
  arith, Bytes, ◌==◌, if◌then◌else◌, is_empty, Bool-cases, Option-cases,
}
use linux_iot_gateway.HandBridge.AckParser.{parse_ack}
use linux_iot_gateway.HandBridge.RetryPolicy
use linux_iot_gateway.HandBridge.RetryPolicy.{
  RetryPolicy, Request, RequestState, RetryFrame, is_sendable, is_active,
}
use linux_iot_gateway.HandBridge.RetryPolicy.Calls
use linux_iot_gateway.HandBridge.RetryPolicy.Calls.{Call, apply}
use linux_iot_gateway.HandBridge.Uart.{WriteReply, Written, returned, waiting, write_uart}
use linux_iot_gateway.HandBridge.Node
use linux_iot_gateway.HandBridge.Node.{Node, Callback, TxWorker, RetryWorker, RxWorker}
use linux_iot_gateway.HandBridge.Node.Latest.{
  command-latest, callback_enqueue-latest, tx_step-latest, retry_step-latest, rx_byte-latest,
}
use linux_iot_gateway.HandBridge.Node.Schedule
use linux_iot_gateway.HandBridge.Node.Schedule.{Event, step, run}

-- The calls that lead from one policy to another.
abbrev pub CalledTo : RetryPolicy → RetryPolicy → Type 0
CalledTo p q = (cs : List Call) × (q ≡ (Calls.run p cs).0)

-- All calls but `start`.
abbrev pub IsQuiet : Call → Type 0
IsQuiet (Call.start seq frame is_stop) = ⊥
IsQuiet _ = Unit {0}

-- The same by calls of which none is `start`.
abbrev pub Quietly : RetryPolicy → RetryPolicy → Type 0
Quietly p q = (cs : List Call) × All IsQuiet cs × (q ≡ (Calls.run p cs).0)

callback_register-policy :
    (f : RetryFrame) (b : Bool) (n : Node)
    → (Node.callback_register f b n).retry_policy
      ≡ (RetryPolicy.start
          (if b then RetryPolicy.cancel_non_stop n.retry_policy else n.retry_policy)
          f.seq
          f.frame
          b).0
unfolding Node.callback_register
callback_register-policy f b n = ground arith

callback_register-CalledTo :
    (f : RetryFrame) (b : Bool) (n : Node)
    → CalledTo n.retry_policy (Node.callback_register f b n).retry_policy
unfolding Calls.run apply
callback_register-CalledTo f true n =
    (Call.cancel_non_stop ∷ Call.start f.seq f.frame true ∷ [], callback_register-policy f true n)
callback_register-CalledTo f false n =
    (Call.start f.seq f.frame false ∷ [], callback_register-policy f false n)

stay : (p : RetryPolicy) → Quietly p p
unfolding Calls.run
stay p = ([], tt, refl)

one_call : (p : RetryPolicy) (c : Call) → IsQuiet c → Quietly p (apply p c).0
unfolding Calls.run
one_call p c quiet = (c ∷ [], (quiet, tt), refl)

callback_begin-Quietly :
    (cmd : Bytes) (n : Node) → (Node.callback_begin cmd n).retry_policy ≡ n.retry_policy
unfolding Node.callback_begin
callback_begin-Quietly cmd n = ground arith

command-Quietly :
    (cmd : Bytes) (c : Callback) (n : Node)
    → Quietly n.retry_policy (Schedule.when_idle c (Node.callback_begin cmd n) n).retry_policy
command-Quietly cmd Callback.idle n = rw (callback_begin-Quietly cmd n) (stay n.retry_policy)
command-Quietly cmd (Callback.numbered f b) n = stay n.retry_policy
command-Quietly cmd (Callback.registered f b) n = stay n.retry_policy
command-Quietly cmd (Callback.unsent f) n = stay n.retry_policy

callback_enqueue-policy :
    (f : RetryFrame) (b : Bool) (n : Node)
    → (Node.callback_enqueue f b n).retry_policy ≡ n.retry_policy
unfolding Node.callback_enqueue
callback_enqueue-policy f b n = ground arith

-- A section of the callback is quiet and keeps the latest number, or it registers.
abbrev pub Section : Callback → Node → Node → Type 0
Section c n n' =
    (Quietly n.retry_policy n'.retry_policy × (n'.latest_requested_seq ≡ n.latest_requested_seq))
    ⊎ ((f : RetryFrame) × (is_stop : Bool) × (c ≡ Callback.numbered f is_stop)
        × (n' ≡ Node.callback_register f is_stop n))

callback_step-Section : (c : Callback) (n : Node) → Section c n (Node.callback_step c n)
unfolding Node.callback_step
callback_step-Section Callback.idle n = inl (stay n.retry_policy, refl)
callback_step-Section (Callback.numbered f b) n = inr (f, b, refl, refl)
callback_step-Section (Callback.registered f b) n =
    inl (rw (callback_enqueue-policy f b n) (stay n.retry_policy), callback_enqueue-latest f b n)
callback_step-Section (Callback.unsent f) n =
    unfold apply Calls.run Node.callback_fail in
    inl ((Call.mark_send_failed f.seq ∷ [], (tt, tt), refl), refl)

finish_send-Quietly :
    (f : RetryFrame) (now : ℕ) (w : Written) (n : Node)
    → Quietly n.retry_policy (Node.finish_send f now w n).retry_policy
unfolding apply Calls.run
finish_send-Quietly f now (returned true out) n = (Call.mark_sent f.seq now ∷ [], (tt, tt), refl)
finish_send-Quietly f now (returned false out) n =
    (Call.mark_send_failed f.seq ∷ [], (tt, tt), refl)
finish_send-Quietly f now (waiting out) n = ([], tt, refl)

take_frame-policy :
    (fs : List RetryFrame) (n : Node) → (Node.take_frame fs n).retry_policy ≡ n.retry_policy
take_frame-policy [] n = refl
take_frame-policy (f ∷ fs) n = refl

tx_take-policy : (n : Node) → (Node.tx_take n).retry_policy ≡ n.retry_policy
unfolding Node.tx_take
tx_take-policy n = ground (arith, take_frame-policy n.command_queue n)

tx_step-Quietly :
    (t : TxWorker) (replies : List WriteReply) (now : ℕ) (n : Node)
    → Quietly n.retry_policy (Node.tx_step t replies now n).retry_policy
unfolding Node.tx_step
tx_step-Quietly TxWorker.waits replies now n = rw (tx_take-policy n) (stay n.retry_policy)
tx_step-Quietly (TxWorker.holds f) replies now n =
    elim (Bool-cases (RetryPolicy.should_transmit n.retry_policy f.seq)) [
      | inl may ↦
          rw (may, Node.tx_send)
            (finish_send-Quietly f now (write_uart n.uart_fd f.frame replies) n)
      | inr stale ↦ rw (stale, Node.tx_send) (stay n.retry_policy)
    ]
tx_step-Quietly TxWorker.stopped replies now n = stay n.retry_policy

rx_newline-Quietly :
    (now : ℕ) (rx : RxWorker) (p : RetryPolicy) → Quietly p (Node.rx_newline now rx p)
unfolding Node.rx_newline
rx_newline-Quietly now rx p = elim (Bool-cases (not rx.discard_line && not (is_empty rx.rx_line))) [
  | inl whole ↦ elim (Option-cases (parse_ack (rx.rx_line ++ b'\n' ∷ []))) [
    | inl bad ↦ rw (whole, bad, Node.rx_newline) (stay p)
    | inr ((seq, status), good) ↦
        rw (whole, good, Node.rx_newline)
          (unfold apply in one_call p (Call.on_ack seq status now) tt)
  ]
  | inr skipped ↦ rw (skipped, Node.rx_newline) (stay p)
]

rx_byte-Quietly :
    (ch now : ℕ) (n : Node) → Quietly n.retry_policy (Node.rx_byte ch now n).retry_policy
unfolding Node.rx_byte
rx_byte-Quietly ch now n = elim (Bool-cases (ch == b'\n')) [
  | inl end ↦ rw (end, Node.rx_byte) (rx_newline-Quietly now n.rx n.retry_policy)
  | inr other ↦ rw (other, Node.rx_byte) (stay n.retry_policy)
]

retry_poll-Quietly :
    (now : ℕ) (n : Node) → Quietly n.retry_policy (Node.retry_poll now n).retry_policy
unfolding Node.retry_poll Calls.run apply
retry_poll-Quietly now n = elim (Bool-cases n.retry_stop) [
  | inl stop ↦ ([], tt, ground arith)
  | inr go ↦ (Call.poll now ∷ [], (tt, tt), ground arith)
]

retry_queue-policy :
    (f : RetryFrame) (rest : List RetryFrame) (n : Node)
    → (Node.retry_queue f rest n).retry_policy ≡ n.retry_policy
unfolding Node.retry_queue
retry_queue-policy f rest n = ground arith

retry_step-Quietly :
    (t : RetryWorker) (now : ℕ) (n : Node)
    → Quietly n.retry_policy (Node.retry_step t now n).retry_policy
unfolding Node.retry_step
retry_step-Quietly RetryWorker.polls now n = retry_poll-Quietly now n
retry_step-Quietly (RetryWorker.queues []) now n = stay n.retry_policy
retry_step-Quietly (RetryWorker.queues (f ∷ rest)) now n =
    rw (retry_queue-policy f rest n) (stay n.retry_policy)
retry_step-Quietly RetryWorker.stopped now n = stay n.retry_policy

-- A step calls all but `start` and keeps the latest number, or is the section of the callback that
-- registers.
pub step-Section : (n : Node) (e : Event) → Section n.callback n (step n e)
unfolding step
step-Section n (Event.command cmd) =
    inl (command-Quietly cmd n.callback n, command-latest cmd n.callback n)
step-Section n Event.callback_runs = callback_step-Section n.callback n
step-Section n (Event.tx_runs replies now) =
    inl (tx_step-Quietly n.tx replies now n, tx_step-latest n.tx replies now n)
step-Section n (Event.byte_arrives ch now) = inl (rx_byte-Quietly ch now n, rx_byte-latest ch now n)
step-Section n (Event.retry_runs now) =
    inl (retry_step-Quietly n.retry now n, retry_step-latest n.retry now n)
step-Section n Event.flags_set = unfold Node.shutdown_flags in inl (stay n.retry_policy, refl)
step-Section n Event.queue_closed = unfold Node.shutdown_queue in inl (stay n.retry_policy, refl)

-- The policy after any step is the one before it after some calls.
pub step-CalledTo : (n : Node) (e : Event) → CalledTo n.retry_policy (step n e).retry_policy
step-CalledTo n e = elim (step-Section n e) [
  | inl ((cs, quiet, same), _) ↦ (cs, same)
  | inr (f, is_stop, at, same) ↦
      subst (λ (n' : Node). CalledTo n.retry_policy n'.retry_policy) (sym same)
        (callback_register-CalledTo f is_stop n)
]

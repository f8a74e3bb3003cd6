-- ===== src/HandBridge/Node/Preemption.antt =====
-- When a frame is put out, and what a STOP does to the requests before it.
use linux_iot_gateway.Common.{
  ℕ, true, false, List, [], ◌∷◌, ◌++◌, some, ◌≡◌, refl, sym, ap, ◌∙◌, ◌⊎◌, inl, inr, arith, Bytes,
  ◌==◌, Bool-cases, subst,
}
use linux_iot_gateway.HandBridge.RetryPolicy
use linux_iot_gateway.HandBridge.RetryPolicy.{
  RetryPolicy, Request, RequestState, RetryFrame, is_sendable, is_active,
}
use linux_iot_gateway.HandBridge.RetryPolicy.Calls
use linux_iot_gateway.HandBridge.RetryPolicy.Calls.{Call, apply}
use linux_iot_gateway.HandBridge.RetryPolicy.Pointwise.{effect, find-apply}
use linux_iot_gateway.HandBridge.RetryPolicy.Progress.{
  Transition, transmit, transmit_fails, begin, report, refuse, report_late, retry, give_up,
  supersede, done, stopped, failed, apply-Evolves,
}
use linux_iot_gateway.HandBridge.RetryPolicy.Retries.{count_seq, count_seq-append}
use linux_iot_gateway.HandBridge.Uart.{WriteReply, Written, returned, waiting, write_uart}
use linux_iot_gateway.HandBridge.Node
use linux_iot_gateway.HandBridge.Node.{Node, Callback, TxWorker, RetryWorker, RxWorker}
use linux_iot_gateway.HandBridge.Node.Schedule
use linux_iot_gateway.HandBridge.Node.Schedule.{Event, step, run}
use linux_iot_gateway.HandBridge.Node.PolicyCalls.{step-CalledTo}

-- A step puts out no frame, or one whose request may be sent.
abbrev PutsOut : Node → Node → Type 0
PutsOut n n' =
    (n'.transmitted ≡ n.transmitted)
    ⊎ ((f : RetryFrame) × (n'.transmitted ≡ n.transmitted ++ f ∷ [])
        × (RetryPolicy.should_transmit n.retry_policy f.seq ≡ true))

finish_send-PutsOut :
    (f : RetryFrame) (now : ℕ) (w : Written) (n : Node)
    → RetryPolicy.should_transmit n.retry_policy f.seq ≡ true
    → PutsOut n (Node.finish_send f now w n)
finish_send-PutsOut f now (returned true out) n may = inr (f, refl, may)
finish_send-PutsOut f now (returned false out) n may = inl refl
finish_send-PutsOut f now (waiting out) n may = inl refl

take_frame-transmitted :
    (fs : List RetryFrame) (n : Node) → (Node.take_frame fs n).transmitted ≡ n.transmitted
take_frame-transmitted [] n = refl
take_frame-transmitted (f ∷ fs) n = refl

tx_step-PutsOut :
    (t : TxWorker) (replies : List WriteReply) (now : ℕ) (n : Node)
    → PutsOut n (Node.tx_step t replies now n)
unfolding Node.tx_step
tx_step-PutsOut TxWorker.waits replies now n =
    inl (ground (arith, take_frame-transmitted n.command_queue n))
tx_step-PutsOut (TxWorker.holds f) replies now n =
    elim (Bool-cases (RetryPolicy.should_transmit n.retry_policy f.seq)) [
      | inl may ↦
          rw (may, Node.tx_send)
            (finish_send-PutsOut f now (write_uart n.uart_fd f.frame replies) n may)
      | inr stale ↦ rw (stale, Node.tx_send) (inl refl)
    ]
tx_step-PutsOut TxWorker.stopped replies now n = inl refl

command-transmitted :
    (cmd : Bytes) (c : Callback) (n : Node)
    → (Schedule.when_idle c (Node.callback_begin cmd n) n).transmitted ≡ n.transmitted
unfolding Node.callback_begin
command-transmitted cmd Callback.idle n = ground arith
command-transmitted cmd (Callback.numbered f b) n = refl
command-transmitted cmd (Callback.registered f b) n = refl
command-transmitted cmd (Callback.unsent f) n = refl

callback_step-transmitted :
    (c : Callback) (n : Node) → (Node.callback_step c n).transmitted ≡ n.transmitted
unfolding Node.callback_step
callback_step-transmitted Callback.idle n = refl
callback_step-transmitted (Callback.numbered f b) n = ground arith
callback_step-transmitted (Callback.registered f b) n = ground arith
callback_step-transmitted (Callback.unsent f) n = refl

retry_step-transmitted :
    (t : RetryWorker) (now : ℕ) (n : Node) → (Node.retry_step t now n).transmitted ≡ n.transmitted
unfolding Node.retry_step
retry_step-transmitted RetryWorker.polls now n = ground arith
retry_step-transmitted (RetryWorker.queues []) now n = refl
retry_step-transmitted (RetryWorker.queues (f ∷ rest)) now n = ground arith
retry_step-transmitted RetryWorker.stopped now n = refl

rx_byte-transmitted : (ch now : ℕ) (n : Node) → (Node.rx_byte ch now n).transmitted ≡ n.transmitted
unfolding Node.rx_byte
rx_byte-transmitted ch now n = elim (Bool-cases (ch == b'\n')) [
  | inl end ↦ rw (end, Node.rx_byte)
  | inr other ↦ rw (other, Node.rx_byte)
]

step-PutsOut : (n : Node) (e : Event) → PutsOut n (step n e)
unfolding step
step-PutsOut n (Event.command cmd) = inl (command-transmitted cmd n.callback n)
step-PutsOut n Event.callback_runs = inl (callback_step-transmitted n.callback n)
step-PutsOut n (Event.tx_runs replies now) = tx_step-PutsOut n.tx replies now n
step-PutsOut n (Event.byte_arrives ch now) = inl (rx_byte-transmitted ch now n)
step-PutsOut n (Event.retry_runs now) = inl (retry_step-transmitted n.retry now n)
step-PutsOut n Event.flags_set = unfold Node.shutdown_flags in inl refl
step-PutsOut n Event.queue_closed = unfold Node.shutdown_queue in inl refl

-- The request is registered and will never be sent or timed again.
abbrev IsRetired : ℕ → RetryPolicy → Type 0
IsRetired j p = (r : Request) × (RetryPolicy.find p j ≡ some r) × (is_active r.state ≡ false)

Transition-inactive :
    {s t : RequestState} → Transition s t → is_active s ≡ false → is_active t ≡ false
Transition-inactive {s} (transmit e) h = absurd (ground arith)
Transition-inactive {s} (transmit_fails e) h = refl
Transition-inactive {s} (begin e) h = absurd (ground arith)
Transition-inactive {s} (report e done) h = refl
Transition-inactive {s} (report e stopped) h = refl
Transition-inactive {s} (report e failed) h = refl
Transition-inactive {s} (refuse e) h = refl
Transition-inactive {s} (report_late e done) h = refl
Transition-inactive {s} (report_late e stopped) h = refl
Transition-inactive {s} (report_late e failed) h = refl
Transition-inactive {s} (retry e) h = absurd (ground arith)
Transition-inactive {s} (give_up e) h = refl
Transition-inactive {s} (supersede e) h = refl

apply-IsRetired : (j : ℕ) (p : RetryPolicy) (c : Call) → IsRetired j p → IsRetired j (apply p c).0
apply-IsRetired j p c (r, e, idle) =
    let (r', e', evolves) = apply-Evolves p c j e in
    (
      r',
      e',
      elim evolves.moves [
        | inl same ↦ ap (λ (q : Request). is_active q.state) same ∙ idle
        | inr move ↦ Transition-inactive move idle
      ],
    )

calls-IsRetired :
    (j : ℕ) (p : RetryPolicy) (cs : List Call) → IsRetired j p → IsRetired j (Calls.run p cs).0
unfolding Calls.run
calls-IsRetired j p [] h = h
calls-IsRetired j p (c ∷ cs) h = calls-IsRetired j (apply p c).0 cs (apply-IsRetired j p c h)

step-IsRetired :
    (j : ℕ) (n : Node) (e : Event)
    → IsRetired j n.retry_policy
    → IsRetired j (step n e).retry_policy
step-IsRetired j n e h =
    let (cs, same) = step-CalledTo n e in
    subst (IsRetired j) (sym same) (calls-IsRetired j n.retry_policy cs h)

retired_not_sent :
    (j : ℕ) (p : RetryPolicy) (f : RetryFrame)
    → IsRetired j p
    → RetryPolicy.should_transmit p f.seq ≡ true
    → (f.seq == j) ≡ false
unfolding RetryPolicy.should_transmit
retired_not_sent j p f (r, e, idle) may = ground arith

step-count_retired :
    (j : ℕ) (n : Node) (e : Event)
    → IsRetired j n.retry_policy
    → count_seq j (step n e).transmitted ≡ count_seq j n.transmitted
step-count_retired j n e h = elim (step-PutsOut n e) [
  | inl same ↦ ap (count_seq j) same
  | inr (f, more, may) ↦
      let other : (f.seq == j) ≡ false = retired_not_sent j n.retry_policy f h may in
      ap (count_seq j) more ∙ count_seq-append j n.transmitted (f ∷ []) ∙ (rw other (omega arith))
]

run-count_retired :
    (j : ℕ) (n : Node) (es : List Event)
    → IsRetired j n.retry_policy
    → count_seq j (run n es).transmitted ≡ count_seq j n.transmitted
unfolding run
run-count_retired j n [] h = refl
run-count_retired j n (e ∷ es) h =
    run-count_retired j (step n e) es (step-IsRetired j n e h) ∙ step-count_retired j n e h

cancelled_inactive :
    (r : Request) → r.is_stop ≡ false → is_active (RetryPolicy.cancelled r).state ≡ false
unfolding RetryPolicy.cancelled
cancelled_inactive r h = ground arith

cancel-IsRetired :
    (j : ℕ) (p : RetryPolicy) {r : Request}
    → RetryPolicy.find p j ≡ some r
    → r.is_stop ≡ false
    → IsRetired j (apply p Call.cancel_non_stop).0
unfolding effect
cancel-IsRetired j p {r} e h = (
  RetryPolicy.cancelled r,
  rw (find-apply p Call.cancel_non_stop j, effect, e),
  cancelled_inactive r h,
)

register-IsRetired :
    (f : RetryFrame) (n : Node) (j : ℕ) {r : Request}
    → RetryPolicy.find n.retry_policy j ≡ some r
    → r.is_stop ≡ false
    → IsRetired j (Node.callback_register f true n).retry_policy
unfolding Node.callback_register apply
register-IsRetired f n j e h = ground (
  arith,
  apply-IsRetired j (RetryPolicy.cancel_non_stop n.retry_policy) (Call.start f.seq f.frame true)
      (cancel-IsRetired j n.retry_policy e h),
)

-- From the section of the callback that registers a STOP on, no request that was registered before
-- it and is no STOP is put out again, whatever frames are queued or held by the threads and whatever
-- happens then.
pub stop_silences :
    (n : Node) (f : RetryFrame) (es : List Event) (j : ℕ) {r : Request}
    → n.callback ≡ Callback.numbered f true
    → RetryPolicy.find n.retry_policy j ≡ some r
    → r.is_stop ≡ false
    → count_seq j (run n (Event.callback_runs ∷ es)).transmitted ≡ count_seq j n.transmitted
unfolding run
stop_silences n f es j c e h =
    run-count_retired j (step n Event.callback_runs) es
      (unfold step Node.callback_step in rw (c, Node.callback_step) (register-IsRetired f n j e h))
    ∙ ap (count_seq j) (unfold step in callback_step-transmitted n.callback n)

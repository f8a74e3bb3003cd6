-- ===== src/HandBridge/Node/Priority.antt =====
-- The way of a STOP through the queue to the port.
use linux_iot_gateway.Common.{
  ℕ, true, false, List, [], ◌∷◌, ◌++◌, none, some, ◌≡◌, refl, ap, ◌∙◌, arith, Bytes, ◌==◌, is_empty,
  eq_refl, if◌then◌else◌, ◌||◌,
}
use linux_iot_gateway.HandBridge.RetryPolicy
use linux_iot_gateway.HandBridge.RetryPolicy.{RetryPolicy, Request, RetryFrame}
use linux_iot_gateway.HandBridge.RetryPolicy.Calls.{Call, apply}
use linux_iot_gateway.HandBridge.RetryPolicy.Pointwise.{effect, registered, find-apply}
use linux_iot_gateway.HandBridge.RetryPolicy.Timeouts.{accepted-admits}
use linux_iot_gateway.HandBridge.Uart.{WriteReply, returned, write_uart}
use linux_iot_gateway.HandBridge.Node
use linux_iot_gateway.HandBridge.Node.{Node, Callback, TxWorker}
use linux_iot_gateway.HandBridge.Node.Schedule.{Event, step, run}

cancel-none :
    (p : RetryPolicy) (j : ℕ)
    → RetryPolicy.find p j ≡ none
    → RetryPolicy.find (RetryPolicy.cancel_non_stop p) j ≡ none
unfolding apply effect
cancel-none p j e = rw (find-apply p Call.cancel_non_stop j, e)

-- The node after a STOP has been registered, queued, and taken.
after_register : RetryFrame → Node → Node
after_register f n = record n {
  retry_policy =
      (RetryPolicy.start (RetryPolicy.cancel_non_stop n.retry_policy) f.seq f.frame true).0;
  latest_requested_seq = f.seq;
  callback = Callback.registered f true;
}

started :
    (p : RetryPolicy) (f : RetryFrame)
    → RetryPolicy.find p f.seq ≡ none
    → (f.seq == 0 || is_empty f.frame) ≡ false
    → (RetryPolicy.start p f.seq f.frame true).1 ≡ true
started p f e good = ground (arith, accepted-admits p (Call.start f.seq f.frame true))

register-after :
    (f : RetryFrame) (n : Node)
    → RetryPolicy.find n.retry_policy f.seq ≡ none
    → (f.seq == 0 || is_empty f.frame) ≡ false
    → Node.callback_register f true n ≡ after_register f n
unfolding Node.callback_register after_register
register-after f n e good = rw (
  started (RetryPolicy.cancel_non_stop n.retry_policy) f (cancel-none n.retry_policy f.seq e) good,
  Node.callback_register,
)

after_enqueue : RetryFrame → Node → Node
after_enqueue f n = record n { command_queue = f ∷ n.command_queue; callback = Callback.idle }

enqueue-after :
    (f : RetryFrame) (n : Node)
    → n.stop_worker ≡ false
    → Node.callback_enqueue f true n ≡ after_enqueue f n
unfolding Node.callback_enqueue after_enqueue
enqueue-after f n go = ground arith

after_take : RetryFrame → List RetryFrame → Node → Node
after_take f rest n = record n { command_queue = rest; tx = TxWorker.holds f }

take-after :
    (f : RetryFrame) (rest : List RetryFrame) (n : Node)
    → n.stop_worker ≡ false
    → n.command_queue ≡ f ∷ rest
    → Node.tx_take n ≡ after_take f rest n
unfolding Node.tx_take after_take
take-after f rest n go q =
    ap
      (λ stop.
        if stop then record n { tx = TxWorker.stopped } else Node.take_frame n.command_queue n)
      go
    ∙ ap (λ fs. Node.take_frame fs n) q

find-started :
    (p : RetryPolicy) (f : RetryFrame)
    → RetryPolicy.find p f.seq ≡ none
    → (f.seq == 0 || is_empty f.frame) ≡ false
    → RetryPolicy.find (RetryPolicy.start p f.seq f.frame true).0 f.seq
      ≡ some (RetryPolicy.new_request f.seq f.frame true)
unfolding apply effect registered
find-started p f e good =
    find-apply p (Call.start f.seq f.frame true) f.seq ∙ rw (eq_refl f.seq, e, good)

may_transmit :
    (p : RetryPolicy) (f : RetryFrame)
    → RetryPolicy.find p f.seq ≡ none
    → (f.seq == 0 || is_empty f.frame) ≡ false
    → RetryPolicy.should_transmit (RetryPolicy.start p f.seq f.frame true).0 f.seq ≡ true
unfolding RetryPolicy.should_transmit RetryPolicy.new_request
may_transmit p f e good = ground (arith, find-started p f e good)

tx_send-transmitted :
    (f : RetryFrame) (replies : List WriteReply) (now : ℕ) (n : Node) {out : Bytes}
    → RetryPolicy.should_transmit n.retry_policy f.seq ≡ true
    → write_uart n.uart_fd f.frame replies ≡ returned true out
    → (Node.tx_send f replies now n).transmitted ≡ n.transmitted ++ f ∷ []
unfolding Node.tx_send
tx_send-transmitted f replies now n may w = rw (may, w, Node.tx_send)

module _ (n : Node) (f : RetryFrame) where
  -- The four sections that bring a STOP to the wire.
  stages : Node
  unfolding after_register after_enqueue after_take
  stages = after_take f n.command_queue (after_enqueue f (after_register f n))

  stages_lem :
      n.callback ≡ Callback.numbered f true
      → n.tx ≡ TxWorker.waits
      → n.stop_worker ≡ false
      → RetryPolicy.find n.retry_policy f.seq ≡ none
      → (f.seq == 0 || is_empty f.frame) ≡ false
      → (now : ℕ)
      → run n (Event.callback_runs ∷ Event.callback_runs ∷ Event.tx_runs [] now ∷ []) ≡ stages
  unfolding run step Node.callback_step Node.tx_step stages
  stages_lem c t go e good now =
      ap (λ m. run m (Event.callback_runs ∷ Event.tx_runs [] now ∷ []))
        (ap (λ k. Node.callback_step k n) c ∙ register-after f n e good)
      ∙ ap (λ m. run m (Event.tx_runs [] now ∷ [])) (enqueue-after f (after_register f n) go)
      ∙ ap (λ k. Node.tx_step k [] now (after_enqueue f (after_register f n))) t
      ∙ take-after f n.command_queue (after_enqueue f (after_register f n)) go refl

run-append-one : (n : Node) (es : List Event) (e : Event) → run n (es ++ e ∷ []) ≡ step (run n es) e
unfolding run
run-append-one n [] e = refl
run-append-one n (d ∷ es) e = run-append-one (step n d) es e

-- When a STOP with a fresh number runs its sections, and the transmitter then takes a frame, the
-- frame that it puts out is the STOP's, whatever was queued before.
pub stop_goes_next :
    (n : Node) (f : RetryFrame) (replies : List WriteReply) (now : ℕ) {out : Bytes}
    → n.callback ≡ Callback.numbered f true
    → n.tx ≡ TxWorker.waits
    → n.stop_worker ≡ false
    → RetryPolicy.find n.retry_policy f.seq ≡ none
    → (f.seq == 0 || is_empty f.frame) ≡ false
    → write_uart n.uart_fd f.frame replies ≡ returned true out
    → (run n (
        Event.callback_runs
        ∷ Event.callback_runs
        ∷ Event.tx_runs [] now
        ∷ Event.tx_runs replies now
        ∷ [])).transmitted
      ≡ n.transmitted ++ f ∷ []
unfolding stages step Node.tx_step
stop_goes_next n f replies now c t go e good w =
    ap (λ (m : Node). m.transmitted)
      (run-append-one n (Event.callback_runs ∷ Event.callback_runs ∷ Event.tx_runs [] now ∷ [])
          (Event.tx_runs replies now)
        ∙ ap (λ m. step m (Event.tx_runs replies now)) (stages_lem n f c t go e good now))
    ∙ tx_send-transmitted f replies now (stages n f)
        (may_transmit (RetryPolicy.cancel_non_stop n.retry_policy) f
          (cancel-none n.retry_policy f.seq e) good)
        w

-- ===== src/HandBridge/Node/Latest.antt =====
-- `latest_requested_seq_`, and the steps that do not write it.
use linux_iot_gateway.Common.{
  ℕ, Bool, List, [], ◌∷◌, ◌≡◌, refl, arith, Bytes, ◌==◌, Bool-cases, inl, inr,
}
use linux_iot_gateway.HandBridge.RetryPolicy.{RetryFrame}
use linux_iot_gateway.HandBridge.Uart.{WriteReply}
use linux_iot_gateway.HandBridge.Node
use linux_iot_gateway.HandBridge.Node.{Node, Callback, TxWorker, RetryWorker}
use linux_iot_gateway.HandBridge.Node.Schedule

pub command-latest :
    (cmd : Bytes) (c : Callback) (n : Node)
    → (Schedule.when_idle c (Node.callback_begin cmd n) n).latest_requested_seq
      ≡ n.latest_requested_seq
unfolding Node.callback_begin
command-latest cmd Callback.idle n = ground arith
command-latest cmd (Callback.numbered f b) n = refl
command-latest cmd (Callback.registered f b) n = refl
command-latest cmd (Callback.unsent f) n = refl

take_frame-latest :
    (fs : List RetryFrame) (n : Node)
    → (Node.take_frame fs n).latest_requested_seq ≡ n.latest_requested_seq
take_frame-latest [] n = refl
take_frame-latest (f ∷ fs) n = refl

pub tx_step-latest :
    (t : TxWorker) (replies : List WriteReply) (now : ℕ) (n : Node)
    → (Node.tx_step t replies now n).latest_requested_seq ≡ n.latest_requested_seq
unfolding Node.tx_step
tx_step-latest TxWorker.waits replies now n = ground (arith, take_frame-latest n.command_queue n)
tx_step-latest (TxWorker.holds f) replies now n = ground arith
tx_step-latest TxWorker.stopped replies now n = refl

pub retry_step-latest :
    (t : RetryWorker) (now : ℕ) (n : Node)
    → (Node.retry_step t now n).latest_requested_seq ≡ n.latest_requested_seq
unfolding Node.retry_step
retry_step-latest RetryWorker.polls now n = ground arith
retry_step-latest (RetryWorker.queues []) now n = refl
retry_step-latest (RetryWorker.queues (f ∷ rest)) now n = ground arith
retry_step-latest RetryWorker.stopped now n = refl

pub rx_byte-latest :
    (ch now : ℕ) (n : Node) → (Node.rx_byte ch now n).latest_requested_seq ≡ n.latest_requested_seq
unfolding Node.rx_byte
rx_byte-latest ch now n = elim (Bool-cases (ch == b'\n')) [
  | inl end ↦ rw (end, Node.rx_byte)
  | inr other ↦ rw (other, Node.rx_byte)
]

pub callback_enqueue-latest :
    (f : RetryFrame) (b : Bool) (n : Node)
    → (Node.callback_enqueue f b n).latest_requested_seq ≡ n.latest_requested_seq
unfolding Node.callback_enqueue
callback_enqueue-latest f b n = ground arith

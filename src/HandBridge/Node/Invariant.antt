-- ===== src/HandBridge/Node/Invariant.antt =====
-- What holds of the node between two steps, in every interleaving of its threads.
use linux_iot_gateway.Common.{
  Bool, List, [], ◌∷◌, ◌≡◌, inl, inr, arith, All, All-append, Bool-cases,
}
use linux_iot_gateway.HandBridge.RetryPolicy.{RetryPolicy, RetryFrame}
use linux_iot_gateway.HandBridge.RetryPolicy.Calls.{Call, apply}
use linux_iot_gateway.HandBridge.Node
use linux_iot_gateway.HandBridge.Node.{
  Node, Callback, TxWorker, RetryWorker, RxWorker, valid_command, map_to_uart_command, new_node,
}
use linux_iot_gateway.HandBridge.Node.Sound.{
  Known, apply-AllKnown, Encoded, StartsEncoded, Sound, apply-Sound,
}

-- The frames that a thread holds, apart from the queue.
abbrev pub held_by_tx : TxWorker → List RetryFrame
held_by_tx (TxWorker.holds f) = f ∷ []
held_by_tx _ = []

abbrev pub held_by_retry : RetryWorker → List RetryFrame
held_by_retry (RetryWorker.queues fs) = fs
held_by_retry _ = []

abbrev pub held_by_callback : Callback → List RetryFrame
held_by_callback (Callback.registered f is_stop) = f ∷ []
held_by_callback (Callback.unsent f) = f ∷ []
held_by_callback _ = []

-- A number that is not yet registered goes with the line of a valid command.
abbrev pub Prepared : Callback → Type 0
Prepared (Callback.numbered f is_stop) = Encoded f.seq f.frame is_stop
Prepared _ = Unit {0}

-- The policy is sound for what was put out, and every frame on its way belongs to a request.
abbrev pub Core : RetryPolicy → Node → Type 0
Core p n =
    Sound p n.transmitted
    × All (Known p) n.command_queue
    × All (Known p) (held_by_tx n.tx)
    × All (Known p) (held_by_retry n.retry)

pub record IsValid (n : Node) : Type 0 where
  pub core : Core n.retry_policy n
  pub callback_known : All (Known n.retry_policy) (held_by_callback n.callback)
  pub prepared : Prepared n.callback

pub apply-Core :
    (p : RetryPolicy) (c : Call) (n : Node) → StartsEncoded c → Core p n → Core (apply p c).0 n
apply-Core p c n s (sound, queue, tx, retry) = (
  apply-Sound p c n.transmitted s sound,
  apply-AllKnown p c n.command_queue queue,
  apply-AllKnown p c (held_by_tx n.tx) tx,
  apply-AllKnown p c (held_by_retry n.retry) retry,
)

-- A call of the policy by another thread.
pub call-IsValid :
    (n : Node) (c : Call)
    → StartsEncoded c
    → IsValid n
    → IsValid (record n { retry_policy = (apply n.retry_policy c).0 })
call-IsValid n c s v = record {
  core = apply-Core n.retry_policy c n s v.core;
  callback_known = apply-AllKnown n.retry_policy c (held_by_callback n.callback) v.callback_known;
  prepared = v.prepared;
}

pub enqueue-Core :
    (p : RetryPolicy) (f : RetryFrame) (high_priority : Bool) (n : Node)
    → Known p f
    → Core p n
    → Core p (Node.enqueue_uart_command f high_priority n).0
unfolding Node.enqueue_uart_command
enqueue-Core p f high_priority n k (sound, queue, tx, retry) = elim (Bool-cases n.stop_worker) [
  | inl stop ↦ rw (stop, Node.enqueue_uart_command) (sound, queue, tx, retry)
  | inr go ↦ elim (Bool-cases high_priority) [
    | inl high ↦ rw (go, high, Node.enqueue_uart_command) (sound, (k, queue), tx, retry)
    | inr low ↦
        rw (go, low, Node.enqueue_uart_command)
          (sound, All-append (Known p) n.command_queue (f ∷ []) queue (k, tt), tx, retry)
  ]
]

pub enqueue-retry_policy :
    (f : RetryFrame) (high_priority : Bool) (n : Node)
    → (Node.enqueue_uart_command f high_priority n).0.retry_policy ≡ n.retry_policy
unfolding Node.enqueue_uart_command
enqueue-retry_policy f high_priority n = ground arith

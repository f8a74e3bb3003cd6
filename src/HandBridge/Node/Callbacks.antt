-- ===== src/HandBridge/Node/Callbacks.antt =====
-- `command_callback`: its sections and the node's invariant.
use linux_iot_gateway.Common.{
  ℕ, Bool, true, false, ◌≡◌, refl, sym, inl, inr, arith, Bytes, codes, if◌then◌else◌, list_eq, All,
  Bool-cases, Option-cases, subst,
}
use linux_iot_gateway.Common.OrderedMap
use linux_iot_gateway.HandBridge.RetryPolicy
use linux_iot_gateway.HandBridge.RetryPolicy.{
  RetryPolicy, Request, RetryFrame, is_sendable, max_retries,
}
use linux_iot_gateway.HandBridge.RetryPolicy.Calls.{Call, apply}
use linux_iot_gateway.HandBridge.Node
use linux_iot_gateway.HandBridge.Node.{
  Node, Callback, TxWorker, RetryWorker, RxWorker, valid_command, map_to_uart_command, new_node,
}
use linux_iot_gateway.HandBridge.Node.Sound.{Known, Encoded}
use linux_iot_gateway.HandBridge.Node.Invariant.{
  held_by_callback, Prepared, Core, IsValid, apply-Core, enqueue-Core, enqueue-retry_policy,
}

begin_frame-Encoded :
    (cmd : Bytes) (seq : ℕ)
    → valid_command cmd ≡ true
    → Encoded seq (map_to_uart_command cmd seq) (list_eq cmd (codes "STOP"))
begin_frame-Encoded cmd seq valid = (cmd, valid, refl, refl)

pub callback_begin-IsValid :
    (cmd : Bytes) (n : Node)
    → IsValid n
    → n.callback ≡ Callback.idle
    → IsValid (Node.callback_begin cmd n)
unfolding Node.callback_begin
callback_begin-IsValid cmd n v quiet = ground (arith, begin_frame-Encoded cmd n.next_seq)

pub start-Known :
    (p : RetryPolicy) (f : RetryFrame) (is_stop : Bool)
    → (RetryPolicy.start p f.seq f.frame is_stop).1 ≡ true
    → Known (RetryPolicy.start p f.seq f.frame is_stop).0 f
unfolding RetryPolicy.start RetryPolicy.find RetryPolicy.new_request
start-Known p f is_stop started = elim (Option-cases (OrderedMap.find f.seq p.requests)) [
  | inl e ↦
      let inserted =
        OrderedMap.find-insert f.seq f.seq (RetryPolicy.new_request f.seq f.frame is_stop)
          p.requests e in
      (RetryPolicy.new_request f.seq f.frame is_stop, ground arith, ground arith)
  | inr (r, e) ↦ absurd (ground arith)
]

cancel-Core :
    (p : RetryPolicy) (is_stop : Bool) (n : Node)
    → Core p n
    → Core (if is_stop then RetryPolicy.cancel_non_stop p else p) n
unfolding apply
cancel-Core p true n core = apply-Core p Call.cancel_non_stop n tt core
cancel-Core p false n core = core

callback_register-IsValid :
    (f : RetryFrame) (is_stop : Bool) (n : Node)
    → Encoded f.seq f.frame is_stop
    → Core n.retry_policy n
    → IsValid (Node.callback_register f is_stop n)
unfolding Node.callback_register apply
callback_register-IsValid f is_stop n encoded core =
    elim (Bool-cases (RetryPolicy.start p f.seq f.frame is_stop).1) [
      | inl started ↦
          rw (started, Node.callback_register)
            (record {
              core = after;
              callback_known = (start-Known p f is_stop started, tt);
              prepared = tt;
            })
      | inr refused ↦
          rw (refused, Node.callback_register)
            (record { core = after; callback_known = tt; prepared = tt })
    ]
  where
    p : RetryPolicy
    p = if is_stop then RetryPolicy.cancel_non_stop n.retry_policy else n.retry_policy

    after : Core (RetryPolicy.start p f.seq f.frame is_stop).0 n
    after =
        apply-Core p (Call.start f.seq f.frame is_stop) n encoded
          (cancel-Core n.retry_policy is_stop n core)

callback_enqueue-IsValid :
    (f : RetryFrame) (is_stop : Bool) (n : Node)
    → Known n.retry_policy f
    → Core n.retry_policy n
    → IsValid (Node.callback_enqueue f is_stop n)
unfolding Node.callback_enqueue
callback_enqueue-IsValid f is_stop n k core =
    let core' =
      subst (λ p. Core p n') (sym same) (enqueue-Core n.retry_policy f is_stop n k core) in
    elim (Bool-cases (Node.enqueue_uart_command f is_stop n).1) [
      | inl queued ↦
          rw (queued, Node.callback_enqueue)
            (record { core = core'; callback_known = tt; prepared = tt })
      | inr refused ↦
          rw (refused, Node.callback_enqueue)
            (record {
              core = core';
              callback_known = (subst (λ p. Known p f) (sym same) k, tt);
              prepared = tt;
            })
    ]
  where
    n' : Node
    n' = (Node.enqueue_uart_command f is_stop n).0

    same : n'.retry_policy ≡ n.retry_policy
    same = enqueue-retry_policy f is_stop n

callback_fail-IsValid :
    (f : RetryFrame) (n : Node) → Core n.retry_policy n → IsValid (Node.callback_fail f n)
unfolding Node.callback_fail apply
callback_fail-IsValid f n core = record {
  core = apply-Core n.retry_policy (Call.mark_send_failed f.seq) n tt core;
  callback_known = tt;
  prepared = tt;
}

pub callback_step-IsValid :
    (c : Callback) (n : Node) → n.callback ≡ c → IsValid n → IsValid (Node.callback_step c n)
unfolding Node.callback_step
callback_step-IsValid Callback.idle n e v = v
callback_step-IsValid (Callback.numbered f is_stop) n e v =
    callback_register-IsValid f is_stop n (subst Prepared e v.prepared) v.core
callback_step-IsValid (Callback.registered f is_stop) n e v =
    callback_enqueue-IsValid f is_stop n
      (subst (λ c. All (Known n.retry_policy) (held_by_callback c)) e v.callback_known).0 v.core
callback_step-IsValid (Callback.unsent f) n e v = callback_fail-IsValid f n v.core

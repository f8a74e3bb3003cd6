-- ===== src/HandBridge/RetryPolicy/Calls.antt =====
-- Sequences of calls of `RetryPolicy`, each made under `ack_mutex_`.
use linux_iot_gateway.Common.{ℕ, Bool, List, [], ◌∷◌, ◌++◌, Bytes}
use linux_iot_gateway.HandBridge.AckParser.{AckStatus}
use linux_iot_gateway.HandBridge.RetryPolicy
use linux_iot_gateway.HandBridge.RetryPolicy.{RetryPolicy, RetryFrame}

pub data Call : Type 0 where
  start : ℕ → Bytes → Bool → Call
  mark_sent : ℕ → ℕ → Call
  mark_send_failed : ℕ → Call
  on_ack : ℕ → AckStatus → ℕ → Call
  poll : ℕ → Call
  cancel_non_stop : Call

-- The policy after a call, and the retries that the call gives out.
unfoldable pub apply : RetryPolicy → Call → RetryPolicy × List RetryFrame
apply p (start seq frame is_stop) = ((RetryPolicy.start p seq frame is_stop).0, [])
apply p (mark_sent seq now) = ((RetryPolicy.mark_sent p seq now).0, [])
apply p (mark_send_failed seq) = ((RetryPolicy.mark_send_failed p seq).0, [])
apply p (on_ack seq status now) = ((RetryPolicy.on_ack p seq status now).0, [])
apply p (poll now) = RetryPolicy.poll p now
apply p cancel_non_stop = (RetryPolicy.cancel_non_stop p, [])

unfoldable pub run : RetryPolicy → List Call → RetryPolicy × List RetryFrame
run p [] = (p, [])
run p (c ∷ cs) = let (q, frames) = apply p c in let (q', later) = run q cs in (q', frames ++ later)

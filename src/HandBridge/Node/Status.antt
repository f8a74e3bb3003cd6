-- ===== src/HandBridge/Node/Status.antt =====
-- `status_callback`: what it can say of the command that was submitted last.
use linux_iot_gateway.Common.{
  ℕ, Bool, true, false, List, ◌++◌, Option, none, some, ◌≡◌, refl, ap, ◌∙◌, arith, Bytes, codes,
  ◌==◌,
}
use linux_iot_gateway.Common.Decimal.{to_string}
use linux_iot_gateway.HandBridge.RetryPolicy
use linux_iot_gateway.HandBridge.RetryPolicy.{
  RetryPolicy, Request, RequestState, RequestState-discrete, RetryFrame,
}
use linux_iot_gateway.HandBridge.RetryPolicy.Pointwise.{registered}
use linux_iot_gateway.HandBridge.Node
use linux_iot_gateway.HandBridge.Node.{Node, Callback, TxWorker, RetryWorker}
use linux_iot_gateway.HandBridge.Node.Schedule.{Event, run}
use linux_iot_gateway.HandBridge.Node.Registration.{LastRegistered}
use linux_iot_gateway.HandBridge.Node.Tracking.{Tracks, run-LastRegistered}

-- The replies of the service, by the number that was registered last.
pub data StatusReply (last : Option ℕ) (p : RetryPolicy) (reply : Bool × Bytes) : Type 0 where
  no_command :
      last ≡ none → reply ≡ (false, codes "No command submitted") → StatusReply last p reply
  succeeded :
      (j : ℕ) (r : Request)
      → last ≡ some j
      → RetryPolicy.find p j ≡ some r
      → r.state ≡ RequestState.succeeded
      → reply ≡ (true, codes "SEQ:" ++ to_string j ++ codes " STATUS:" ++ codes "SUCCEEDED")
      → StatusReply last p reply
  otherwise :
      (j : ℕ) (r : Request)
      → last ≡ some j
      → RetryPolicy.find p j ≡ some r
      → ¬ (r.state ≡ RequestState.succeeded)
      → reply ≡ (
        false,
        codes "SEQ:" ++ to_string j ++ codes " STATUS:" ++ Node.request_state_to_string r.state,
      )
      → StatusReply last p reply

is_succeeded : RequestState → Bool
is_succeeded RequestState.succeeded = true
is_succeeded _ = false

not_succeeded : (s : RequestState) → ¬ (s ≡ RequestState.succeeded) → is_succeeded s ≡ false
unfolding is_succeeded
not_succeeded RequestState.succeeded h = absurd (h refl)
not_succeeded _ h = refl

reply_lem :
    (n : Node) (r : Request)
    → RetryPolicy.find n.retry_policy n.latest_requested_seq ≡ some r
    → (n.latest_requested_seq == 0) ≡ false
    → Node.status_callback n ≡ (
      is_succeeded r.state,
      codes "SEQ:"
          ++ to_string n.latest_requested_seq
          ++ codes " STATUS:"
          ++ Node.request_state_to_string r.state,
    )
unfolding Node.status_callback is_succeeded
reply_lem n r e positive = rw (positive, e, Node.status_callback)

status_callback-StatusReply :
    (last : Option ℕ) (n : Node)
    → Tracks last n
    → StatusReply last n.retry_policy (Node.status_callback n)
unfolding Node.status_callback
status_callback-StatusReply none n zero = no_command refl (ground arith)
status_callback-StatusReply (some j) n (at, positive, (r, e)) =
    elim (RequestState-discrete r.state RequestState.succeeded) [
      | yes ok ↦
          succeeded j r refl e ok
            (replies ∙ (unfold is_succeeded Node.request_state_to_string in rw ok))
      | no other ↦ otherwise j r refl e other (rw (replies, not_succeeded r.state other))
    ]
  where
    replies : Node.status_callback n ≡ (
      is_succeeded r.state,
      codes "SEQ:" ++ to_string j ++ codes " STATUS:" ++ Node.request_state_to_string r.state,
    )
    replies =
        reply_lem n r (ap (RetryPolicy.find n.retry_policy) at ∙ e) (ground arith)
        ∙ ap
            (λ k. (
              is_succeeded r.state,
              codes "SEQ:"
                  ++ to_string k
                  ++ codes " STATUS:"
                  ++ Node.request_state_to_string r.state,
            ))
            at

-- At any time the service says that no command was submitted yet, if no request has been registered
-- so far, or else the state of the request that was registered last, with its number; it reports
-- success exactly if that state is SUCCEEDED, and it never misses the request. A request is
-- registered by a step that makes the entry of its number new, and no step registers two.
pub run-StatusReply :
    (uart_fd : Option ℕ) (es : List Event)
    → let n = run (Node.new_node uart_fd) es in
      (last : Option ℕ) × LastRegistered (Node.new_node uart_fd) none es last
      × StatusReply last n.retry_policy (Node.status_callback n)
unfolding Node.new_node
run-StatusReply uart_fd es =
    let (last, registered, tracks) = run-LastRegistered es none (Node.new_node uart_fd) refl in
    (last, registered, status_callback-StatusReply last (run (Node.new_node uart_fd) es) tracks)

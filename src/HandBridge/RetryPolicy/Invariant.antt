-- ===== src/HandBridge/RetryPolicy/Invariant.antt =====
-- What holds of `requests_` between two calls.
use linux_iot_gateway.Common.{
  ℕ, ◌≤◌, ◌<◌, Bool, false, List, [], ◌∷◌, Option, some, ◌≡◌, inl, inr, arith, Bytes, is_empty,
  Option-cases,
}
use linux_iot_gateway.Common.OrderedMap
use linux_iot_gateway.Common.OrderedMap.{Sorted}
use linux_iot_gateway.HandBridge.AckParser.{AckStatus}
use linux_iot_gateway.HandBridge.RetryPolicy
use linux_iot_gateway.HandBridge.RetryPolicy.{
  RetryPolicy, Request, RequestState, queued, retry_queued, max_retries,
}
use linux_iot_gateway.HandBridge.RetryPolicy.Calls.{Call, apply, run}
use linux_iot_gateway.HandBridge.RetryPolicy.Pointwise.{polled, poll_loop-append}

-- The entry of `k`: its own number, a frame, and a count of retries that fits its state.
pub record RequestIsValid (k : ℕ) (r : Request) : Type 0 where
  pub keyed : r.seq ≡ k
  pub framed : is_empty r.frame ≡ false
  pub capped : r.retries_used ≤ max_retries
  pub fresh : r.state ≡ queued → r.retries_used ≡ 0
  pub retried : r.state ≡ retry_queued → 0 < r.retries_used

-- The entries ascend from 1 on.
abbrev pub IsValid : RetryPolicy → Type 0
IsValid p = Sorted RequestIsValid 0 p.requests

pub empty-IsValid : IsValid RetryPolicy.empty
unfolding RetryPolicy.empty
empty-IsValid = tt

sent-IsValid :
    (k now : ℕ) (r r' : Request)
    → RequestIsValid k r
    → RetryPolicy.sent now r ≡ some r'
    → RequestIsValid k r'
unfolding RetryPolicy.sent
sent-IsValid k now r r' v e = ground arith

send_failed-IsValid :
    (k : ℕ) (r r' : Request)
    → RequestIsValid k r
    → RetryPolicy.send_failed r ≡ some r'
    → RequestIsValid k r'
unfolding RetryPolicy.send_failed
send_failed-IsValid k r r' v e = ground arith

acked-IsValid :
    (k : ℕ) (status : AckStatus) (now : ℕ) (r r' : Request)
    → RequestIsValid k r
    → RetryPolicy.acked status now r ≡ some r'
    → RequestIsValid k r'
unfolding RetryPolicy.acked
acked-IsValid k status now r r' v e = ground arith

polled-IsValid : (now k : ℕ) (r : Request) → RequestIsValid k r → RequestIsValid k (polled now r)
unfolding polled RetryPolicy.poll_round
polled-IsValid now k r v = ground arith

cancelled-IsValid :
    (k : ℕ) (r : Request) → RequestIsValid k r → RequestIsValid k (RetryPolicy.cancelled r)
unfolding RetryPolicy.cancelled
cancelled-IsValid k r v = ground arith

with_request-IsValid :
    (p : RetryPolicy) (seq : ℕ) (f : Request → Option Request)
    → ((r r' : Request) → RequestIsValid seq r → f r ≡ some r' → RequestIsValid seq r')
    → IsValid p
    → IsValid (RetryPolicy.with_request p seq f).0
unfolding RetryPolicy.with_request
with_request-IsValid p seq f keep v = elim (Option-cases (OrderedMap.find seq p.requests)) [
  | inl e ↦ rw (e, RetryPolicy.with_request) v
  | inr (r, e) ↦ elim (Option-cases (f r)) [
    | inl refused ↦ rw (e, refused, RetryPolicy.with_request) v
    | inr (r', done) ↦
        let valid = keep r r' (OrderedMap.find-Sorted RequestIsValid seq 0 p.requests v e) done in
        rw (e, done, RetryPolicy.with_request)
          (OrderedMap.modify-Sorted RequestIsValid seq (λ _. r') 0 p.requests (λ _ _. valid) v)
  ]
]

start-IsValid :
    (p : RetryPolicy) (seq : ℕ) (frame : Bytes) (is_stop : Bool)
    → IsValid p
    → IsValid (RetryPolicy.start p seq frame is_stop).0
unfolding RetryPolicy.start RetryPolicy.new_request
start-IsValid p seq frame is_stop v = elim (Option-cases (OrderedMap.find seq p.requests)) [
  | inl e ↦ ground (
    arith,
    OrderedMap.insert-Sorted RequestIsValid seq (RetryPolicy.new_request seq frame is_stop) 0
        p.requests,
  )
  | inr (r, e) ↦ ground arith
]

-- Every call, on every branch, keeps a valid policy valid: the entries in the order of their
-- numbers, and each of them well-formed.
pub apply-IsValid : (p : RetryPolicy) (c : Call) → IsValid p → IsValid (apply p c).0
unfolding apply
apply-IsValid p (Call.start seq frame is_stop) v = start-IsValid p seq frame is_stop v
apply-IsValid p (Call.mark_sent seq now) v =
    unfold RetryPolicy.mark_sent in with_request-IsValid p seq _ (sent-IsValid seq now) v
apply-IsValid p (Call.mark_send_failed seq) v =
    unfold RetryPolicy.mark_send_failed in with_request-IsValid p seq _ (send_failed-IsValid seq) v
apply-IsValid p (Call.on_ack seq status now) v =
    unfold RetryPolicy.on_ack in with_request-IsValid p seq _ (acked-IsValid seq status now) v
apply-IsValid p (Call.poll now) v =
    unfold RetryPolicy.poll in
    rw (poll_loop-append now p.requests [])
      (OrderedMap.map_values-Sorted RequestIsValid (polled now) 0 p.requests (polled-IsValid now) v)
apply-IsValid p Call.cancel_non_stop v =
    unfold RetryPolicy.cancel_non_stop in
    OrderedMap.map_values-Sorted RequestIsValid RetryPolicy.cancelled 0 p.requests cancelled-IsValid
      v

pub run-IsValid : (p : RetryPolicy) (cs : List Call) → IsValid p → IsValid (run p cs).0
unfolding run
run-IsValid p [] v = v
run-IsValid p (c ∷ cs) v = run-IsValid (apply p c).0 cs (apply-IsValid p c v)

-- A request that is found is valid.
pub find-RequestIsValid :
    (p : RetryPolicy) (j : ℕ) {r : Request}
    → IsValid p
    → RetryPolicy.find p j ≡ some r
    → RequestIsValid j r
unfolding RetryPolicy.find
find-RequestIsValid p j v e = OrderedMap.find-Sorted RequestIsValid j 0 p.requests v e

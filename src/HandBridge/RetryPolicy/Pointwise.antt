-- ===== src/HandBridge/RetryPolicy/Pointwise.antt =====
-- The policy as a function from sequence numbers to requests: what each call does at each number.
use mathlib.Core.Option
use linux_iot_gateway.Common.{
  ℕ, Bool, ◌||◌, List, [], ◌∷◌, ◌++◌, Option, none, some, ◌≡◌, inl, inr, arith, Bytes, ◌==◌,
  if◌then◌else◌, is_empty, Option-cases, append_assoc, append-nil,
}
use linux_iot_gateway.Common.OrderedMap
use linux_iot_gateway.HandBridge.RetryPolicy
use linux_iot_gateway.HandBridge.RetryPolicy.{RetryPolicy, Request, RetryFrame}
use linux_iot_gateway.HandBridge.RetryPolicy.Calls.{Call, apply}

-- The request that `f` leaves behind.
abbrev pub written : (Request → Option Request) → Request → Request
written f r = Option.get_or (f r) r

-- What a round of `poll` makes of a request, and the retry that it gives out.
unfoldable pub polled : ℕ → Request → Request
polled now r = (RetryPolicy.poll_round now r []).0

unfoldable pub retry : ℕ → Request → List RetryFrame
retry now r = (RetryPolicy.poll_round now r []).1

unfoldable pub registered : ℕ → Bytes → Bool → Option Request → Option Request
registered seq frame is_stop none =
    if seq == 0 || is_empty frame then none else some (RetryPolicy.new_request seq frame is_stop)
registered seq frame is_stop (some r) = some r

abbrev at : ℕ → ℕ → (Option Request → Option Request) → Option Request → Option Request
at seq j f o = if seq == j then f o else o

-- The specification: the effect of a call on the entry of the number `j`.
unfoldable pub effect : Call → ℕ → Option Request → Option Request
unfolding registered
effect (Call.start seq frame is_stop) j = at seq j (registered seq frame is_stop)
effect (Call.mark_sent seq now) j = at seq j (Option.map (written (RetryPolicy.sent now)))
effect (Call.mark_send_failed seq) j = at seq j (Option.map (written RetryPolicy.send_failed))
effect (Call.on_ack seq status now) j =
    at seq j (Option.map (written (RetryPolicy.acked status now)))
effect (Call.poll now) j = Option.map (polled now)
effect Call.cancel_non_stop j = Option.map RetryPolicy.cancelled

find-with_request :
    (p : RetryPolicy) (seq j : ℕ) (f : Request → Option Request)
    → RetryPolicy.find (RetryPolicy.with_request p seq f).0 j
      ≡ at seq j (Option.map (written f)) (RetryPolicy.find p j)
unfolding RetryPolicy.find RetryPolicy.with_request
find-with_request p seq j f = elim (Option-cases (OrderedMap.find seq p.requests)) [
  | inl e ↦ ground arith
  | inr (r, e) ↦ elim (Option-cases (f r)) [
    | inl refused ↦ ground arith
    | inr (r', done) ↦ ground (arith, OrderedMap.find-modify seq j (λ (_ : Request). r') p.requests)
  ]
]

poll_round-append :
    (now : ℕ) (r : Request) (output : List RetryFrame)
    → RetryPolicy.poll_round now r output ≡ (polled now r, output ++ retry now r)
unfolding RetryPolicy.poll_round polled retry
poll_round-append now r output = ground (arith, append-nil output)

unfoldable pub retries : ℕ → List (ℕ × Request) → List RetryFrame
retries now [] = []
retries now ((k, r) ∷ m) = retry now r ++ retries now m

-- The loop of `poll` polls each request on its own, and gives out the retries in order.
pub poll_loop-append :
    (now : ℕ) (m : List (ℕ × Request)) (output : List RetryFrame)
    → RetryPolicy.poll_loop now m output
      ≡ (OrderedMap.map_values (polled now) m, output ++ retries now m)
unfolding RetryPolicy.poll_loop OrderedMap.map_values retries
poll_loop-append now [] output = rw append-nil
poll_loop-append now ((k, r) ∷ m) output =
    simp (poll_round-append, poll_loop-append now m, append_assoc)

find-start :
    (p : RetryPolicy) (seq j : ℕ) (frame : Bytes) (is_stop : Bool)
    → RetryPolicy.find (RetryPolicy.start p seq frame is_stop).0 j
      ≡ at seq j (registered seq frame is_stop) (RetryPolicy.find p j)
unfolding RetryPolicy.find RetryPolicy.start registered
find-start p seq j frame is_stop = elim (Option-cases (OrderedMap.find seq p.requests)) [
  | inl e ↦
      ground
        (arith, OrderedMap.find-insert seq j (RetryPolicy.new_request seq frame is_stop) p.requests)
  | inr (r, e) ↦ ground arith
]

-- Every call does to each entry what the specification says, and nothing else.
pub find-apply :
    (p : RetryPolicy) (c : Call) (j : ℕ)
    → RetryPolicy.find (apply p c).0 j ≡ effect c j (RetryPolicy.find p j)
unfolding apply effect
find-apply p (Call.start seq frame is_stop) j = find-start p seq j frame is_stop
find-apply p (Call.mark_sent seq now) j =
    unfold RetryPolicy.mark_sent in find-with_request p seq j (RetryPolicy.sent now)
find-apply p (Call.mark_send_failed seq) j =
    unfold RetryPolicy.mark_send_failed in find-with_request p seq j RetryPolicy.send_failed
find-apply p (Call.on_ack seq status now) j =
    unfold RetryPolicy.on_ack in find-with_request p seq j (RetryPolicy.acked status now)
find-apply p (Call.poll now) j =
    unfold RetryPolicy.poll RetryPolicy.find in
    rw (poll_loop-append now p.requests []) (OrderedMap.find-map_values j (polled now) p.requests)
find-apply p Call.cancel_non_stop j =
    unfold RetryPolicy.cancel_non_stop RetryPolicy.find in
    OrderedMap.find-map_values j RetryPolicy.cancelled p.requests

-- ===== src/Examples/PolicyRuns.antt =====
-- A policy with two requests, a GRAB that waits in the queue and a STOP that has succeeded.
use linux_iot_gateway.Common.{◌⊎◌, true, false, [], ◌∷◌, some, ◌≡◌, refl, codes, arith}
use linux_iot_gateway.Common.OrderedMap
use linux_iot_gateway.HandBridge.AckParser.{AckStatus}
use linux_iot_gateway.HandBridge.RetryPolicy
use linux_iot_gateway.HandBridge.RetryPolicy.{
  RetryPolicy, Request, RequestState, queued, succeeded, max_retries,
}
use linux_iot_gateway.HandBridge.RetryPolicy.Calls.{Call, apply, run}
use linux_iot_gateway.HandBridge.RetryPolicy.Invariant.{IsValid}
use linux_iot_gateway.HandBridge.RetryPolicy.Progress.{Evolves, apply-Evolves}
use linux_iot_gateway.HandBridge.RetryPolicy.Retries.{count_seq}
use linux_iot_gateway.HandBridge.RetryPolicy.Timeouts.{
  PollOutcome, poll-PollOutcome, silence_gives_up, accepted, admits, admits, accepted_or_unchanged,
}
use linux_iot_gateway.HandBridge.RetryPolicy.Timeouts

abbrev grab_request : Request
grab_request = record {
  seq = 1;
  frame = codes "SEQ:1 CMD:HAND_GRAB";
  is_stop = false;
  state = queued;
  retries_used = 0;
  deadline = 0;
}

abbrev stop_request : Request
stop_request = record {
  seq = 2;
  frame = codes "SEQ:2 CMD:HAND_STOP";
  is_stop = true;
  state = succeeded;
  retries_used = 1;
  deadline = 1500000000;
}

abbrev two_requests : RetryPolicy
two_requests = record { requests = (1, grab_request) ∷ (2, stop_request) ∷ [] }

two_requests-IsValid : IsValid two_requests
two_requests-IsValid = (
  omega arith,
  record {
    keyed = refl;
    framed = refl;
    capped = omega arith;
    fresh = λ e. refl;
    retried = λ e. cc;
  },
  (
    omega arith,
    record {
      keyed = refl;
      framed = refl;
      capped = omega arith;
      fresh = λ e. cc;
      retried = λ e. cc;
    },
    tt,
  ),
)

find-grab : RetryPolicy.find two_requests 1 ≡ some grab_request
unfolding RetryPolicy.find OrderedMap.find
find-grab = refl

find-stop : RetryPolicy.find two_requests 2 ≡ some stop_request
unfolding RetryPolicy.find OrderedMap.find
find-stop = refl

apply-Evolves_example :
    (r' : Request) × (RetryPolicy.find (apply two_requests (Call.mark_sent 1 7)).0 1 ≡ some r')
    × Evolves grab_request r'
apply-Evolves_example = apply-Evolves two_requests (Call.mark_sent 1 7) 1 find-grab

poll-PollOutcome_example :
    (r' : Request) × (RetryPolicy.find (RetryPolicy.poll two_requests 9).0 1 ≡ some r')
    × PollOutcome 9 grab_request r' (count_seq 1 (RetryPolicy.poll two_requests 9).1)
poll-PollOutcome_example = poll-PollOutcome two_requests 9 1 two_requests-IsValid find-grab

silence_gives_up_example :
    let after =
      run two_requests
        (Timeouts.silence 1 0 1500000000 1500000000 3000000000 3000000000 4500000000) in
    (RetryPolicy.find after.0 1 ≡ some (Timeouts.given_up 3000000000 grab_request))
    × (count_seq 1 after.1 ≡ 2)
silence_gives_up_example =
    silence_gives_up two_requests 1 0 1500000000 1500000000 3000000000 3000000000 4500000000
      two_requests-IsValid find-grab refl (omega arith) (omega arith) (omega arith)

stop_is_settled : accepted two_requests (Call.on_ack 2 AckStatus.ok 5) ≡ false
unfolding RetryPolicy.on_ack RetryPolicy.with_request RetryPolicy.acked RetryPolicy.superseded_ack
    OrderedMap.find
stop_is_settled = refl

accepted_or_unchanged_example :
    (accepted two_requests (Call.on_ack 2 AckStatus.ok 5)
      ≡ admits two_requests (Call.on_ack 2 AckStatus.ok 5))
    × ((accepted two_requests (Call.on_ack 2 AckStatus.ok 5) ≡ true)
        ⊎ (apply two_requests (Call.on_ack 2 AckStatus.ok 5) ≡ (two_requests, [])))
accepted_or_unchanged_example = accepted_or_unchanged two_requests (Call.on_ack 2 AckStatus.ok 5)

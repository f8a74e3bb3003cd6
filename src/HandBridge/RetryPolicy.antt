-- ===== src/HandBridge/RetryPolicy.antt =====
-- ros2_ws/src/hand_bridge/include/hand_bridge/retry_policy.hpp: the state of each request.
-- A `TimePoint` is a count of nanoseconds, the tick of `steady_clock`; the clock does not wrap.
pub mod Calls
pub mod Pointwise
pub mod Invariant
pub mod Progress
pub mod Retries
pub mod Timeouts
use linux_iot_gateway.Common.{
  ℕ, suc, ◌+◌, ◌*◌, Bool, true, false, ◌||◌, List, [], ◌∷◌, ◌++◌, Option, none, some, Bytes, ltb,
  leb, ◌==◌, if◌then◌else◌, is_empty,
}
use linux_iot_gateway.Common.OrderedMap
use linux_iot_gateway.HandBridge.AckParser.{AckStatus}

pub data RequestState : Type 0 where
  queued waiting_ack executing retry_queued : RequestState
  succeeded preempted busy error superseded result_unknown : RequestState

pub RequestState-discrete : Discrete RequestState
RequestState-discrete = hlevel

pub record RetryFrame : Type 0 where
  pub seq : ℕ
  pub frame : Bytes

pub record Request : Type 0 where
  pub seq : ℕ
  pub frame : Bytes
  pub is_stop : Bool
  pub state : RequestState
  pub retries_used : ℕ
  pub deadline : ℕ

-- `requests_`, in the order of an iteration.
pub record RetryPolicy : Type 0 where
  pub requests : List (ℕ × Request)

abbrev pub max_retries : ℕ
max_retries = 2

abbrev pub milliseconds : ℕ → ℕ
milliseconds n = n * 1_000_000

abbrev pub ack_timeout : ℕ
ack_timeout = milliseconds 1500

abbrev pub exec_timeout : ℕ
exec_timeout = milliseconds 15000

-- The tests of a state that the operations make.
abbrev pub is_sendable : RequestState → Bool
is_sendable queued = true
is_sendable retry_queued = true
is_sendable _ = false

abbrev pub is_timed : RequestState → Bool
is_timed waiting_ack = true
is_timed executing = true
is_timed _ = false

abbrev pub is_answerable : RequestState → Bool
is_answerable waiting_ack = true
is_answerable executing = true
is_answerable retry_queued = true
is_answerable _ = false

abbrev pub is_active : RequestState → Bool
is_active queued = true
is_active waiting_ack = true
is_active executing = true
is_active retry_queued = true
is_active _ = false

unfoldable pub empty : RetryPolicy
empty = record { requests = [] }

unfoldable pub new_request : ℕ → Bytes → Bool → Request
new_request seq frame is_stop = record {
  seq = seq;
  frame = frame;
  is_stop = is_stop;
  state = queued;
  retries_used = 0;
  deadline = 0;
}

unfoldable pub start : RetryPolicy → ℕ → Bytes → Bool → RetryPolicy × Bool
unfolding OrderedMap.emplace
start p seq frame is_stop =
    if seq == 0 || is_empty frame
    then (p, false)
    else let (m, inserted) = OrderedMap.emplace seq (new_request seq frame is_stop) p.requests in
      (record p { requests = m }, inserted)

-- What an operation does to the request that it finds; `none` is `return false` with no write.
unfoldable pub sent : ℕ → Request → Option Request
sent now r =
    if is_sendable r.state
    then some (record r { state = waiting_ack; deadline = now + ack_timeout })
    else none

unfoldable pub send_failed : Request → Option Request
send_failed r = if is_sendable r.state then some (record r { state = result_unknown }) else none

unfoldable pub superseded_ack : AckStatus → Request → Option Request
superseded_ack AckStatus.preempted r = some (record r { state = preempted })
superseded_ack AckStatus.ok r = some (record r { state = succeeded })
superseded_ack AckStatus.error r = some (record r { state = error })
superseded_ack AckStatus.busy r = none
superseded_ack AckStatus.in_progress r = none

unfoldable pub answerable_ack : AckStatus → ℕ → Request → Request
answerable_ack AckStatus.in_progress now r = record r {
  state = executing;
  deadline = now + exec_timeout;
}
answerable_ack AckStatus.ok now r = record r { state = succeeded }
answerable_ack AckStatus.preempted now r = record r { state = preempted }
answerable_ack AckStatus.busy now r = record r { state = busy }
answerable_ack AckStatus.error now r = record r { state = error }

abbrev is_superseded : RequestState → Bool
is_superseded superseded = true
is_superseded _ = false

unfoldable pub acked : AckStatus → ℕ → Request → Option Request
unfolding superseded_ack answerable_ack
acked status now r =
    if is_superseded r.state
    then superseded_ack status r
    else if is_answerable r.state
    then some (answerable_ack status now r)
    else none

-- `find`, the guards of `f`, and the write through the iterator.
unfoldable pub with_request : RetryPolicy → ℕ → (Request → Option Request) → RetryPolicy × Bool
with_request p seq f = elim (OrderedMap.find seq p.requests) [
  | none ↦ (p, false)
  | some r ↦ elim (f r) [
    | none ↦ (p, false)
    | some r' ↦ (record p { requests = OrderedMap.modify seq (λ _. r') p.requests }, true)
  ]
]

unfoldable pub mark_sent : RetryPolicy → ℕ → ℕ → RetryPolicy × Bool
unfolding with_request
mark_sent p seq now = with_request p seq (sent now)

unfoldable pub mark_send_failed : RetryPolicy → ℕ → RetryPolicy × Bool
unfolding with_request
mark_send_failed p seq = with_request p seq send_failed

unfoldable pub on_ack : RetryPolicy → ℕ → AckStatus → ℕ → RetryPolicy × Bool
unfolding with_request
on_ack p seq status now = with_request p seq (acked status now)

-- One round of the loop of `poll`, on the request of this round and the output so far.
unfoldable pub poll_round : ℕ → Request → List RetryFrame → Request × List RetryFrame
poll_round now r output =
    if is_timed r.state
    then if ltb now r.deadline
      then (r, output)
      else if leb max_retries r.retries_used
      then (record r { state = result_unknown }, output)
      else (
        record r { retries_used = suc r.retries_used; state = retry_queued },
        output ++ record { seq = r.seq; frame = r.frame } ∷ [],
      )
    else (r, output)

unfoldable pub poll_loop :
    ℕ → List (ℕ × Request) → List RetryFrame → List (ℕ × Request) × List RetryFrame
unfolding poll_round
poll_loop now [] output = ([], output)
poll_loop now ((k, r) ∷ m) output =
    let (r', output') = poll_round now r output in
    let (m', output'') = poll_loop now m output' in ((k, r') ∷ m', output'')

unfoldable pub poll : RetryPolicy → ℕ → RetryPolicy × List RetryFrame
unfolding poll_loop
poll p now = let (m, output) = poll_loop now p.requests [] in (record p { requests = m }, output)

unfoldable pub cancelled : Request → Request
cancelled r =
    if r.is_stop then r else if is_active r.state then record r { state = superseded } else r

unfoldable pub cancel_non_stop : RetryPolicy → RetryPolicy
cancel_non_stop p = record p { requests = OrderedMap.map_values cancelled p.requests }

unfoldable pub find : RetryPolicy → ℕ → Option Request
unfolding OrderedMap.find
find p seq = OrderedMap.find seq p.requests

unfoldable pub should_transmit : RetryPolicy → ℕ → Bool
unfolding find
should_transmit p seq = elim (find p seq) [ none ↦ false | some r ↦ is_sendable r.state ]

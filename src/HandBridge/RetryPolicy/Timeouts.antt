-- ===== src/HandBridge/RetryPolicy/Timeouts.antt =====
-- What `poll` and `on_ack` decide, branch by branch, and how a silent device is given up.
use linux_iot_gateway.Common.{
  ◌⊎◌, ℕ, suc, ◌+◌, ◌≤◌, ◌<◌, Bool, true, false, ◌||◌, not, List, [], ◌∷◌, Option, none, some, ◌≡◌,
  refl, ap, inl, inr, arith, ltb, leb, ◌==◌, is_empty, Bool-cases,
}
use linux_iot_gateway.HandBridge.AckParser.{AckStatus}
use linux_iot_gateway.HandBridge.RetryPolicy
use linux_iot_gateway.HandBridge.RetryPolicy.{
  RetryPolicy, Request, RequestState, RetryFrame, queued, retry_queued, waiting_ack, result_unknown,
  superseded, is_timed, is_answerable, is_sendable, max_retries, ack_timeout, milliseconds,
}
use linux_iot_gateway.HandBridge.RetryPolicy.Calls.{Call, apply, run}
use linux_iot_gateway.HandBridge.RetryPolicy.Pointwise.{polled, effect, find-apply}
use linux_iot_gateway.HandBridge.RetryPolicy.Invariant.{IsValid, find-RequestIsValid}
use linux_iot_gateway.HandBridge.RetryPolicy.Retries.{count_seq, used, poll-used, run-used}

-- What `poll` makes of the request `r` of a number: the request afterwards, and how often the
-- number is among the retries.
pub data PollOutcome (now : ℕ) (r r' : Request) (n : ℕ) : Type 0 where
  untimed : is_timed r.state ≡ false → r' ≡ r → n ≡ 0 → PollOutcome now r r' n
  early : is_timed r.state ≡ true → now < r.deadline → r' ≡ r → n ≡ 0 → PollOutcome now r r' n
  again :
      is_timed r.state ≡ true
      → r.deadline ≤ now
      → r.retries_used < max_retries
      → r' ≡ record r { state = retry_queued; retries_used = r.retries_used + 1 }
      → n ≡ 1
      → PollOutcome now r r' n
  exhausted :
      is_timed r.state ≡ true
      → r.deadline ≤ now
      → max_retries ≤ r.retries_used
      → r' ≡ record r { state = result_unknown }
      → n ≡ 0
      → PollOutcome now r r' n

polled-PollOutcome :
    (now n : ℕ) (r : Request)
    → (polled now r).retries_used ≡ r.retries_used + n
    → PollOutcome now r (polled now r) n
unfolding polled RetryPolicy.poll_round
polled-PollOutcome now n r e = elim (Bool-cases (is_timed r.state)) [
  | inl timed ↦ elim (Bool-cases (ltb now r.deadline)) [
    | inl soon ↦ early timed (ground arith) (ground arith) (ground arith)
    | inr due ↦ elim (Bool-cases (leb max_retries r.retries_used)) [
      | inl spent ↦ exhausted timed (ground arith) (ground arith) (ground arith) (ground arith)
      | inr left ↦ again timed (ground arith) (ground arith) (ground arith) (ground arith)
    ]
  ]
  | inr idle ↦ untimed idle (ground arith) (ground arith)
]

-- In a valid policy `poll` gives a request out again, once, exactly when it is in WAITING_ACK or
-- EXECUTING past its deadline with a retry left, gives it up exactly when none is left, and changes
-- nothing of it otherwise.
pub poll-PollOutcome :
    (p : RetryPolicy) (now j : ℕ) {r : Request}
    → IsValid p
    → RetryPolicy.find p j ≡ some r
    → (r' : Request) × (RetryPolicy.find (RetryPolicy.poll p now).0 j ≡ some r')
      × PollOutcome now r r' (count_seq j (RetryPolicy.poll p now).1)
poll-PollOutcome p now j {r} v e = (
  polled now r,
  unfold apply effect in rw (e, effect) at (find-apply p (Call.poll now) j),
  polled-PollOutcome now _ r (rw e at (poll-used p now j v)),
)

pub effects : List Call → ℕ → Option Request → Option Request
effects [] j o = o
effects (c ∷ cs) j o = effects cs j (effect c j o)

pub find-run :
    (p : RetryPolicy) (cs : List Call) (j : ℕ)
    → RetryPolicy.find (run p cs).0 j ≡ effects cs j (RetryPolicy.find p j)
unfolding run effects
find-run p [] j = refl
find-run p (c ∷ cs) j = rw (find-run (apply p c).0 cs j) (ap (effects cs j) (find-apply p c j))

-- A request sent and timed out, then sent again and timed out twice, with no answer.
abbrev pub silence : ℕ → ℕ → ℕ → ℕ → ℕ → ℕ → ℕ → List Call
silence j t0 t1 t2 t3 t4 t5 =
    Call.mark_sent j t0
    ∷ Call.poll t1
    ∷ Call.mark_sent j t2
    ∷ Call.poll t3
    ∷ Call.mark_sent j t4
    ∷ Call.poll t5
    ∷ []

abbrev pub given_up : ℕ → Request → Request
given_up t r = record r { state = result_unknown; retries_used = 2; deadline = t + ack_timeout }

abbrev given_out : ℕ → Request → Request
given_out t r = record r {
  state = retry_queued;
  retries_used = suc r.retries_used;
  deadline = t + ack_timeout;
}

send_poll :
    (j t t' : ℕ) (r : Request)
    → is_sendable r.state ≡ true
    → t + ack_timeout ≤ t'
    → r.retries_used < max_retries
    → effect (Call.poll t') j (effect (Call.mark_sent j t) j (some r)) ≡ some (given_out t r)
unfolding effect polled RetryPolicy.sent RetryPolicy.poll_round
send_poll j t t' r sendable late left = ground arith

send_poll_last :
    (j t t' : ℕ) (r : Request)
    → is_sendable r.state ≡ true
    → t + ack_timeout ≤ t'
    → max_retries ≤ r.retries_used
    → effect (Call.poll t') j (effect (Call.mark_sent j t) j (some r))
      ≡ some (record r { state = result_unknown; deadline = t + ack_timeout })
unfolding effect polled RetryPolicy.sent RetryPolicy.poll_round
send_poll_last j t t' r sendable late spent = ground arith

effects-silence :
    (j t0 t1 t2 t3 t4 t5 : ℕ) (r : Request)
    → r.state ≡ queued
    → r.retries_used ≡ 0
    → t0 + ack_timeout ≤ t1
    → t2 + ack_timeout ≤ t3
    → t4 + ack_timeout ≤ t5
    → effects (silence j t0 t1 t2 t3 t4 t5) j (some r) ≡ some (given_up t4 r)
unfolding effects
effects-silence j t0 t1 t2 t3 t4 t5 r new unused h0 h2 h4 =
    rw (send_poll j t0 t1 r (ground arith) h0 (omega arith)) (
      rw (send_poll j t2 t3 (given_out t0 r) refl h2 (omega arith)) (
        rw (send_poll_last j t4 t5 (given_out t2 (given_out t0 r)) refl h4 (omega arith))
          (ground arith)))

-- A valid request that is in the state QUEUED, and is three times sent and polled 1500 ms later or
-- more without an answer, is given out for a retry exactly twice and ends as RESULT_UNKNOWN.
pub silence_gives_up :
    (p : RetryPolicy) (j t0 t1 t2 t3 t4 t5 : ℕ) {r : Request}
    → IsValid p
    → RetryPolicy.find p j ≡ some r
    → r.state ≡ queued
    → t0 + ack_timeout ≤ t1
    → t2 + ack_timeout ≤ t3
    → t4 + ack_timeout ≤ t5
    → let after = run p (silence j t0 t1 t2 t3 t4 t5) in
      (RetryPolicy.find after.0 j ≡ some (given_up t4 r)) × (count_seq j after.1 ≡ 2)
silence_gives_up p j t0 t1 t2 t3 t4 t5 {r} v e new h0 h2 h4 = (found, omega (arith, counted))
  where
    cs : List Call
    cs = silence j t0 t1 t2 t3 t4 t5

    unused : r.retries_used ≡ 0
    unused = (find-RequestIsValid p j v e).fresh new

    found : RetryPolicy.find (run p cs).0 j ≡ some (given_up t4 r)
    found = rw (find-run p cs j, e) (effects-silence j t0 t1 t2 t3 t4 t5 r new unused h0 h2 h4)

    counted : 2 ≡ 0 + count_seq j (run p cs).1
    counted = omega (arith, run-used p cs j v, ap used found, ap used e, unused)

-- Which acknowledgements count, by the state of the request.
abbrev accepts : AckStatus → RequestState → Bool
accepts AckStatus.ok superseded = true
accepts AckStatus.preempted superseded = true
accepts AckStatus.error superseded = true
accepts status state = is_answerable state

-- Whether the call finds what it needs: a new number with a frame, a request to send, or a request
-- that waits for this answer.
abbrev pub admits : RetryPolicy → Call → Bool
admits p (Call.start seq frame is_stop) = elim (RetryPolicy.find p seq) [
  | none ↦ not (seq == 0 || is_empty frame)
  | some _ ↦ false
]
admits p (Call.mark_sent seq now) = RetryPolicy.should_transmit p seq
admits p (Call.mark_send_failed seq) = RetryPolicy.should_transmit p seq
admits p (Call.on_ack seq status now) = elim (RetryPolicy.find p seq) [
  | none ↦ false
  | some r ↦ accepts status r.state
]
admits p (Call.poll now) = true
admits p Call.cancel_non_stop = true

-- What the call returns; `poll` and `cancel_non_stop` cannot fail.
abbrev pub accepted : RetryPolicy → Call → Bool
accepted p (Call.start seq frame is_stop) = (RetryPolicy.start p seq frame is_stop).1
accepted p (Call.mark_sent seq now) = (RetryPolicy.mark_sent p seq now).1
accepted p (Call.mark_send_failed seq) = (RetryPolicy.mark_send_failed p seq).1
accepted p (Call.on_ack seq status now) = (RetryPolicy.on_ack p seq status now).1
accepted p (Call.poll now) = true
accepted p Call.cancel_non_stop = true

pub accepted-admits : (p : RetryPolicy) (c : Call) → accepted p c ≡ admits p c
unfolding RetryPolicy.start RetryPolicy.mark_sent RetryPolicy.mark_send_failed RetryPolicy.on_ack
    RetryPolicy.with_request RetryPolicy.sent RetryPolicy.send_failed RetryPolicy.acked
    RetryPolicy.find RetryPolicy.should_transmit
accepted-admits p (Call.start seq frame is_stop) = ground arith
accepted-admits p (Call.mark_sent seq now) = ground arith
accepted-admits p (Call.mark_send_failed seq) = ground arith
accepted-admits p (Call.on_ack seq status now) = ground arith
accepted-admits p (Call.poll now) = refl
accepted-admits p Call.cancel_non_stop = refl

apply_refused : (p : RetryPolicy) (c : Call) → accepted p c ≡ false → apply p c ≡ (p, [])
unfolding apply RetryPolicy.start RetryPolicy.mark_sent RetryPolicy.mark_send_failed
    RetryPolicy.on_ack RetryPolicy.with_request
apply_refused p (Call.start seq frame is_stop) e = ground arith
apply_refused p (Call.mark_sent seq now) e = ground arith
apply_refused p (Call.mark_send_failed seq) e = ground arith
apply_refused p (Call.on_ack seq status now) e = ground arith
apply_refused p (Call.poll now) e = ground arith
apply_refused p Call.cancel_non_stop e = ground arith

-- `start` returns true exactly for a new number, not 0, with a frame; `mark_sent` and
-- `mark_send_failed` exactly for a request that is queued; `on_ack` exactly for a request that waits
-- for an answer, or is superseded and gets an answer other than BUSY and IN_PROGRESS. A call that
-- returns false changes nothing and gives out no retry.
pub accepted_or_unchanged :
    (p : RetryPolicy) (c : Call)
    → (accepted p c ≡ admits p c) × ((accepted p c ≡ true) ⊎ (apply p c ≡ (p, [])))
accepted_or_unchanged p c = (
  accepted-admits p c,
  elim (Bool-cases (accepted p c)) [ inl good ↦ inl good | inr bad ↦ inr (apply_refused p c bad) ],
)

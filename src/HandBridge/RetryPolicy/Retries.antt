-- ===== src/HandBridge/RetryPolicy/Retries.antt =====
-- The retries that `poll` gives out, counted for one sequence number.
use mathlib.Core.Option
use linux_iot_gateway.Common.{
  ℕ, ◌+◌, ◌≤◌, Bool, true, false, List, [], ◌∷◌, ◌++◌, Option, none, some, ◌≡◌, refl, ap, inl, inr,
  arith, Bytes, ◌==◌, if◌then◌else◌, Bool-cases, Option-cases, count, count-append,
}
use linux_iot_gateway.Common.OrderedMap
use linux_iot_gateway.Common.OrderedMap.{Sorted, find_below}
use linux_iot_gateway.HandBridge.AckParser.{AckStatus}
use linux_iot_gateway.HandBridge.RetryPolicy
use linux_iot_gateway.HandBridge.RetryPolicy.{
  RetryPolicy, Request, RetryFrame, is_timed, max_retries,
}
use linux_iot_gateway.HandBridge.RetryPolicy.Calls.{Call, apply, run}
use linux_iot_gateway.HandBridge.RetryPolicy.Pointwise.{
  polled, written, registered, effect, find-apply, retry, retries, poll_loop-append,
}
use linux_iot_gateway.HandBridge.RetryPolicy.Invariant.{
  RequestIsValid, IsValid, empty-IsValid, apply-IsValid, run-IsValid, find-RequestIsValid,
}

abbrev pub seqs : List RetryFrame → List ℕ
seqs [] = []
seqs (f ∷ fs) = f.seq ∷ seqs fs

seqs-append : (fs gs : List RetryFrame) → seqs (fs ++ gs) ≡ seqs fs ++ seqs gs
seqs-append [] gs = refl
seqs-append (f ∷ fs) gs = ap (◌∷◌ f.seq) (seqs-append fs gs)

-- How often the number `j` is given out.
abbrev pub count_seq : ℕ → List RetryFrame → ℕ
count_seq j fs = count j (seqs fs)

pub count_seq-append :
    (j : ℕ) (fs gs : List RetryFrame) → count_seq j (fs ++ gs) ≡ count_seq j fs + count_seq j gs
count_seq-append j fs gs = rw (seqs-append fs gs) (count-append j (seqs fs) (seqs gs))

-- The retries counted in an entry.
abbrev pub used : Option Request → ℕ
used none = 0
used (some r) = r.retries_used

retry-count :
    (now k j : ℕ) (r : Request)
    → RequestIsValid k r
    → used (some (polled now r)) ≡ r.retries_used + count_seq k (retry now r)
unfolding polled retry RetryPolicy.poll_round
retry-count now k j r v = ground arith

retry-other :
    (now k j : ℕ) (r : Request)
    → RequestIsValid k r
    → (k == j) ≡ false
    → count_seq j (retry now r) ≡ 0
unfolding retry RetryPolicy.poll_round
retry-other now k j r v e = ground arith

retries_below :
    (now j lo : ℕ) (m : List (ℕ × Request))
    → Sorted RequestIsValid lo m
    → j ≤ lo
    → count_seq j (retries now m) ≡ 0
unfolding retries
retries_below now j lo [] s h = refl
retries_below now j lo ((k, r) ∷ m) (lt, v, s) h = omega (
  arith,
  count_seq-append j (retry now r) (retries now m),
  retry-other now k j r v (ground arith),
  retries_below now j k m s (omega arith),
)

retries-count :
    (now j lo : ℕ) (m : List (ℕ × Request))
    → Sorted RequestIsValid lo m
    → used (Option.map (polled now) (OrderedMap.find j m))
      ≡ used (OrderedMap.find j m) + count_seq j (retries now m)
unfolding retries OrderedMap.find
retries-count now j lo [] s = refl
retries-count now j lo ((k, r) ∷ m) (lt, v, s) = elim (Bool-cases (k == j)) [
  | inl e ↦ ground (
    arith,
    count_seq-append j (retry now r) (retries now m),
    retry-count now k j r v,
    retries_below now j k m s,
  )
  | inr e ↦ ground (
    arith,
    count_seq-append j (retry now r) (retries now m),
    retry-other now k j r v,
    retries-count now j k m s,
  )
]

start-used :
    (seq j : ℕ) (frame : Bytes) (is_stop : Bool) (o : Option Request)
    → used (if seq == j then registered seq frame is_stop o else o) ≡ used o
unfolding registered RetryPolicy.new_request
start-used seq j frame is_stop none = ground arith
start-used seq j frame is_stop (some r) = ground arith

map-used :
    (b : Bool) (f : Request → Request)
    → ((r : Request) → (f r).retries_used ≡ r.retries_used)
    → (o : Option Request) → used (if b then Option.map f o else o) ≡ used o
map-used b f h none = ground arith
map-used b f h (some r) = ground (arith, h r)

written-sent_used :
    (now : ℕ) (r : Request) → (written (RetryPolicy.sent now) r).retries_used ≡ r.retries_used
unfolding RetryPolicy.sent
written-sent_used now r = ground arith

written-send_failed_used :
    (r : Request) → (written RetryPolicy.send_failed r).retries_used ≡ r.retries_used
unfolding RetryPolicy.send_failed
written-send_failed_used r = ground arith

written-acked_used :
    (status : AckStatus) (now : ℕ) (r : Request)
    → (written (RetryPolicy.acked status now) r).retries_used ≡ r.retries_used
unfolding RetryPolicy.acked
written-acked_used status now r = ground arith

cancelled_used : (r : Request) → (RetryPolicy.cancelled r).retries_used ≡ r.retries_used
unfolding RetryPolicy.cancelled
cancelled_used r = ground arith

pub poll-used :
    (p : RetryPolicy) (now j : ℕ)
    → IsValid p
    → used (Option.map (polled now) (RetryPolicy.find p j))
      ≡ used (RetryPolicy.find p j) + count_seq j (RetryPolicy.poll p now).1
unfolding RetryPolicy.find RetryPolicy.poll
poll-used p now j v = rw (poll_loop-append now p.requests []) (retries-count now j 0 p.requests v)

effect-used :
    (p : RetryPolicy) (c : Call) (j : ℕ)
    → IsValid p
    → used (effect c j (RetryPolicy.find p j))
      ≡ used (RetryPolicy.find p j) + count_seq j (apply p c).1
unfolding effect apply
effect-used p (Call.start seq frame is_stop) j v =
    omega (arith, start-used seq j frame is_stop (RetryPolicy.find p j))
effect-used p (Call.mark_sent seq now) j v = omega (
  arith,
  map-used (seq == j) (written (RetryPolicy.sent now)) (written-sent_used now)
      (RetryPolicy.find p j),
)
effect-used p (Call.mark_send_failed seq) j v = omega (
  arith,
  map-used (seq == j) (written RetryPolicy.send_failed) written-send_failed_used
      (RetryPolicy.find p j),
)
effect-used p (Call.on_ack seq status now) j v = omega (
  arith,
  map-used (seq == j) (written (RetryPolicy.acked status now)) (written-acked_used status now)
      (RetryPolicy.find p j),
)
effect-used p (Call.poll now) j v = poll-used p now j v
effect-used p Call.cancel_non_stop j v =
    omega (arith, map-used true RetryPolicy.cancelled cancelled_used (RetryPolicy.find p j))

-- The count in an entry rises by the retries that a call gives out, and by nothing else.
pub apply-used :
    (p : RetryPolicy) (c : Call) (j : ℕ)
    → IsValid p
    → used (RetryPolicy.find (apply p c).0 j)
      ≡ used (RetryPolicy.find p j) + count_seq j (apply p c).1
apply-used p c j v = rw (find-apply p c j) (effect-used p c j v)

pub run-used :
    (p : RetryPolicy) (cs : List Call) (j : ℕ)
    → IsValid p
    → used (RetryPolicy.find (run p cs).0 j)
      ≡ used (RetryPolicy.find p j) + count_seq j (run p cs).1
unfolding run
run-used p [] j v = omega arith
run-used p (c ∷ cs) j v = omega (
  arith,
  apply-used p c j v,
  run-used (apply p c).0 cs j (apply-IsValid p c v),
  count_seq-append j (apply p c).1 (run (apply p c).0 cs).1,
)

used-le : (p : RetryPolicy) (j : ℕ) → IsValid p → used (RetryPolicy.find p j) ≤ max_retries
used-le p j v = elim (Option-cases (RetryPolicy.find p j)) [
  | inl e ↦ rw e (omega arith)
  | inr (r, e) ↦ rw e (find-RequestIsValid p j v e).capped
]

-- Whatever is called from the empty policy on, in whatever order and at whatever times, a number
-- is given out for a retry as often as its entry counts, and at most twice.
pub run-count_le :
    (cs : List Call) (j : ℕ)
    → (count_seq j (run RetryPolicy.empty cs).1
        ≡ used (RetryPolicy.find (run RetryPolicy.empty cs).0 j))
      × (count_seq j (run RetryPolicy.empty cs).1 ≤ max_retries)
unfolding RetryPolicy.empty RetryPolicy.find OrderedMap.find
run-count_le cs j =
    let exact = run-used RetryPolicy.empty cs j empty-IsValid in
    let capped = used-le (run RetryPolicy.empty cs).0 j (run-IsValid _ cs empty-IsValid) in
    (omega arith, omega arith)

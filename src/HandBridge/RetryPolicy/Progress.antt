-- ===== src/HandBridge/RetryPolicy/Progress.antt =====
-- The life of a request as a transition relation.
use mathlib.Core.Option
use linux_iot_gateway.Common.{
  ℕ, ◌≤◌, Bool, true, false, List, [], ◌∷◌, Option, none, some, ◌≡◌, refl, ◌⊎◌, inl, inr, arith,
  ◌∙◌, ap, Bytes, ◌==◌, if◌then◌else◌, Bool-cases,
}
use linux_iot_gateway.HandBridge.AckParser.{AckStatus}
use linux_iot_gateway.HandBridge.RetryPolicy
use linux_iot_gateway.HandBridge.RetryPolicy.{
  RetryPolicy, Request, RequestState, RequestState-discrete, queued, waiting_ack, executing,
  retry_queued, succeeded, preempted, busy, error, superseded, result_unknown, is_sendable,
  is_timed, is_answerable, is_active,
}
use linux_iot_gateway.HandBridge.RetryPolicy.Calls.{Call, apply, run}
use linux_iot_gateway.HandBridge.RetryPolicy.Pointwise.{
  polled, written, registered, effect, find-apply,
}

-- The states in which the outcome of a request is settled.
abbrev pub is_final : RequestState → Bool
is_final succeeded = true
is_final preempted = true
is_final busy = true
is_final error = true
is_final result_unknown = true
is_final _ = false

-- The outcomes that a device reports.
pub data IsReported : RequestState → Type 0 where
  done : IsReported succeeded
  stopped : IsReported preempted
  failed : IsReported error

-- The transitions of the protocol.
pub data Transition : RequestState → RequestState → Type 0 where
  transmit : {s : RequestState} → is_sendable s ≡ true → Transition s waiting_ack
  transmit_fails : {s : RequestState} → is_sendable s ≡ true → Transition s result_unknown
  begin : {s : RequestState} → is_answerable s ≡ true → Transition s executing
  report : {s t : RequestState} → is_answerable s ≡ true → IsReported t → Transition s t
  refuse : {s : RequestState} → is_answerable s ≡ true → Transition s busy
  report_late : {s t : RequestState} → s ≡ superseded → IsReported t → Transition s t
  retry : {s : RequestState} → is_timed s ≡ true → Transition s retry_queued
  give_up : {s : RequestState} → is_timed s ≡ true → Transition s result_unknown
  supersede : {s : RequestState} → is_active s ≡ true → Transition s superseded

-- A request after a call: the same order, as many retries or more, and its state unmoved with
-- everything else, or moved along a transition.
pub record Evolves (r r' : Request) : Type 0 where
  pub same_seq : r'.seq ≡ r.seq
  pub same_frame : r'.frame ≡ r.frame
  pub same_kind : r'.is_stop ≡ r.is_stop
  pub monotone : r.retries_used ≤ r'.retries_used
  pub moves : (r' ≡ r) ⊎ Transition r.state r'.state

Evolves-refl : (r : Request) → Evolves r r
Evolves-refl r = record {
  same_seq = refl;
  same_frame = refl;
  same_kind = refl;
  monotone = omega arith;
  moves = inl refl;
}

sent-Evolves : (now : ℕ) (r : Request) → Evolves r (written (RetryPolicy.sent now) r)
unfolding RetryPolicy.sent
sent-Evolves now r = elim (Bool-cases (is_sendable r.state)) [
  | inl e ↦ let move : Transition r.state waiting_ack = transmit e in ground arith
  | inr e ↦ ground arith
]

send_failed-Evolves : (r : Request) → Evolves r (written RetryPolicy.send_failed r)
unfolding RetryPolicy.send_failed
send_failed-Evolves r = elim (Bool-cases (is_sendable r.state)) [
  | inl e ↦ let move : Transition r.state result_unknown = transmit_fails e in ground arith
  | inr e ↦ ground arith
]

cancelled-Evolves : (r : Request) → Evolves r (RetryPolicy.cancelled r)
unfolding RetryPolicy.cancelled
cancelled-Evolves r = elim (Bool-cases (is_active r.state)) [
  | inl e ↦ let move : Transition r.state superseded = supersede e in ground arith
  | inr e ↦ ground arith
]

polled-Evolves : (now : ℕ) (r : Request) → Evolves r (polled now r)
unfolding polled RetryPolicy.poll_round
polled-Evolves now r = elim (Bool-cases (is_timed r.state)) [
  | inl e ↦
      let again : Transition r.state retry_queued = retry e in
      let stop : Transition r.state result_unknown = give_up e in ground arith
  | inr e ↦ ground arith
]

acked-Evolves :
    (status : AckStatus) (now : ℕ) (r : Request)
    → Evolves r (written (RetryPolicy.acked status now) r)
unfolding RetryPolicy.acked
acked-Evolves status now r = elim (RequestState-discrete r.state superseded) [
  | yes e ↦
      let a : Transition r.state succeeded = report_late e done in
      let b : Transition r.state preempted = report_late e stopped in
      let c : Transition r.state error = report_late e failed in ground arith
  | no late ↦ elim (Bool-cases (is_answerable r.state)) [
    | inl e ↦
        let a : Transition r.state succeeded = report e done in
        let b : Transition r.state preempted = report e stopped in
        let c : Transition r.state error = report e failed in
        let d : Transition r.state executing = begin e in
        let f : Transition r.state busy = refuse e in ground arith
    | inr e ↦ ground arith
  ]
]

-- An entry that is there stays there, and evolves.
abbrev Follows : Option Request → Option Request → Type 0
Follows none o = Unit {0}
Follows (some r) none = ⊥
Follows (some r) (some r') = Evolves r r'

Follows-refl : (o : Option Request) → Follows o o
Follows-refl none = tt
Follows-refl (some r) = Evolves-refl r

Follows-map :
    (f : Request → Request)
    → ((r : Request) → Evolves r (f r))
    → (o : Option Request) → Follows o (Option.map f o)
Follows-map f h none = tt
Follows-map f h (some r) = h r

Follows-at :
    (seq j : ℕ) (o o' : Option Request) → Follows o o' → Follows o (if seq == j then o' else o)
Follows-at seq j o o' h = elim (Bool-cases (seq == j)) [
  | inl e ↦ rw e h
  | inr e ↦ rw e (Follows-refl o)
]

registered-Follows :
    (seq : ℕ) (frame : Bytes) (is_stop : Bool) (o : Option Request)
    → Follows o (registered seq frame is_stop o)
unfolding registered
registered-Follows seq frame is_stop none = tt
registered-Follows seq frame is_stop (some r) = Evolves-refl r

effect-Follows : (c : Call) (j : ℕ) (o : Option Request) → Follows o (effect c j o)
unfolding effect
effect-Follows (Call.start seq frame is_stop) j o =
    Follows-at seq j o _ (registered-Follows seq frame is_stop o)
effect-Follows (Call.mark_sent seq now) j o =
    Follows-at seq j o _ (Follows-map _ (sent-Evolves now) o)
effect-Follows (Call.mark_send_failed seq) j o =
    Follows-at seq j o _ (Follows-map _ send_failed-Evolves o)
effect-Follows (Call.on_ack seq status now) j o =
    Follows-at seq j o _ (Follows-map _ (acked-Evolves status now) o)
effect-Follows (Call.poll now) j o = Follows-map _ (polled-Evolves now) o
effect-Follows Call.cancel_non_stop j o = Follows-map _ cancelled-Evolves o

Follows-some :
    (o : Option Request) {r : Request}
    → Follows (some r) o
    → (r' : Request) × (o ≡ some r') × Evolves r r'
Follows-some none h = elim h [ ]
Follows-some (some r') h = (r', refl, h)

-- No call drops a request, or changes its number, its frame or its kind; its state moves only
-- along a transition of the protocol, and its count of retries never falls.
pub apply-Evolves :
    (p : RetryPolicy) (c : Call) (j : ℕ) {r : Request}
    → RetryPolicy.find p j ≡ some r
    → (r' : Request) × (RetryPolicy.find (apply p c).0 j ≡ some r') × Evolves r r'
apply-Evolves p c j {r} e = Follows-some _ (rw (find-apply p c j, e) (effect-Follows c j (some r)))

Transition-not_final : {s t : RequestState} → Transition s t → is_final s ≡ false
Transition-not_final {s} (transmit e) = ground arith
Transition-not_final {s} (transmit_fails e) = ground arith
Transition-not_final {s} (begin e) = ground arith
Transition-not_final {s} (report e o) = ground arith
Transition-not_final {s} (refuse e) = ground arith
Transition-not_final {s} (report_late e o) = ground arith
Transition-not_final {s} (retry e) = ground arith
Transition-not_final {s} (give_up e) = ground arith
Transition-not_final {s} (supersede e) = ground arith

apply_final :
    (p : RetryPolicy) (c : Call) (j : ℕ) {r : Request}
    → RetryPolicy.find p j ≡ some r
    → is_final r.state ≡ true
    → RetryPolicy.find (apply p c).0 j ≡ some r
apply_final p c j {r} e final =
    let (r', e', evolves) = apply-Evolves p c j e in
    elim evolves.moves [ inl same ↦ e' ∙ ap some same | inr move ↦ cc (Transition-not_final move) ]

-- Once the outcome of a request is settled, no calls change anything of it.
pub run_final :
    (p : RetryPolicy) (cs : List Call) (j : ℕ) {r : Request}
    → RetryPolicy.find p j ≡ some r
    → is_final r.state ≡ true
    → RetryPolicy.find (run p cs).0 j ≡ some r
unfolding run
run_final p [] j e final = e
run_final p (c ∷ cs) j e final = run_final (apply p c).0 cs j (apply_final p c j e final) final

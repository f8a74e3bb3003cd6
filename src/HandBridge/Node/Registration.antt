-- ===== src/HandBridge/Node/Registration.antt =====
-- Which requests are registered, and which steps register one.
use mathlib.Core.Option
use linux_iot_gateway.Common.{
  ℕ, Bool, true, false, List, [], ◌∷◌, Option, none, some, ◌≡◌, ◌≢◌, refl, sym, ap, ◌∙◌, inl, inr,
  arith, ◌==◌, ◌||◌, is_empty, if◌then◌else◌, Bool-cases, Option-cases, subst, All,
}
use linux_iot_gateway.Common.OrderedMap
use linux_iot_gateway.HandBridge.RetryPolicy
use linux_iot_gateway.HandBridge.RetryPolicy.{
  RetryPolicy, Request, RequestState, RequestState-discrete, RetryFrame,
}
use linux_iot_gateway.HandBridge.RetryPolicy.Calls
use linux_iot_gateway.HandBridge.RetryPolicy.Calls.{Call, apply}
use linux_iot_gateway.HandBridge.RetryPolicy.Pointwise.{written, effect, find-apply}
use linux_iot_gateway.HandBridge.RetryPolicy.Progress.{apply-Evolves}
use linux_iot_gateway.HandBridge.Node.{Node}
use linux_iot_gateway.HandBridge.Node.Schedule.{Event, step}
use linux_iot_gateway.HandBridge.Node.PolicyCalls.{IsQuiet, Quietly, step-CalledTo}

abbrev pub IsRegistered : ℕ → RetryPolicy → Type 0
IsRegistered j p = (r : Request) × (RetryPolicy.find p j ≡ some r)

pub calls-IsRegistered :
    (j : ℕ) (p : RetryPolicy) (cs : List Call)
    → IsRegistered j p
    → IsRegistered j (Calls.run p cs).0
unfolding Calls.run
calls-IsRegistered j p [] h = h
calls-IsRegistered j p (c ∷ cs) (r, e) =
    let (r', e', _) = apply-Evolves p c j e in calls-IsRegistered j (apply p c).0 cs (r', e')

pub step-IsRegistered :
    (j : ℕ) (n : Node) (e : Event)
    → IsRegistered j n.retry_policy
    → IsRegistered j (step n e).retry_policy
step-IsRegistered j n e h =
    let (cs, same) = step-CalledTo n e in
    subst (IsRegistered j) (sym same) (calls-IsRegistered j n.retry_policy cs h)

-- The entry of a number is new after a step.
abbrev pub Registers : RetryPolicy → RetryPolicy → ℕ → Type 0
Registers p q j = (RetryPolicy.find p j ≡ none) × IsRegistered j q

-- The number that was registered last: `latest` before the events, and the last field behind them. A
-- step registers one number and no other, or none.
pub data LastRegistered : Node → Option ℕ → List Event → Option ℕ → Type 0 where
  ended : {n : Node} {latest : Option ℕ} → LastRegistered n latest [] latest
  registers :
      {n : Node} {latest last : Option ℕ} {e : Event} {es : List Event} (j : ℕ)
      → Registers n.retry_policy (step n e).retry_policy j
      → ((k : ℕ) → Registers n.retry_policy (step n e).retry_policy k → k ≡ j)
      → LastRegistered (step n e) (some j) es last
      → LastRegistered n latest (e ∷ es) last
  keeps :
      {n : Node} {latest last : Option ℕ} {e : Event} {es : List Event}
      → ((k : ℕ) → ¬ Registers n.retry_policy (step n e).retry_policy k)
      → LastRegistered (step n e) latest es last
      → LastRegistered n latest (e ∷ es) last

pub no_some : {o : Option Request} → o ≡ none → (r : Request) → ¬ (o ≡ some r)
no_some e r e' = cc

at_none :
    (seq k : ℕ) (f : Option Request → Option Request)
    → f none ≡ none
    → (if seq == k then f none else none) ≡ none
at_none seq k f e = elim (Bool-cases (seq == k)) [
  | inl same ↦ rw same e
  | inr other ↦ rw other refl
]

effect-IsQuiet : (c : Call) (k : ℕ) → IsQuiet c → effect c k none ≡ none
unfolding effect
effect-IsQuiet (Call.start seq frame is_stop) k h = elim h [ ]
effect-IsQuiet (Call.mark_sent seq now) k h =
    at_none seq k (Option.map (written (RetryPolicy.sent now))) refl
effect-IsQuiet (Call.mark_send_failed seq) k h =
    at_none seq k (Option.map (written RetryPolicy.send_failed)) refl
effect-IsQuiet (Call.on_ack seq status now) k h =
    at_none seq k (Option.map (written (RetryPolicy.acked status now))) refl
effect-IsQuiet (Call.poll now) k h = refl
effect-IsQuiet Call.cancel_non_stop k h = refl

pub find-calls :
    (p : RetryPolicy) (cs : List Call) (k : ℕ)
    → All IsQuiet cs
    → RetryPolicy.find p k ≡ none
    → RetryPolicy.find (Calls.run p cs).0 k ≡ none
unfolding Calls.run
find-calls p [] k h e = e
find-calls p (c ∷ cs) k (quiet, h) e =
    find-calls (apply p c).0 cs k h
      (find-apply p c k ∙ ap (effect c k) e ∙ effect-IsQuiet c k quiet)

pub Quietly-keeps : (p q : RetryPolicy) → Quietly p q → (k : ℕ) → ¬ Registers p q k
Quietly-keeps p q (cs, quiet, same) k (absent, (r, there)) =
    no_some (ap (λ q. RetryPolicy.find q k) same ∙ find-calls p cs k quiet absent) r there

-- The policy in which a command is registered.
abbrev pub prepared : Bool → RetryPolicy → RetryPolicy
prepared is_stop p = if is_stop then RetryPolicy.cancel_non_stop p else p

pub prepared-Quietly : (is_stop : Bool) (p : RetryPolicy) → Quietly p (prepared is_stop p)
unfolding Calls.run apply
prepared-Quietly true p = (Call.cancel_non_stop ∷ [], (tt, tt), refl)
prepared-Quietly false p = ([], tt, refl)

prepared-IsRegistered :
    (is_stop : Bool) (p : RetryPolicy) (j : ℕ)
    → IsRegistered j p
    → IsRegistered j (prepared is_stop p)
prepared-IsRegistered is_stop p j h =
    let (cs, _, same) = prepared-Quietly is_stop p in
    subst (IsRegistered j) (sym same) (calls-IsRegistered j p cs h)

pub started_absent :
    (p : RetryPolicy) (f : RetryFrame) (is_stop : Bool)
    → (RetryPolicy.start p f.seq f.frame is_stop).1 ≡ true
    → (RetryPolicy.find p f.seq ≡ none) × (f.seq ≢ 0)
unfolding RetryPolicy.start RetryPolicy.find
started_absent p f is_stop started = elim (Option-cases (OrderedMap.find f.seq p.requests)) [
  | inl e ↦ (e, λ zero. absurd (ground arith))
  | inr (r, e) ↦ absurd (ground arith)
]

pub refused_same :
    (p : RetryPolicy) (f : RetryFrame) (is_stop : Bool)
    → (RetryPolicy.start p f.seq f.frame is_stop).1 ≡ false
    → (RetryPolicy.start p f.seq f.frame is_stop).0 ≡ p
unfolding RetryPolicy.start OrderedMap.emplace
refused_same p f is_stop refused = elim (Bool-cases (f.seq == 0 || is_empty f.frame)) [
  | inl bad ↦ rw bad refl
  | inr good ↦ elim (Option-cases (OrderedMap.find f.seq p.requests)) [
    | inl e ↦ absurd (ground arith)
    | inr (r, e) ↦ ground arith
  ]
]

pub start_other :
    (p : RetryPolicy) (f : RetryFrame) (is_stop : Bool) (k : ℕ)
    → (f.seq == k) ≡ false
    → RetryPolicy.find (RetryPolicy.start p f.seq f.frame is_stop).0 k ≡ RetryPolicy.find p k
unfolding apply effect
start_other p f is_stop k other = find-apply p (Call.start f.seq f.frame is_stop) k ∙ rw other refl

pub prepared_absent :
    (is_stop : Bool) (p : RetryPolicy) (k : ℕ)
    → RetryPolicy.find p k ≡ none
    → RetryPolicy.find (prepared is_stop p) k ≡ none
prepared_absent is_stop p k e =
    let (cs, quiet, same) = prepared-Quietly is_stop p in
    ap (λ q. RetryPolicy.find q k) same ∙ find-calls p cs k quiet e

pub unprepared_absent :
    (is_stop : Bool) (p : RetryPolicy) (k : ℕ)
    → RetryPolicy.find (prepared is_stop p) k ≡ none
    → RetryPolicy.find p k ≡ none
unprepared_absent is_stop p k e = elim (Option-cases (RetryPolicy.find p k)) [
  | inl absent ↦ absent
  | inr (r, there) ↦
      let (r', there') = prepared-IsRegistered is_stop p k (r, there) in
      absurd (no_some e r' there')
]

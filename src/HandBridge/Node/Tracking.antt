-- ===== src/HandBridge/Node/Tracking.antt =====
-- `latest_requested_seq_` as the number that was registered last.
use linux_iot_gateway.Common.{
  ℕ, Bool, true, false, List, [], ◌∷◌, Option, none, some, ◌≡◌, ◌≢◌, refl, sym, ap, ◌∙◌, ◌⊎◌, inl,
  inr, ◌==◌, ==_iff, Bool-cases, subst,
}
use linux_iot_gateway.HandBridge.RetryPolicy
use linux_iot_gateway.HandBridge.RetryPolicy.{
  RetryPolicy, Request, RequestState, RequestState-discrete, RetryFrame,
}
use linux_iot_gateway.HandBridge.Node
use linux_iot_gateway.HandBridge.Node.{Node, Callback, TxWorker, RetryWorker}
use linux_iot_gateway.HandBridge.Node.Schedule.{Event, step, run}
use linux_iot_gateway.HandBridge.Node.Callbacks.{start-Known}
use linux_iot_gateway.HandBridge.Node.PolicyCalls.{step-Section}
use linux_iot_gateway.HandBridge.Node.Registration.{
  Registers, LastRegistered, registers, keeps, ended, IsRegistered, step-IsRegistered, no_some,
  Quietly-keeps, prepared, started_absent, refused_same, start_other, prepared_absent,
  unprepared_absent,
}

-- What a section that registers does: the number becomes the latest, or nothing is new.
abbrev pub SectionLatest : RetryFrame → Node → RetryPolicy → ℕ → Type 0
SectionLatest f n q latest =
    (Registers n.retry_policy q f.seq
      × ((k : ℕ) → Registers n.retry_policy q k → k ≡ f.seq)
      × (latest ≡ f.seq)
      × (f.seq ≢ 0))
    ⊎ (((k : ℕ) → ¬ Registers n.retry_policy q k) × (latest ≡ n.latest_requested_seq))

started_latest :
    (f : RetryFrame) (is_stop : Bool) (n : Node)
    → (RetryPolicy.start (prepared is_stop n.retry_policy) f.seq f.frame is_stop).1 ≡ true
    → SectionLatest f n
        (RetryPolicy.start (prepared is_stop n.retry_policy) f.seq f.frame is_stop).0
        f.seq
started_latest f is_stop n started =
    let p = prepared is_stop n.retry_policy in
    let (absent, positive) = started_absent p f is_stop started in
    let (r, there, _) = start-Known p f is_stop started in
    inl ((unprepared_absent is_stop n.retry_policy f.seq absent, (r, there)), only, refl, positive)
  where
    only :
        (k : ℕ)
        → Registers n.retry_policy
            (RetryPolicy.start (prepared is_stop n.retry_policy) f.seq f.frame is_stop).0
            k
        → k ≡ f.seq
    only k (absent, (r, there)) = elim (Bool-cases (f.seq == k)) [
      | inl same ↦ sym ((==_iff f.seq k).0 same)
      | inr other ↦ absurd (
          no_some
            (start_other (prepared is_stop n.retry_policy) f is_stop k other
              ∙ prepared_absent is_stop n.retry_policy k absent)
            r there)
    ]

refused_latest :
    (f : RetryFrame) (is_stop : Bool) (n : Node)
    → (RetryPolicy.start (prepared is_stop n.retry_policy) f.seq f.frame is_stop).1 ≡ false
    → SectionLatest f n
        (RetryPolicy.start (prepared is_stop n.retry_policy) f.seq f.frame is_stop).0
        n.latest_requested_seq
refused_latest f is_stop n refused = inr (
  λ k (absent, (r, there)).
      no_some
        (ap (λ q. RetryPolicy.find q k)
            (refused_same (prepared is_stop n.retry_policy) f is_stop refused)
          ∙ prepared_absent is_stop n.retry_policy k absent)
        r there,
  refl,
)

pub callback_register-latest :
    (f : RetryFrame) (is_stop : Bool) (n : Node)
    → let n' = Node.callback_register f is_stop n in
      SectionLatest f n n'.retry_policy n'.latest_requested_seq
unfolding Node.callback_register
callback_register-latest f is_stop n =
    elim (Bool-cases (RetryPolicy.start p f.seq f.frame is_stop).1) [
      | inl started ↦ rw (started, Node.callback_register) (started_latest f is_stop n started)
      | inr refused ↦ rw (refused, Node.callback_register) (refused_latest f is_stop n refused)
    ]
  where
    p : RetryPolicy
    p = prepared is_stop n.retry_policy

-- The node's number is the one that was registered last, or 0 before the first.
abbrev pub Tracks : Option ℕ → Node → Type 0
Tracks none n = n.latest_requested_seq ≡ 0
Tracks (some j) n = (n.latest_requested_seq ≡ j) × (j ≢ 0) × IsRegistered j n.retry_policy

Tracks-kept :
    (latest : Option ℕ) (n : Node) (e : Event)
    → Tracks latest n
    → (step n e).latest_requested_seq ≡ n.latest_requested_seq
    → Tracks latest (step n e)
Tracks-kept none n e h same = same ∙ h
Tracks-kept (some j) n e (h, positive, there) same =
    (same ∙ h, positive, step-IsRegistered j n e there)

-- What a step makes of the number.
abbrev Next : Option ℕ → Node → Event → Type 0
Next latest n e =
    ((j : ℕ) × Registers n.retry_policy (step n e).retry_policy j
      × ((k : ℕ) → Registers n.retry_policy (step n e).retry_policy k → k ≡ j)
      × Tracks (some j) (step n e))
    ⊎ (((k : ℕ) → ¬ Registers n.retry_policy (step n e).retry_policy k) × Tracks latest (step n e))

step-Next : (latest : Option ℕ) (n : Node) (e : Event) → Tracks latest n → Next latest n e
step-Next latest n e h = elim (step-Section n e) [
  | inl (quiet, same) ↦
      inr
        (Quietly-keeps n.retry_policy (step n e).retry_policy quiet, Tracks-kept latest n e h same)
  | inr (f, is_stop, _, same) ↦ by_result f (
      subst (λ (n' : Node). SectionLatest f n n'.retry_policy n'.latest_requested_seq) (sym same)
        (callback_register-latest f is_stop n))
]
  where
    by_result :
        (f : RetryFrame)
        → SectionLatest f n (step n e).retry_policy (step n e).latest_requested_seq
        → Next latest n e
    by_result f (inl (new, only, now, positive)) = inl (f.seq, new, only, (now, positive, new.1))
    by_result f (inr (nothing, same)) = inr (nothing, Tracks-kept latest n e h same)

pub run-LastRegistered :
    (es : List Event) (latest : Option ℕ) (n : Node)
    → Tracks latest n
    → (last : Option ℕ) × LastRegistered n latest es last × Tracks last (run n es)
unfolding run
run-LastRegistered [] latest n h = (latest, ended, h)
run-LastRegistered (e ∷ es) latest n h = elim (step-Next latest n e h) [
  | inl (j, new, only, h') ↦
      let (last, r, end) = run-LastRegistered es (some j) (step n e) h' in
      (last, registers j new only r, end)
  | inr (nothing, h') ↦
      let (last, r, end) = run-LastRegistered es latest (step n e) h' in
      (last, keeps nothing r, end)
]

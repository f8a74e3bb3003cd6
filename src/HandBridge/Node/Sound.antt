-- ===== src/HandBridge/Node/Sound.antt =====
-- What the policy and the frames put out have to do with one another, whatever call comes next.
use mathlib.Core.Option
use linux_iot_gateway.Common.{
  ℕ, suc, ◌+◌, ◌≤◌, Bool, true, false, ◌||◌, is_empty, ==_iff, List, [], ◌∷◌, ◌++◌, Option, none,
  some, ◌≡◌, ◌∙◌, inl, inr, arith, Bytes, codes, ◌==◌, if◌then◌else◌, list_eq, All, All-append,
  All-map, Bool-cases, Option-cases, subst,
}
use linux_iot_gateway.HandBridge.AckParser.{AckStatus}
use linux_iot_gateway.HandBridge.RetryPolicy
use linux_iot_gateway.HandBridge.RetryPolicy.{RetryPolicy, Request, RetryFrame, is_sendable}
use linux_iot_gateway.HandBridge.RetryPolicy.Calls.{Call, apply}
use linux_iot_gateway.HandBridge.RetryPolicy.Pointwise.{
  polled, written, registered, effect, find-apply,
}
use linux_iot_gateway.HandBridge.RetryPolicy.Invariant.{IsValid, apply-IsValid}
use linux_iot_gateway.HandBridge.RetryPolicy.Progress.{apply-Evolves}
use linux_iot_gateway.HandBridge.RetryPolicy.Retries.{count_seq, count_seq-append}
use linux_iot_gateway.HandBridge.Node.{valid_command, map_to_uart_command}

-- The frame belongs to a request of its number.
abbrev pub Known : RetryPolicy → RetryFrame → Type 0
Known p f = (r : Request) × (RetryPolicy.find p f.seq ≡ some r) × (r.frame ≡ f.frame)

apply-Known : (p : RetryPolicy) (c : Call) (f : RetryFrame) → Known p f → Known (apply p c).0 f
apply-Known p c f (r, e, same) =
    let (r', e', evolves) = apply-Evolves p c f.seq e in (r', e', evolves.same_frame ∙ same)

pub apply-AllKnown :
    (p : RetryPolicy) (c : Call) (fs : List RetryFrame)
    → All (Known p) fs
    → All (Known (apply p c).0) fs
apply-AllKnown p c = All-map (apply-Known p c)

-- The line is the one of a valid command.
abbrev pub Encoded : ℕ → Bytes → Bool → Type 0
Encoded seq frame is_stop =
    (cmd : Bytes) × (valid_command cmd ≡ true)
    × (frame ≡ map_to_uart_command cmd seq)
    × (is_stop ≡ list_eq cmd (codes "STOP"))

abbrev pub EncodedEntry : ℕ → Option Request → Type 0
EncodedEntry j none = Unit {0}
EncodedEntry j (some r) = Encoded j r.frame r.is_stop

-- How often a request may have been put out by now: once for each retry that it counts, and once
-- more if it does not wait to be sent.
abbrev pub allowance : Request → ℕ
allowance r = if is_sendable r.state then r.retries_used else suc r.retries_used

abbrev pub SendsFit : ℕ → Option Request → Type 0
SendsFit n none = n ≡ 0
SendsFit n (some r) = n ≤ allowance r

pub record Sound (p : RetryPolicy) (transmitted : List RetryFrame) : Type 0 where
  pub valid : IsValid p
  pub sends : (j : ℕ) → SendsFit (count_seq j transmitted) (RetryPolicy.find p j)
  pub known : All (Known p) transmitted
  pub encoded : (j : ℕ) → EncodedEntry j (RetryPolicy.find p j)

sent-allowance :
    (now : ℕ) (r : Request) → allowance r ≤ allowance (written (RetryPolicy.sent now) r)
unfolding RetryPolicy.sent
sent-allowance now r = ground arith

send_failed-allowance : (r : Request) → allowance r ≤ allowance (written RetryPolicy.send_failed r)
unfolding RetryPolicy.send_failed
send_failed-allowance r = ground arith

acked-allowance :
    (status : AckStatus) (now : ℕ) (r : Request)
    → allowance r ≤ allowance (written (RetryPolicy.acked status now) r)
unfolding RetryPolicy.acked
acked-allowance status now r = ground arith

polled-allowance : (now : ℕ) (r : Request) → allowance r ≤ allowance (polled now r)
unfolding polled RetryPolicy.poll_round
polled-allowance now r = ground arith

cancelled-allowance : (r : Request) → allowance r ≤ allowance (RetryPolicy.cancelled r)
unfolding RetryPolicy.cancelled
cancelled-allowance r = ground arith

SendsFit-map :
    (b : Bool) (n : ℕ) (f : Request → Request)
    → ((r : Request) → allowance r ≤ allowance (f r))
    → (o : Option Request) → SendsFit n o
    → SendsFit n (if b then Option.map f o else o)
SendsFit-map true n f h none s = s
SendsFit-map true n f h (some r) s = omega (arith, h r)
SendsFit-map false n f h o s = s

SendsFit-start :
    (seq j n : ℕ) (frame : Bytes) (is_stop : Bool) (o : Option Request)
    → SendsFit n o
    → SendsFit n (if seq == j then registered seq frame is_stop o else o)
unfolding registered RetryPolicy.new_request
SendsFit-start seq j n frame is_stop none s = ground arith
SendsFit-start seq j n frame is_stop (some r) s = ground arith

effect-SendsFit :
    (c : Call) (j n : ℕ) (o : Option Request) → SendsFit n o → SendsFit n (effect c j o)
unfolding effect
effect-SendsFit (Call.start seq frame is_stop) j n o = SendsFit-start seq j n frame is_stop o
effect-SendsFit (Call.mark_sent seq now) j n o =
    SendsFit-map (seq == j) n (written (RetryPolicy.sent now)) (sent-allowance now) o
effect-SendsFit (Call.mark_send_failed seq) j n o =
    SendsFit-map (seq == j) n (written RetryPolicy.send_failed) send_failed-allowance o
effect-SendsFit (Call.on_ack seq status now) j n o =
    SendsFit-map (seq == j) n (written (RetryPolicy.acked status now)) (acked-allowance status now)
      o
effect-SendsFit (Call.poll now) j n o = SendsFit-map true n (polled now) (polled-allowance now) o
effect-SendsFit Call.cancel_non_stop j n o =
    SendsFit-map true n RetryPolicy.cancelled cancelled-allowance o

-- A call registers nothing but lines of valid commands.
abbrev pub StartsEncoded : Call → Type 0
StartsEncoded (Call.start seq frame is_stop) = Encoded seq frame is_stop
StartsEncoded _ = Unit {0}

start-EncodedEntry :
    (seq j : ℕ) (frame : Bytes) (is_stop : Bool)
    → Encoded seq frame is_stop
    → EncodedEntry j (if seq == j then registered seq frame is_stop none else none)
unfolding registered RetryPolicy.new_request
start-EncodedEntry seq j frame is_stop c = elim (Bool-cases (seq == j)) [
  | inl hit ↦ elim (Bool-cases (seq == 0 || is_empty frame)) [
    | inl bad ↦ rw (hit, bad) tt
    | inr good ↦ rw (hit, good) (subst (λ k. Encoded k frame is_stop) ((==_iff seq j).0 hit) c)
  ]
  | inr miss ↦ rw miss tt
]

none-EncodedEntry : (c : Call) (j : ℕ) → StartsEncoded c → EncodedEntry j (effect c j none)
unfolding effect
none-EncodedEntry (Call.start seq frame is_stop) j s = start-EncodedEntry seq j frame is_stop s
none-EncodedEntry (Call.mark_sent seq now) j s = ground arith
none-EncodedEntry (Call.mark_send_failed seq) j s = ground arith
none-EncodedEntry (Call.on_ack seq status now) j s = ground arith
none-EncodedEntry (Call.poll now) j s = tt
none-EncodedEntry Call.cancel_non_stop j s = tt

apply-EncodedEntry :
    (p : RetryPolicy) (c : Call) (j : ℕ)
    → StartsEncoded c
    → EncodedEntry j (RetryPolicy.find p j)
    → EncodedEntry j (RetryPolicy.find (apply p c).0 j)
apply-EncodedEntry p c j s old = elim (Option-cases (RetryPolicy.find p j)) [
  | inl e ↦ rw (find-apply p c j, e) (none-EncodedEntry c j s)
  | inr (r, e) ↦
      let (r', e', evolves) = apply-Evolves p c j e in
      let (cmd, valid, spelled, kind) = rw e at old in
      rw e' (cmd, valid, evolves.same_frame ∙ spelled, evolves.same_kind ∙ kind)
]

-- Any call keeps a sound policy sound.
pub apply-Sound :
    (p : RetryPolicy) (c : Call) (transmitted : List RetryFrame)
    → StartsEncoded c
    → Sound p transmitted
    → Sound (apply p c).0 transmitted
apply-Sound p c transmitted s sound = record {
  valid = apply-IsValid p c sound.valid;
  sends = λ j.
      rw (find-apply p c j)
        (effect-SendsFit c j (count_seq j transmitted) (RetryPolicy.find p j) (sound.sends j));
  known = apply-AllKnown p c transmitted sound.known;
  encoded = λ j. apply-EncodedEntry p c j s (sound.encoded j);
}

sent_again :
    (now n : ℕ) (r : Request)
    → is_sendable r.state ≡ true
    → n ≤ allowance r
    → n + 1 ≤ allowance (written (RetryPolicy.sent now) r)
unfolding RetryPolicy.sent
sent_again now n r sendable h = ground arith

transmit-SendsFit :
    (p : RetryPolicy) (f : RetryFrame) (now j n : ℕ) (r : Request)
    → RetryPolicy.find p f.seq ≡ some r
    → is_sendable r.state ≡ true
    → SendsFit n (RetryPolicy.find p j)
    → SendsFit
        (n + (if f.seq == j then 1 else 0))
        (RetryPolicy.find (apply p (Call.mark_sent f.seq now)).0 j)
unfolding effect
transmit-SendsFit p f now j n r e sendable s = elim (Bool-cases (f.seq == j)) [
  | inl hit ↦
      let here : RetryPolicy.find p j ≡ some r = ground arith in
      let enough : n ≤ allowance r = rw here at s in
      rw (find-apply p (Call.mark_sent f.seq now) j, effect, hit, here)
        (sent_again now n r sendable enough)
  | inr miss ↦
      rw (find-apply p (Call.mark_sent f.seq now) j, effect, miss)
        (subst (λ k. SendsFit k (RetryPolicy.find p j)) (omega arith) s)
]

-- To put a frame out that may be sent, and to mark it so, keeps the policy sound.
pub transmit-Sound :
    (p : RetryPolicy) (f : RetryFrame) (now : ℕ) (transmitted : List RetryFrame) (r : Request)
    → RetryPolicy.find p f.seq ≡ some r
    → r.frame ≡ f.frame
    → is_sendable r.state ≡ true
    → Sound p transmitted
    → Sound (apply p (Call.mark_sent f.seq now)).0 (transmitted ++ f ∷ [])
transmit-Sound p f now transmitted r e same sendable sound = record {
  valid = after.valid;
  sends = λ j.
      rw (count_seq-append j transmitted (f ∷ []))
        (transmit-SendsFit p f now j (count_seq j transmitted) r e sendable (sound.sends j));
  known =
      All-append (Known (apply p (Call.mark_sent f.seq now)).0) transmitted (f ∷ []) after.known
        (apply-Known p (Call.mark_sent f.seq now) f (r, e, same), tt);
  encoded = after.encoded;
}
  where
    after : Sound (apply p (Call.mark_sent f.seq now)).0 transmitted
    after = apply-Sound p (Call.mark_sent f.seq now) transmitted tt sound

-- ===== src/GatewayTimeout/Accounts.antt =====
-- What the sender has counted and put out, whatever the device and the clock have done.
use linux_iot_gateway.Common.{
  ℕ, suc, ◌+◌, ◌-◌, ◌≤◌, true, List, [], ◌∷◌, ◌++◌, Bytes, codes, ◌≡◌, refl, sym, ap, ◌∙◌, arith,
  append_assoc, append-nil,
}
use linux_iot_gateway.Common.OrderedMap
use linux_iot_gateway.GatewayTimeout.{
  PendingRequest, AckFrame, RetryStats, Gateway, Sender, max_retries,
}
use linux_iot_gateway.GatewayTimeout.Schedule.{
  due, Outcome, acked_of, failed_of, retries_of, WithinRetries, retry_lines, outcome_lines, report,
  numbers, total,
}

-- The ACK that the device stores under a number.
abbrev pub Fits : ℕ → AckFrame → Type 0
Fits sequence ack = ack ≡ record { sequence = sequence; success = true; message = codes "OK" }

abbrev pub AcksFit : Gateway → Type 0
AcksFit g = OrderedMap.Entries Fits g.ack_map

abbrev pub left : Sender → List ℕ
left (Sender.next s rest) = due s rest
left (Sender.sends r rest) = r.sequence ∷ due r.sequence rest
left (Sender.logs_send r rest) = r.sequence ∷ due r.sequence rest
left (Sender.waits r rest) = r.sequence ∷ due r.sequence rest
left (Sender.acknowledged r ack rest) = r.sequence ∷ due r.sequence rest
left (Sender.timed_out r rest) = r.sequence ∷ due r.sequence rest
left _ = []

-- The retries of the request in hand.
abbrev pub retries_now : Sender → ℕ
retries_now (Sender.sends r rest) = r.attempt - 1
retries_now (Sender.logs_send r rest) = r.attempt - 1
retries_now (Sender.waits r rest) = r.attempt - 1
retries_now (Sender.acknowledged r ack rest) = r.attempt - 1
retries_now (Sender.timed_out r rest) = r.attempt - 1
retries_now _ = 0

-- Whether its last frame has been sent and counted, but not answered in the counters.
abbrev pub open_now : Sender → ℕ
open_now (Sender.logs_send r rest) = 1
open_now (Sender.waits r rest) = 1
open_now (Sender.acknowledged r ack rest) = 1
open_now (Sender.timed_out r rest) = 1
open_now _ = 0

abbrev pub lines_now : Sender → List Bytes
lines_now (Sender.sends r rest) = retry_lines r.sequence (r.attempt - 1)
lines_now (Sender.logs_send r rest) = retry_lines r.sequence (r.attempt - 1)
lines_now (Sender.waits r rest) = retry_lines r.sequence (r.attempt - 1)
lines_now (Sender.acknowledged r ack rest) = retry_lines r.sequence (r.attempt - 1)
lines_now (Sender.timed_out r rest) = retry_lines r.sequence (r.attempt - 1)
lines_now _ = []

abbrev AttemptFits : PendingRequest → Type 0
AttemptFits r = (1 ≤ r.attempt) × (r.attempt ≤ suc max_retries)

abbrev pub SenderFits : Sender → Type 0
SenderFits (Sender.sends r rest) = AttemptFits r
SenderFits (Sender.logs_send r rest) = AttemptFits r
SenderFits (Sender.waits r rest) = AttemptFits r
SenderFits (Sender.acknowledged r ack rest) = AttemptFits r × Fits r.sequence ack
SenderFits (Sender.timed_out r rest) = AttemptFits r
SenderFits _ = Unit {0}

abbrev pub AllWithin : List (ℕ × Outcome) → Type 0
AllWithin [] = Unit {0}
AllWithin ((sequence, outcome) ∷ rest) = WithinRetries outcome × AllWithin rest

-- The requests split into those with an outcome and those to come.
pub record IsAccounted (all : List ℕ) (p : Sender) (s : RetryStats) (printed : List Bytes)
    : Type 0 where
  pub results : List (ℕ × Outcome)
  pub within : AllWithin results
  pub splits : all ≡ numbers results ++ left p
  pub prints : printed ≡ report results ++ lines_now p
  pub acks : s.acked ≡ total acked_of results
  pub fails : s.failed ≡ total failed_of results
  pub retried : s.retries ≡ total retries_of results + retries_now p
  pub timed : s.timeouts ≡ s.retries + s.failed
  pub sent : s.sent_frames ≡ s.acked + s.timeouts + open_now p
  pub fits : SenderFits p

numbers-append :
    (rs : List (ℕ × Outcome)) (k : ℕ) (o : Outcome)
    → numbers (rs ++ (k, o) ∷ []) ≡ numbers rs ++ k ∷ []
numbers-append [] k o = refl
numbers-append ((j, p) ∷ rs) k o = ap (◌∷◌ j) (numbers-append rs k o)

report-append :
    (rs : List (ℕ × Outcome)) (k : ℕ) (o : Outcome)
    → report (rs ++ (k, o) ∷ []) ≡ report rs ++ outcome_lines k o
report-append [] k o = append-nil (outcome_lines k o)
report-append ((j, p) ∷ rs) k o =
    ap (λ t. outcome_lines j p ++ t) (report-append rs k o)
    ∙ sym (append_assoc (outcome_lines j p) (report rs) (outcome_lines k o))

total-append :
    (f : Outcome → ℕ) (rs : List (ℕ × Outcome)) (k : ℕ) (o : Outcome)
    → total f (rs ++ (k, o) ∷ []) ≡ total f rs + f o
total-append f [] k o = omega arith
total-append f ((j, p) ∷ rs) k o = omega (arith, total-append f rs k o)

AllWithin-append :
    (rs : List (ℕ × Outcome)) (k : ℕ) (o : Outcome)
    → AllWithin rs
    → WithinRetries o
    → AllWithin (rs ++ (k, o) ∷ [])
AllWithin-append [] k o h w = (w, tt)
AllWithin-append ((j, p) ∷ rs) k o (h, hs) w = (h, AllWithin-append rs k o hs w)

-- A turn that leaves the counters and the output.
pub moved-IsAccounted :
    {all : List ℕ} (p p' : Sender) {s : RetryStats} {printed : List Bytes}
    → left p ≡ left p'
    → lines_now p ≡ lines_now p'
    → retries_now p ≡ retries_now p'
    → open_now p ≡ open_now p'
    → SenderFits p'
    → IsAccounted all p s printed
    → IsAccounted all p' s printed
moved-IsAccounted p p' l w r o f v = record {
  results = v.results;
  within = v.within;
  splits = v.splits ∙ ap (λ t. numbers v.results ++ t) l;
  prints = v.prints ∙ ap (λ t. report v.results ++ t) w;
  acks = v.acks;
  fails = v.fails;
  retried = omega (arith, v.retried);
  timed = v.timed;
  sent = omega (arith, v.sent);
  fits = f;
}

-- A request has its outcome: its number leaves those to come, and its lines are put out.
pub settled-IsAccounted :
    {all : List ℕ} (r : PendingRequest) (p : Sender) (rest : List Bytes) (o : Outcome)
    {s : RetryStats} (s' : RetryStats) {printed : List Bytes} (printed' : List Bytes)
    → left p ≡ r.sequence ∷ due r.sequence rest
    → WithinRetries o
    → (v : IsAccounted all p s printed) → printed' ≡ report v.results ++ outcome_lines r.sequence o
    → s'.acked ≡ total acked_of v.results + acked_of o
    → s'.failed ≡ total failed_of v.results + failed_of o
    → s'.retries ≡ total retries_of v.results + retries_of o
    → s'.timeouts ≡ s'.retries + s'.failed
    → s'.sent_frames ≡ s'.acked + s'.timeouts
    → IsAccounted all (Sender.next r.sequence rest) s' printed'
settled-IsAccounted r p rest o s' printed' l w v lines a f t e n = record {
  results = v.results ++ (r.sequence, o) ∷ [];
  within = AllWithin-append v.results r.sequence o v.within w;
  splits =
      v.splits
      ∙ ap (λ t. numbers v.results ++ t) l
      ∙ sym (append_assoc (numbers v.results) (r.sequence ∷ []) (due r.sequence rest))
      ∙ ap (λ t. t ++ due r.sequence rest) (sym (numbers-append v.results r.sequence o));
  prints =
      lines
      ∙ sym (report-append v.results r.sequence o)
      ∙ sym (append-nil (report (v.results ++ (r.sequence, o) ∷ [])));
  acks = a ∙ sym (total-append acked_of v.results r.sequence o);
  fails = f ∙ sym (total-append failed_of v.results r.sequence o);
  retried = omega (arith, t, total-append retries_of v.results r.sequence o);
  timed = e;
  sent = omega (arith, n);
  fits = tt;
}

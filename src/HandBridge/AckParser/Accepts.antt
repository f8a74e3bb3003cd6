-- ===== src/HandBridge/AckParser/Accepts.antt =====
-- Which lines `parse_ack` accepts, and what it reads from them.
use linux_iot_gateway.Common.{
  ◌↔◌, ℕ, ◌≤◌, Bool, true, false, [], ◌∷◌, ◌++◌, some, ◌≡◌, refl, arith, sym, ap, ap₂, ◌∙◌, Bytes,
  codes, is_empty, list_eq, list_eq_sound, take, drop, take-append-drop, inl, inr, Bool-cases,
  Option-cases,
}
use linux_iot_gateway.Common.Decimal.{
  value, AllDigits, to_string, value-to_string, to_string-AllDigits, to_string-not_empty,
}
use linux_iot_gateway.HandBridge.AckParser.{
  AckStatus, max_seq, scan_seq, strip_line_end, parse_status, parse_tail, parse_text, parse_ack,
  ack_status_to_string,
}
use linux_iot_gateway.HandBridge.AckParser.Digits.{
  scan_seq_sound, scan_seq_complete, strip_line_end_lem,
}

-- A text that stands for the number and the status.
pub record Denotes (text : Bytes) (seq : ℕ) (status : AckStatus) : Type 0 where
  pub digits : Bytes
  pub spells : text ≡ codes "ACK:" ++ digits ++ b' ' ∷ ack_status_to_string status
  pub some_digit : is_empty digits ≡ false
  pub all_digits : AllDigits digits
  pub exact : seq ≡ value 0 digits
  pub fits : seq ≤ max_seq

parse_status_sound :
    (text : Bytes) {status : AckStatus}
    → parse_status text ≡ some status
    → text ≡ ack_status_to_string status
unfolding parse_status ack_status_to_string
parse_status_sound text e = ground (
  arith,
  list_eq_sound text (codes "IN_PROGRESS"),
  list_eq_sound text (codes "OK"),
  list_eq_sound text (codes "PREEMPTED"),
  list_eq_sound text (codes "BUSY"),
  list_eq_sound text (codes "ERROR"),
)

-- The name of a status is read back.
pub parse_status-ack_status_to_string :
    (status : AckStatus) → parse_status (ack_status_to_string status) ≡ some status
unfolding parse_status ack_status_to_string
parse_status-ack_status_to_string AckStatus.in_progress = refl
parse_status-ack_status_to_string AckStatus.ok = refl
parse_status-ack_status_to_string AckStatus.preempted = refl
parse_status-ack_status_to_string AckStatus.busy = refl
parse_status-ack_status_to_string AckStatus.error = refl

parse_tail_sound :
    (n : ℕ) (has : Bool) (rest : Bytes) {seq : ℕ} {status : AckStatus}
    → parse_tail (n, has, rest) ≡ some (seq, status)
    → (has ≡ true) × (n ≡ seq) × (rest ≡ b' ' ∷ ack_status_to_string status)
unfolding parse_tail
parse_tail_sound n false rest e = ground arith
parse_tail_sound n true [] e = ground arith
parse_tail_sound n true (c ∷ text) e = elim (Option-cases (parse_status text)) [
  | inl bad ↦ ground arith
  | inr (s, good) ↦ ground (arith, parse_status_sound text good)
]

parse_text_sound :
    (text : Bytes) {seq : ℕ} {status : AckStatus}
    → parse_text text ≡ some (seq, status)
    → Denotes text seq status
unfolding parse_text
parse_text_sound text {seq} {status} e = elim (Bool-cases (list_eq (take 4 text) (codes "ACK:"))) [
  | inl prefix ↦ elim (Option-cases (scan_seq 0 false (drop 4 text))) [
    | inl bad ↦ absurd (ground arith)
    | inr ((n, has, rest), found) ↦
        let s = scan_seq_sound (drop 4 text) 0 false (omega arith) found in
        let tail : parse_tail (n, has, rest) ≡ some (seq, status) = ground arith in
        let (some_digit, same, spelled) = parse_tail_sound n has rest tail in
        record {
          digits = s.digits;
          spells =
              sym (take-append-drop 4 text)
              ∙ ap₂ ◌++◌ (list_eq_sound (take 4 text) (codes "ACK:") prefix)
                  (s.splits ∙ ap (◌++◌ s.digits) spelled);
          some_digit = let has_digit = s.has_digit in ground arith;
          all_digits = s.all_digits;
          exact = sym same ∙ s.exact;
          fits = let small = s.fits in omega arith;
        }
  ]
  | inr other ↦ absurd (ground arith)
]

parse_text_complete :
    (text : Bytes) {seq : ℕ} {status : AckStatus}
    → Denotes text seq status
    → parse_text text ≡ some (seq, status)
unfolding parse_text
parse_text_complete text {seq} {status} d =
    rw (d.spells, d.exact)
      (rw
        (scan_seq_complete d.digits (b' ' ∷ ack_status_to_string status) 0 false d.all_digits refl
          (omega (arith, d.exact, d.fits)))
        (rw d.some_digit (unfold parse_tail in rw (parse_status-ack_status_to_string status))))

parse_ack_sound :
    (line : Bytes) {seq : ℕ} {status : AckStatus}
    → parse_ack line ≡ some (seq, status)
    → Denotes (strip_line_end line) seq status
unfolding parse_ack
parse_ack_sound line = parse_text_sound (strip_line_end line)

parse_ack_complete :
    (line : Bytes) {seq : ℕ} {status : AckStatus}
    → Denotes (strip_line_end line) seq status
    → parse_ack line ≡ some (seq, status)
unfolding parse_ack
parse_ack_complete line = parse_text_complete (strip_line_end line)

-- A line is accepted, with a number and a status as the result, exactly when it is `ACK:`, one or
-- more digits, one space and the name of that status, without its line end, and the digits spell
-- that number, which fits 32 bits.
pub parse_ack_iff :
    (line : Bytes) (seq : ℕ) (status : AckStatus)
    → (parse_ack line ≡ some (seq, status)) ↔ Denotes (strip_line_end line) seq status
parse_ack_iff line seq status = (parse_ack_sound line, parse_ack_complete line)

-- The line that a device writes for a number and a status.
abbrev pub ack_line : ℕ → AckStatus → Bytes
ack_line seq status = codes "ACK:" ++ to_string seq ++ b' ' ∷ ack_status_to_string status

-- The answer to any 32-bit number is read back, with its status.
pub parse_ack-ack_line :
    (seq : ℕ) (status : AckStatus)
    → seq ≤ max_seq
    → parse_ack (ack_line seq status ++ b'\r' ∷ b'\n' ∷ []) ≡ some (seq, status)
unfolding parse_ack
parse_ack-ack_line seq status h = rw (strip_line_end_lem (ack_line seq status)) (
    parse_text_complete (ack_line seq status) (record {
      digits = to_string seq;
      spells = refl;
      some_digit = to_string-not_empty seq;
      all_digits = to_string-AllDigits seq;
      exact = sym (value-to_string seq);
      fits = h;
    }))

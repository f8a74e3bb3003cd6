-- ===== src/HandBridge/AckParser/Digits.antt =====
-- The digit loop of `parse_ack`, and the line end that it drops first.
use linux_iot_gateway.Common.{
  ℕ, ◌+◌, ◌-◌, ◌*◌, ◌≤◌, Bool, true, false, ◌||◌, not, [], ◌∷◌, ◌++◌, some, ◌≡◌, ap, subst, ◌∙◌,
  inl, inr, ltb, ◌/◌, Bool-cases, arith, Bytes, is_empty,
}
use mathlib.Core.List.{reverse-append, reverse-reverse}
use linux_iot_gateway.Common.Decimal.{is_digit, value, AllDigits, le-value}
use linux_iot_gateway.HandBridge.AckParser.{max_seq, scan_seq, strip_line_end}

abbrev pub StartsNoDigit : Bytes → Type 0
StartsNoDigit [] = Unit {0}
StartsNoDigit (c ∷ s) = is_digit c ≡ false

-- The digits that the loop has read, and what they stand for.
pub record Scanned (n : ℕ) (had : Bool) (text : Bytes) (seq : ℕ) (has : Bool) (rest : Bytes)
    : Type 0 where
  pub digits : Bytes
  pub splits : text ≡ digits ++ rest
  pub all_digits : AllDigits digits
  pub stops : StartsNoDigit rest
  pub exact : seq ≡ value n digits
  pub fits : seq ≤ max_seq
  pub has_digit : has ≡ (had || not (is_empty digits))

pub scan_seq_sound :
    (text : Bytes) (n : ℕ) (had : Bool) {seq : ℕ} {has : Bool} {rest : Bytes}
    → n ≤ max_seq
    → scan_seq n had text ≡ some (seq, has, rest)
    → Scanned n had text seq has rest
unfolding scan_seq
scan_seq_sound [] n had {rest} fits e = record {
  digits = [];
  splits = ground arith;
  all_digits = tt;
  stops = let same : [] ≡ rest = ground arith in subst StartsNoDigit same tt;
  exact = ground arith;
  fits = ground arith;
  has_digit = ground arith;
}
scan_seq_sound (c ∷ text) n had {seq} {has} {rest} fits e = elim (Bool-cases (is_digit c)) [
  | inl digit ↦ elim (Bool-cases (ltb ((max_seq - (c - b'0')) / 10) n)) [
    | inl over ↦ absurd (ground arith)
    | inr room ↦
        let next : scan_seq (n * 10 + (c - b'0')) true text ≡ some (seq, has, rest) =
          ground arith in
        let s = scan_seq_sound text (n * 10 + (c - b'0')) true (ground arith) next in
        record {
          digits = c ∷ s.digits;
          splits = ap (◌∷◌ c) s.splits;
          all_digits = (digit, s.all_digits);
          stops = s.stops;
          exact = s.exact;
          fits = s.fits;
          has_digit = s.has_digit ∙ ground arith;
        }
  ]
  | inr other ↦ record {
    digits = [];
    splits = ground arith;
    all_digits = tt;
    stops = let same : c ∷ text ≡ rest = ground arith in subst StartsNoDigit same other;
    exact = ground arith;
    fits = ground arith;
    has_digit = ground arith;
  }
]

pub scan_seq_complete :
    (digits rest : Bytes) (n : ℕ) (had : Bool)
    → AllDigits digits
    → StartsNoDigit rest
    → value n digits ≤ max_seq
    → scan_seq n had (digits ++ rest) ≡ some (value n digits, had || not (is_empty digits), rest)
unfolding scan_seq
scan_seq_complete [] [] n had _ stop fits = ground arith
scan_seq_complete [] (c ∷ rest) n had _ stop fits = ground arith
scan_seq_complete (d ∷ digits) rest n had (hd, hds) stop fits = ground (
  arith,
  scan_seq_complete digits rest (n * 10 + (d - b'0')) true hds stop,
  le-value (n * 10 + (d - b'0')) digits,
)

-- A line ends in a carriage return and a newline, and both go.
pub strip_line_end_lem : (text : Bytes) → strip_line_end (text ++ b'\r' ∷ b'\n' ∷ []) ≡ text
unfolding strip_line_end
strip_line_end_lem text =
    rw (reverse-append text (b'\r' ∷ b'\n' ∷ []), strip_line_end) (reverse-reverse text)

-- ===== src/SensorGateway/Parser/RoundTrip.antt =====
-- Texts as the sensors send them.
use linux_iot_gateway.Common.{
  ℕ, zero, suc, ◌≤◌, ◌<◌, ◌^◌, Bool, true, false, [], ◌∷◌, ◌++◌, some, Bytes, codes, ◌==◌, is_empty,
  length, ◌≡◌, ◌⊎◌, ◌≢◌, refl, ap, ◌∙◌, arith, Bool-cases, inl, inr, All, All-append, append_assoc,
  lt→ltb,
}
use linux_iot_gateway.Common.Decimal.{
  is_digit, AllDigits, to_string, value-to_string, to_string-AllDigits, to_string-not_empty,
}
use linux_iot_gateway.Common.Int.{ℤ, pos, negsuc, IsInt, int_text}
use linux_iot_gateway.SensorGateway.Parser.{
  SensorData, c_string, is_space, skip_spaces, match_text, span_digits, span_word, stored,
  scan_digits, scan_int, scan_word, sscanf_fields, parse_sensor_data,
}

abbrev pub IsWordByte : ℕ → Type 0
IsWordByte c = (is_space c ≡ false) × (c ≢ 0)

-- A reading that the format can carry.
pub record IsReading (sensor : SensorData) : Type 0 where
  pub temp_fits : IsInt sensor.temp
  pub humi_fits : IsInt sensor.humi
  pub id_bytes : All IsWordByte sensor.device_id
  pub id_some : is_empty sensor.device_id ≡ false
  pub id_short : length sensor.device_id ≤ 31

abbrev pub sensor_text : SensorData → Bytes
sensor_text sensor =
    codes "temp="
    ++ (int_text sensor.temp
        ++ (codes ",humi=" ++ (int_text sensor.humi ++ (codes ",device_id=" ++ sensor.device_id))))

-- White space, a NUL, or nothing at all.
abbrev pub StartsNoWord : Bytes → Type 0
StartsNoWord [] = Unit {0}
StartsNoWord (c ∷ s) = (is_space c ≡ true) ⊎ (c ≡ 0)

abbrev StartsNoDigit : Bytes → Type 0
StartsNoDigit [] = Unit {0}
StartsNoDigit (c ∷ s) = is_digit c ≡ false

match_text-append : (cs s : Bytes) → match_text cs (cs ++ s) ≡ some s
match_text-append [] s = refl
match_text-append (c ∷ cs) s = ground (arith, match_text-append cs s)

span_digits-append :
    (ds s : Bytes) → AllDigits ds → StartsNoDigit s → span_digits (ds ++ s) ≡ (ds, s)
span_digits-append [] [] h n = refl
span_digits-append [] (c ∷ s) h n = rw n refl
span_digits-append (d ∷ ds) s (h, hs) n = rw (h, span_digits-append ds s hs n) refl

skip_digit : (c : ℕ) (s : Bytes) → is_digit c ≡ true → skip_spaces (c ∷ s) ≡ c ∷ s
skip_digit c s h = ground arith

no_sign : (c : ℕ) → is_digit c ≡ true → ((c == b'-') ≡ false) × ((c == b'+') ≡ false)
no_sign c h = ground arith

module _ (wide : Bool → Bytes → ℤ) where
  scan_digits-append :
      (negative : Bool) (ds s : Bytes)
      → AllDigits ds
      → StartsNoDigit s
      → is_empty ds ≡ false
      → scan_digits wide negative (ds ++ s) ≡ some (stored wide negative ds, s)
  scan_digits-append negative ds s h n e = rw (span_digits-append ds s h n, e) refl

  -- Digits at the front are read as an unsigned number.
  scan_int-digits :
      (ds s : Bytes)
      → AllDigits ds
      → StartsNoDigit s
      → is_empty ds ≡ false
      → scan_int wide (ds ++ s) ≡ some (stored wide false ds, s)
  unfolding scan_int
  scan_int-digits [] s h n e = cc
  scan_int-digits (d ∷ ds) s h n e =
      let (no_minus, no_plus) = no_sign d h.0 in
      rw (skip_digit d (ds ++ s) h.0, no_minus, no_plus) (scan_digits-append false (d ∷ ds) s h n e)

  stored_pos : (n : ℕ) → n < 2 ^ 31 → stored wide false (to_string n) ≡ pos n
  stored_pos n h = rw (value-to_string n, lt→ltb n (2 ^ 31) h) refl

  stored_neg : (n : ℕ) → n < 2 ^ 31 → stored wide true (to_string (suc n)) ≡ negsuc n
  stored_neg n h = rw (value-to_string (suc n)) (ground arith)

  scan_int-int_text :
      (z : ℤ) (s : Bytes)
      → IsInt z
      → StartsNoDigit s
      → scan_int wide (int_text z ++ s) ≡ some (z, s)
  unfolding scan_int
  scan_int-int_text (pos n) s h starts =
      scan_int-digits (to_string n) s (to_string-AllDigits n) starts (to_string-not_empty n)
      ∙ ap (λ z. some (z, s)) (stored_pos n h)
  scan_int-int_text (negsuc n) s h starts =
      scan_digits-append true (to_string (suc n)) s (to_string-AllDigits (suc n)) starts
        (to_string-not_empty (suc n))
      ∙ ap (λ z. some (z, s)) (stored_neg n h)

span_word-c_string : (k : ℕ) (s : Bytes) → StartsNoWord s → span_word k (c_string s) ≡ []
span_word-c_string zero s h = refl
span_word-c_string (suc k) [] h = refl
span_word-c_string (suc k) (c ∷ s) (inl blank) = elim (Bool-cases (c == 0)) [
  | inl nul ↦ rw nul refl
  | inr other ↦ rw (other, blank) refl
]
span_word-c_string (suc k) (c ∷ s) (inr nul) = rw nul refl

span_word-append :
    (n : ℕ) (word t : Bytes)
    → All IsWordByte word
    → length word ≤ n
    → ((length word ≡ n) ⊎ ((k : ℕ) → span_word k t ≡ []))
    → span_word n (word ++ t) ≡ word
span_word-append zero [] t h l e = refl
span_word-append zero (c ∷ word) t h l e = absurd (omega arith)
span_word-append (suc n) [] t h l (inl full) = absurd (omega arith)
span_word-append (suc n) [] t h l (inr ends) = ends (suc n)
span_word-append (suc n) (c ∷ word) t h l (inl full) =
    rw h.0.0 (ap (◌∷◌ c) (span_word-append n word t h.1 (omega arith) (inl (omega arith))))
span_word-append (suc n) (c ∷ word) t h l (inr ends) =
    rw h.0.0 (ap (◌∷◌ c) (span_word-append n word t h.1 (omega arith) (inr ends)))

c_string-append : (s t : Bytes) → All (λ c. c ≢ 0) s → c_string (s ++ t) ≡ s ++ c_string t
c_string-append [] t h = refl
c_string-append (c ∷ s) t h = ground (arith, c_string-append s t h.1)

-- What holds for digits, a minus, the bytes of a word and the labels holds throughout a text.
module _ (P : ℕ → Type 0) (digits : (c : ℕ) → is_digit c ≡ true → P c) (minus : P b'-')
    (words : (c : ℕ) → IsWordByte c → P c) where
  digits-All : (ds : Bytes) → AllDigits ds → All P ds
  digits-All [] h = tt
  digits-All (d ∷ ds) h = (digits d h.0, digits-All ds h.1)

  int_text-All : (z : ℤ) → All P (int_text z)
  int_text-All (pos n) = digits-All (to_string n) (to_string-AllDigits n)
  int_text-All (negsuc n) = (minus, digits-All (to_string (suc n)) (to_string-AllDigits (suc n)))

  word-All : (word : Bytes) → All IsWordByte word → All P word
  word-All [] h = tt
  word-All (c ∷ word) h = (words c h.0, word-All word h.1)

  pub sensor_text-All :
      (sensor : SensorData)
      → IsReading sensor
      → All P (codes "temp=")
      → All P (codes ",humi=")
      → All P (codes ",device_id=")
      → All P (sensor_text sensor)
  sensor_text-All sensor v temp humi device_id = All-append P (codes "temp=") _ temp (
      All-append P (int_text sensor.temp) _ (int_text-All sensor.temp) (
        All-append P (codes ",humi=") _ humi (
          All-append P (int_text sensor.humi) _ (int_text-All sensor.humi) (
            All-append P (codes ",device_id=") sensor.device_id device_id
              (word-All sensor.device_id v.id_bytes)))))

sensor_text-NoNul : (sensor : SensorData) → IsReading sensor → All (λ c. c ≢ 0) (sensor_text sensor)
sensor_text-NoNul sensor v =
    sensor_text-All (λ c. c ≢ 0) (λ c h. ground arith) (omega arith) (λ c h. h.1) sensor v
      (omega arith) (omega arith) (omega arith)

scan_word-append :
    (word rest : Bytes)
    → All IsWordByte word
    → is_empty word ≡ false
    → length word ≤ 31
    → ((length word ≡ 31) ⊎ StartsNoWord rest)
    → scan_word (word ++ c_string rest) ≡ some word
unfolding scan_word
scan_word-append [] rest h e l ends = cc
scan_word-append (c ∷ word) rest h e l ends =
    rw (h.0.0, span_word-append 31 (c ∷ word) (c_string rest) h l (stop ends)) refl
  where
    stop :
        ((length (c ∷ word) ≡ 31) ⊎ StartsNoWord rest)
        → (length (c ∷ word) ≡ 31) ⊎ ((k : ℕ) → span_word k (c_string rest) ≡ [])
    stop (inl full) = inl full
    stop (inr blank) = inr (λ k. span_word-c_string k rest blank)

-- The same text with another behind it, bracketed to the right.
abbrev text_then : SensorData → Bytes → Bytes
text_then sensor rest =
    codes "temp="
    ++ (int_text sensor.temp
        ++ (codes ",humi="
            ++ (int_text sensor.humi ++ (codes ",device_id=" ++ (sensor.device_id ++ rest)))))

sensor_text-then :
    (sensor : SensorData) (rest : Bytes) → sensor_text sensor ++ rest ≡ text_then sensor rest
sensor_text-then sensor rest = simp append_assoc

fields_of_text :
    (wide : Bool → Bytes → ℤ) (sensor : SensorData) (rest : Bytes)
    → IsReading sensor
    → (length sensor.device_id ≡ 31) ⊎ StartsNoWord rest
    → sscanf_fields wide (text_then sensor (c_string rest)) ≡ some sensor
unfolding sscanf_fields
fields_of_text wide sensor rest v ends =
    rw
      (
        scan_int-int_text wide sensor.temp
            (codes ",humi="
              ++ (int_text sensor.humi
                  ++ (codes ",device_id=" ++ (sensor.device_id ++ c_string rest))))
            v.temp_fits refl,
        scan_int-int_text wide sensor.humi
            (codes ",device_id=" ++ (sensor.device_id ++ c_string rest)) v.humi_fits refl,
        scan_word-append sensor.device_id rest v.id_bytes v.id_some v.id_short ends,
      )
      refl

-- The text of a reading, as far as the format can carry it, is parsed to that reading, whatever
-- stands behind it, if white space, a NUL or nothing follows or the identifier has 31 characters.
pub parse_sensor_data-sensor_text :
    (wide : Bool → Bytes → ℤ) (sensor : SensorData) (rest : Bytes)
    → IsReading sensor
    → (length sensor.device_id ≡ 31) ⊎ StartsNoWord rest
    → parse_sensor_data wide (sensor_text sensor ++ rest) ≡ some sensor
unfolding parse_sensor_data
parse_sensor_data-sensor_text wide sensor rest v ends =
    ap (sscanf_fields wide) (
      c_string-append (sensor_text sensor) rest (sensor_text-NoNul sensor v)
      ∙ sensor_text-then sensor (c_string rest))
    ∙ fields_of_text wide sensor rest v ends

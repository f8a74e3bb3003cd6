-- ===== src/SensorGateway/Parser/Sound.antt =====
-- Texts that `parse_sensor_data` accepts.
use linux_iot_gateway.Common.{
  ℕ, zero, suc, ◌≤◌, Bool, true, false, [], ◌∷◌, ◌++◌, Option, none, some, Bytes, codes, ◌==◌,
  is_empty, length, ◌≡◌, ◌⊎◌, refl, sym, ap, ◌∙◌, subst, arith, Bool-cases, inl, inr, All, ==_iff,
  append_assoc,
}
use linux_iot_gateway.Common.Decimal.{is_digit, AllDigits}
use linux_iot_gateway.Common.Int.{ℤ}
use linux_iot_gateway.SensorGateway.Parser.{
  SensorData, c_string, is_space, skip_spaces, match_text, span_digits, span_word, stored,
  scan_digits, scan_signed, scan_int, scan_word, sscanf_fields, parse_sensor_data, ◌>>=◌,
}

abbrev pub AllSpaces : Bytes → Type 0
AllSpaces = All (λ c. is_space c ≡ true)

abbrev pub NoSpaces : Bytes → Type 0
NoSpaces = All (λ c. is_space c ≡ false)

abbrev pub SignFits : Bytes → Bool → Type 0
SignFits sign negative =
    ((sign ≡ []) × (negative ≡ false))
    ⊎ (((sign ≡ b'+' ∷ []) × (negative ≡ false)) ⊎ ((sign ≡ b'-' ∷ []) × (negative ≡ true)))

-- White space, a sign or none, and digits, that stand for what is stored.
pub record IsNumber (wide : Bool → Bytes → ℤ) (text : Bytes) (z : ℤ) : Type 0 where
  pub spaces : Bytes
  pub sign : Bytes
  pub negative : Bool
  pub digits : Bytes
  pub splits : text ≡ spaces ++ (sign ++ digits)
  pub all_spaces : AllSpaces spaces
  pub sign_fits : SignFits sign negative
  pub all_digits : AllDigits digits
  pub some_digit : is_empty digits ≡ false
  pub exact : z ≡ stored wide negative digits

>>=-eq-some {ℓ κ} :
    {A : Type ℓ} {B : Type κ} (m : Option A) (f : A → Option B) {b : B}
    → (m >>= f) ≡ some b
    → (a : A) × (m ≡ some a) × (f a ≡ some b)
>>=-eq-some none f e = cc
>>=-eq-some (some a) f e = (a, refl, e)

match_text_sound : (cs s r : Bytes) → match_text cs s ≡ some r → s ≡ cs ++ r
match_text_sound [] s r e = cc
match_text_sound (c ∷ cs) [] r e = cc
match_text_sound (c ∷ cs) (d ∷ s) r e = ground (arith, match_text_sound cs s r)

span_digits_sound : (s : Bytes) → let (ds, r) = span_digits s in (s ≡ ds ++ r) × AllDigits ds
span_digits_sound [] = (refl, tt)
span_digits_sound (c ∷ s) = elim (Bool-cases (is_digit c)) [
  | inl digit ↦ rw digit (ap (◌∷◌ c) (span_digits_sound s).0, (digit, (span_digits_sound s).1))
  | inr other ↦ rw other (refl, tt)
]

skip_spaces_sound :
    (s : Bytes) → (spaces : Bytes) × (s ≡ spaces ++ skip_spaces s) × AllSpaces spaces
skip_spaces_sound [] = ([], refl, tt)
skip_spaces_sound (c ∷ s) = elim (Bool-cases (is_space c)) [
  | inl blank ↦
      let (spaces, splits, all) = skip_spaces_sound s in
      rw blank (c ∷ spaces, ap (◌∷◌ c) splits, (blank, all))
  | inr other ↦ rw other ([], refl, tt)
]

span_word_sound :
    (n : ℕ) (s : Bytes)
    → (r : Bytes) × (s ≡ span_word n s ++ r)
      × NoSpaces (span_word n s)
      × (length (span_word n s) ≤ n)
span_word_sound zero s = (s, refl, tt, omega arith)
span_word_sound (suc n) [] = ([], refl, tt, omega arith)
span_word_sound (suc n) (c ∷ s) = elim (Bool-cases (is_space c)) [
  | inl blank ↦ rw blank (c ∷ s, refl, tt, omega arith)
  | inr other ↦
      let (r, splits, all, short) = span_word_sound n s in
      rw other (r, ap (◌∷◌ c) splits, (other, all), omega arith)
]

-- The word of `%31s`, with what stands round it.
pub record IsWord (s word : Bytes) : Type 0 where
  pub spaces : Bytes
  pub behind : Bytes
  pub splits : s ≡ spaces ++ (word ++ behind)
  pub all_spaces : AllSpaces spaces
  pub no_spaces : NoSpaces word
  pub some_byte : is_empty word ≡ false
  pub short : length word ≤ 31

scan_word_sound : (s : Bytes) {word : Bytes} → scan_word s ≡ some word → IsWord s word
unfolding scan_word
scan_word_sound s {word} e = elim (Bool-cases (is_empty (span_word 31 (skip_spaces s)))) [
  | inl nothing ↦ absurd (ground arith)
  | inr something ↦
      let same : span_word 31 (skip_spaces s) ≡ word = ground arith in
      let (spaces, splits, all) = skip_spaces_sound s in
      let (r, splits', no_spaces, short) = span_word_sound 31 (skip_spaces s) in
      subst (IsWord s) same (record {
        spaces = spaces;
        behind = r;
        splits = splits ∙ ap (λ t. spaces ++ t) splits';
        all_spaces = all;
        no_spaces = no_spaces;
        some_byte = something;
        short = short;
      })
]

behind :
    (front : Bytes) {s rest rest' : Bytes} → s ≡ front ++ rest → rest ≡ rest' → s ≡ front ++ rest'
behind front e f = e ∙ ap (λ t. front ++ t) f

module _ (wide : Bool → Bytes → ℤ) where
  -- The number of `%d` at the front of a text.
  abbrev HasNumber : Bytes → ℤ → Bytes → Type 0
  HasNumber s z r = (text : Bytes) × IsNumber wide text z × (s ≡ text ++ r)

  scan_digits_sound :
      (spaces sign : Bytes) (negative : Bool) (s : Bytes) {z : ℤ} {r : Bytes}
      → AllSpaces spaces
      → SignFits sign negative
      → scan_digits wide negative s ≡ some (z, r)
      → HasNumber (spaces ++ (sign ++ s)) z r
  scan_digits_sound spaces sign negative s {z} {r} all fits e =
      elim (Bool-cases (is_empty (span_digits s).0)) [
        | inl nothing ↦ absurd (ground arith)
        | inr something ↦
            let (splits, digits) = span_digits_sound s in
            let here : some (stored wide negative (span_digits s).0, (span_digits s).1)
                ≡ some (z, r) =
              rw something at e in
            let exact : z ≡ stored wide negative (span_digits s).0 = cc in
            let rest : (span_digits s).1 ≡ r = cc in
            (
              spaces ++ (sign ++ (span_digits s).0),
              record {
                spaces = spaces;
                sign = sign;
                negative = negative;
                digits = (span_digits s).0;
                splits = refl;
                all_spaces = all;
                sign_fits = fits;
                all_digits = digits;
                some_digit = something;
                exact = exact;
              },
              ap (λ t. spaces ++ (sign ++ t)) (splits ∙ ap (λ t. (span_digits s).0 ++ t) rest)
                  ∙ ap (λ t. spaces ++ t) (sym (append_assoc sign (span_digits s).0 r))
                  ∙ sym (append_assoc spaces (sign ++ (span_digits s).0) r),
            )
      ]

  scan_signed_sound :
      (spaces s : Bytes) {z : ℤ} {r : Bytes}
      → AllSpaces spaces
      → scan_signed wide s ≡ some (z, r)
      → HasNumber (spaces ++ s) z r
  scan_signed_sound spaces [] all e = cc
  scan_signed_sound spaces (c ∷ s) {z} {r} all e = elim (Bool-cases (c == b'-')) [
    | inl minus ↦
        subst (λ d. HasNumber (spaces ++ d ∷ s) z r) (sym ((==_iff c b'-').0 minus))
          (scan_digits_sound spaces (b'-' ∷ []) true s all (inr (inr (refl, refl))) (rw minus at e))
    | inr no_minus ↦ elim (Bool-cases (c == b'+')) [
      | inl plus ↦
          subst (λ d. HasNumber (spaces ++ d ∷ s) z r) (sym ((==_iff c b'+').0 plus))
            (scan_digits_sound spaces (b'+' ∷ []) false s all (inr (inl (refl, refl)))
              (rw (no_minus, plus) at e))
      | inr no_plus ↦
          scan_digits_sound spaces [] false (c ∷ s) all (inl (refl, refl))
            (rw (no_minus, no_plus) at e)
    ]
  ]

  scan_int_sound : (s : Bytes) {z : ℤ} {r : Bytes} → scan_int wide s ≡ some (z, r) → HasNumber s z r
  unfolding scan_int
  scan_int_sound s {z} {r} e =
      let (spaces, splits, all) = skip_spaces_sound s in
      subst (λ t. HasNumber t z r) (sym splits) (scan_signed_sound spaces (skip_spaces s) all e)

  -- The text in front of the first NUL, and its three fields.
  pub record IsParsed (raw : Bytes) (sensor : SensorData) : Type 0 where
    pub temp_text : Bytes
    pub humi_text : Bytes
    pub id_text : Bytes
    pub splits :
        c_string raw
        ≡ codes "temp="
          ++ (temp_text ++ (codes ",humi=" ++ (humi_text ++ (codes ",device_id=" ++ id_text))))
    pub temp_number : IsNumber wide temp_text sensor.temp
    pub humi_number : IsNumber wide humi_text sensor.humi
    pub id_word : IsWord id_text sensor.device_id

  -- A text that is parsed has the three fields of the format in their order, with the numbers and
  -- the word that are returned, white space in front of each of these at most, and the word is of
  -- one to 31 characters that are no white space.
  pub parse_sensor_data_sound :
      (raw : Bytes) {sensor : SensorData}
      → parse_sensor_data wide raw ≡ some sensor
      → IsParsed raw sensor
  unfolding parse_sensor_data sscanf_fields
  parse_sensor_data_sound raw {sensor} e =
      let (s1, e1, k1) = >>=-eq-some (match_text (codes "temp=") (c_string raw)) _ e in
      let ((temp, s2), e2, k2) = >>=-eq-some (scan_int wide s1) _ k1 in
      let (s3, e3, k3) = >>=-eq-some (match_text (codes ",humi=") s2) _ k2 in
      let ((humi, s4), e4, k4) = >>=-eq-some (scan_int wide s3) _ k3 in
      let (s5, e5, k5) = >>=-eq-some (match_text (codes ",device_id=") s4) _ k4 in
      let (word, e6, k6) = >>=-eq-some (scan_word s5) _ k5 in
      let (temp_text, temp_number, t) = scan_int_sound s1 e2 in
      let (humi_text, humi_number, h) = scan_int_sound s3 e4 in
      let same : record { temp = temp; humi = humi; device_id = word } ≡ sensor = cc in
      subst (IsParsed raw) same (record {
        temp_text = temp_text;
        humi_text = humi_text;
        id_text = s5;
        splits = behind (codes "temp=") (match_text_sound (codes "temp=") (c_string raw) s1 e1) (
            behind temp_text t (
              behind (codes ",humi=") (match_text_sound (codes ",humi=") s2 s3 e3)
                (behind humi_text h (match_text_sound (codes ",device_id=") s4 s5 e5))));
        temp_number = temp_number;
        humi_number = humi_number;
        id_word = scan_word_sound s5 e6;
      })

-- ===== src/SensorGateway/Parser.antt =====
-- sensor_parser.c: `parse_sensor_data` by `sscanf`, and `build_json` by `snprintf`. The library
-- functions are modelled by what the C standard says of the conversions that are used here.
pub mod RoundTrip
pub mod Sound
pub mod Json
use linux_iot_gateway.Common.{
  ℕ, zero, suc, ◌+◌, ◌-◌, ◌≤◌, ◌^◌, Bool, true, false, not, ◌&&◌, ◌||◌, List, [], ◌∷◌, ◌++◌, Option,
  none, some, Bytes, codes, if◌then◌else◌, ◌==◌, ltb, leb, is_empty, length,
}
use linux_iot_gateway.Common.Decimal.{is_digit, value}
use linux_iot_gateway.Common.Int.{ℤ, pos, negsuc, int_text}

-- `device_id` is the text in front of its NUL.
pub record SensorData : Type 0 where
  pub temp : ℤ
  pub humi : ℤ
  pub device_id : Bytes

-- The text in front of the first NUL.
abbrev pub c_string : Bytes → Bytes
c_string [] = []
c_string (c ∷ s) = if c == 0 then [] else c ∷ c_string s

-- `isspace` in the C locale.
abbrev pub is_space : ℕ → Bool
is_space c = c == b' ' || leb b'\t' c && leb c b'\r'

abbrev pub skip_spaces : Bytes → Bytes
skip_spaces [] = []
skip_spaces (c ∷ s) = if is_space c then skip_spaces s else c ∷ s

-- An ordinary part of the format.
abbrev pub match_text : Bytes → Bytes → Option Bytes
match_text [] s = some s
match_text (c ∷ cs) [] = none
match_text (c ∷ cs) (d ∷ s) = if c == d then match_text cs s else none

abbrev pub span_digits : Bytes → Bytes × Bytes
span_digits [] = ([], [])
span_digits (c ∷ s) =
    let (digits, rest) = span_digits s in if is_digit c then (c ∷ digits, rest) else ([], c ∷ s)

-- At most `n` characters that are no white space.
abbrev pub span_word : ℕ → Bytes → Bytes
span_word zero s = []
span_word (suc n) [] = []
span_word (suc n) (c ∷ s) = if is_space c then [] else c ∷ span_word n s

-- `%31s`.
unfoldable pub scan_word : Bytes → Option Bytes
scan_word s = let word = span_word 31 (skip_spaces s) in if is_empty word then none else some word

infixl 5 ◌>>=◌
abbrev pub ◌>>=◌ {ℓ κ} : {A : Type ℓ} {B : Type κ} → Option A → (A → Option B) → Option B
none >>= f = none
some a >>= f = f a

-- What `%d` stores where no `int` is the value is left open by the standard: an argument.
module _ (out_of_range : Bool → Bytes → ℤ) where
  abbrev pub stored : Bool → Bytes → ℤ
  stored false digits =
      if ltb (value 0 digits) (2 ^ 31) then pos (value 0 digits) else out_of_range false digits
  stored true digits =
      if value 0 digits == 0
      then pos 0
      else if leb (value 0 digits) (2 ^ 31)
      then negsuc (value 0 digits - 1)
      else out_of_range true digits

  abbrev pub scan_digits : Bool → Bytes → Option (ℤ × Bytes)
  scan_digits negative s =
      let (digits, rest) = span_digits s in
      if is_empty digits then none else some (stored negative digits, rest)

  -- A sign, and the digits behind it.
  abbrev pub scan_signed : Bytes → Option (ℤ × Bytes)
  scan_signed [] = none
  scan_signed (c ∷ s) =
      if c == b'-'
      then scan_digits true s
      else if c == b'+'
      then scan_digits false s
      else scan_digits false (c ∷ s)

  -- `%d`.
  unfoldable pub scan_int : Bytes → Option (ℤ × Bytes)
  scan_int s = scan_signed (skip_spaces s)

  -- The three conversions, or fewer than three.
  unfoldable pub sscanf_fields : Bytes → Option SensorData
  sscanf_fields raw = do
    s ← match_text (codes "temp=") raw
    (temp, s) ← scan_int s
    s ← match_text (codes ",humi=") s
    (humi, s) ← scan_int s
    s ← match_text (codes ",device_id=") s
    device_id ← scan_word s
    some (record { temp = temp; humi = humi; device_id = device_id })

  -- `none` is the result -1.
  unfoldable pub parse_sensor_data : Bytes → Option SensorData
  unfolding sscanf_fields scan_int scan_word
  parse_sensor_data raw = sscanf_fields (c_string raw)

unfoldable pub json_text : SensorData → Bytes
json_text sensor =
    codes "{\"temp\":"
    ++ (int_text sensor.temp
        ++ (codes ",\"humi\":"
            ++ (int_text sensor.humi
                ++ (codes ",\"device_id\":\"" ++ (sensor.device_id ++ codes "\"}")))))

-- The text in the buffer, and whether 0 is returned. `snprintf` returns the length of the whole
-- text, which must leave room for the NUL.
unfoldable pub build_json : SensorData → ℕ → Bytes × Bool
build_json sensor buf_size =
    if buf_size == 0
    then ([], false)
    else if leb buf_size (length (json_text sensor))
    then ([], false)
    else (json_text sensor, true)

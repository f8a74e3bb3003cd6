-- ===== src/SensorGateway/Parser/Json.antt =====
-- The length of the text that `build_json` prints.
use linux_iot_gateway.Common.{
  ℕ, ◌+◌, ◌≤◌, ◌<◌, Bool, true, false, some, [], ◌++◌, Bytes, codes, length, ◌≡◌, ◌↔◌, subst, sym,
  arith, length-append,
}
use linux_iot_gateway.Common.Int.{ℤ, IsInt, int_text, length-int_text}
use linux_iot_gateway.SensorGateway.Parser.{
  SensorData, json_text, build_json, parse_sensor_data, stored,
}
use linux_iot_gateway.SensorGateway.Parser.Sound.{IsNumber, parse_sensor_data_sound}

length-json_text :
    (sensor : SensorData)
    → length (json_text sensor)
      ≡ 32 + length (int_text sensor.temp) + length (int_text sensor.humi) + length sensor.device_id
unfolding json_text
length-json_text sensor = omega (
  arith,
  length-append (int_text sensor.temp) (
      codes ",\"humi\":"
      ++ (int_text sensor.humi
          ++ (codes ",\"device_id\":\"" ++ (sensor.device_id ++ codes "\"}")))),
  length-append (int_text sensor.humi)
      (codes ",\"device_id\":\"" ++ (sensor.device_id ++ codes "\"}")),
  length-append sensor.device_id (codes "\"}"),
)

-- What the standard library stores for a number out of range is an `int` as well.
abbrev pub StoresInts : (Bool → Bytes → ℤ) → Type 0
StoresInts wide = (negative : Bool) (digits : Bytes) → IsInt (wide negative digits)

stored-IsInt :
    (wide : Bool → Bytes → ℤ) (negative : Bool) (digits : Bytes)
    → StoresInts wide
    → IsInt (stored wide negative digits)
stored-IsInt wide false digits h = ground (arith, h false digits)
stored-IsInt wide true digits h = ground (arith, h true digits)

number-IsInt :
    (wide : Bool → Bytes → ℤ) {text : Bytes} {z : ℤ}
    → StoresInts wide
    → IsNumber wide text z
    → IsInt z
number-IsInt wide h n = subst IsInt (sym n.exact) (stored-IsInt wide n.negative n.digits h)

-- `build_json` returns 0, with the whole text in the buffer, exactly when the text and its NUL have
-- room; otherwise it returns -1 and leaves the buffer empty.
pub build_json_iff :
    (sensor : SensorData) (buf_size : ℕ)
    → ((build_json sensor buf_size ≡ (json_text sensor, true))
        ↔ (length (json_text sensor) < buf_size))
      × ((build_json sensor buf_size ≡ ([], false)) ↔ (buf_size ≤ length (json_text sensor)))
unfolding build_json
build_json_iff sensor buf_size = ground arith

-- The buffer of 128 bytes in `main` holds the text of whatever has been parsed, so that
-- `build_json` does not fail there.
pub parsed-build_json :
    (wide : Bool → Bytes → ℤ) (raw : Bytes) {sensor : SensorData}
    → StoresInts wide
    → parse_sensor_data wide raw ≡ some sensor
    → build_json sensor 128 ≡ (json_text sensor, true)
parsed-build_json wide raw {sensor} h e =
    let v = parse_sensor_data_sound wide raw e in
    let temp : IsInt sensor.temp = number-IsInt wide h v.temp_number in
    let humi : IsInt sensor.humi = number-IsInt wide h v.humi_number in
    (build_json_iff sensor 128).0.1 (
      omega (
        arith,
        length-json_text sensor,
        v.id_word.short,
        length-int_text sensor.temp temp,
        length-int_text sensor.humi humi,
      ))

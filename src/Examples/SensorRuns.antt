-- ===== src/Examples/SensorRuns.antt =====
-- Two readings on the serial line, with an interruption and a line that is no reading.
use linux_iot_gateway.Common.{
  true, not, ◌==◌, false, List, [], ◌∷◌, ◌++◌, ◌≡◌, ◌↔◌, ◌<◌, ◌≤◌, some, refl, arith, Bool, Bytes,
  codes, length, take, get_or, inl, inr,
}
use linux_iot_gateway.Common.Decimal.{to_string}
use linux_iot_gateway.Common.Int.{ℤ, pos, negsuc}
use linux_iot_gateway.SensorGateway.Parser.{SensorData, parse_sensor_data, json_text, build_json}
use linux_iot_gateway.SensorGateway.Parser.RoundTrip.{
  IsReading, sensor_text, parse_sensor_data-sensor_text,
}
use linux_iot_gateway.SensorGateway.Parser.Sound.{IsParsed, parse_sensor_data_sound}
use linux_iot_gateway.SensorGateway.Parser.Json.{StoresInts, build_json_iff}
use linux_iot_gateway.SensorGateway.Source.{
  SerialPort, SerialReplies, ReadReply, received, interrupted, line, mock_data_list, mock_read,
  data_source_read, data_source_init,
}
use linux_iot_gateway.SensorGateway.Source.Reads.{
  Carries, done, byte, pause, Chunk, IsChunk, joined, reads, reads-lines_of,
}
use linux_iot_gateway.SensorGateway.Source.Mock.{mock_index, mock_read_cycles}
use linux_iot_gateway.SensorGateway.Mqtt.{
  MqttReplies, new_mqtt, mqtt_client_init, mqtt_publish_json,
}
use linux_iot_gateway.SensorGateway.Main.{
  System, Gateway, start, main_loop, main, app_log_write, write_log,
}
use linux_iot_gateway.SensorGateway.Main.Adds.{Adds}
use linux_iot_gateway.SensorGateway.Main.Reports.{Reports, main_loop-Reports}
use linux_iot_gateway.SensorGateway.Main.Delivery.{Sent, IsSent, chunks, jsons, main_loop-delivers}
use linux_iot_gateway.SensorGateway.Main.Release.{IsReleased, opened_fds, main-IsReleased}

-- A library that stores 0 for what no `int` holds.
abbrev stores_zero : Bool → Bytes → ℤ
stores_zero negative digits = pos 0

stores_zero-StoresInts : StoresInts stores_zero
stores_zero-StoresInts = λ negative digits. omega arith

abbrev reading : SensorData
reading = record { temp = negsuc 4; humi = pos 60; device_id = codes "stm32_01" }

reading-IsReading : IsReading reading
reading-IsReading = record {
  temp_fits = omega arith;
  humi_fits = omega arith;
  id_bytes = ground arith;
  id_some = refl;
  id_short = omega arith;
}

reading_text : sensor_text reading ≡ codes "temp=-5,humi=60,device_id=stm32_01"
unfolding to_string
reading_text = refl

parse_sensor_data-sensor_text_example :
    parse_sensor_data stores_zero (sensor_text reading ++ codes " x") ≡ some reading
parse_sensor_data-sensor_text_example =
    parse_sensor_data-sensor_text stores_zero reading (codes " x") reading-IsReading
      (inr (inl refl))

abbrev spaced : Bytes
spaced = codes "temp= +7,humi=060,device_id= a b"

spaced_parsed :
    parse_sensor_data stores_zero spaced
    ≡ some (record { temp = pos 7; humi = pos 60; device_id = codes "a" })
unfolding parse_sensor_data
spaced_parsed = refl

parse_sensor_data_sound_example :
    IsParsed stores_zero spaced (record { temp = pos 7; humi = pos 60; device_id = codes "a" })
parse_sensor_data_sound_example = parse_sensor_data_sound stores_zero spaced spaced_parsed

abbrev port : SerialPort
port = record { serial_fd = some 3; closed = [] }

abbrev wire : Sent
wire = record { sensor = reading; ends = codes "\r\n" }

wire-IsSent : IsSent wire
wire-IsSent = record {
  reading = reading-IsReading;
  some_end = refl;
  line_ends = (refl, (refl, tt));
}

abbrev bytes_of : Bytes → List ReadReply
bytes_of [] = []
bytes_of (ch ∷ text) = received ch ∷ bytes_of text

carried : (text : Bytes) → Carries [] (bytes_of text) text
carried [] = done
carried (ch ∷ text) = byte (carried text)

-- A line end is left over, and the first read is interrupted.
abbrev wires : List Sent
wires = wire ∷ wire ∷ []

abbrev on_wire : Bytes
on_wire = codes "\n" ++ joined (chunks wires)

abbrev wire_replies : List ReadReply
wire_replies = interrupted ∷ bytes_of on_wire

-- Files open, and payloads are accepted.
abbrev calm : System
calm = record {
  opens = λ n. true;
  time_text = λ n. codes "2026-01-01 00:00:00";
  accepts = λ n. true;
  out_of_range = stores_zero;
}

abbrev running : Gateway
running = record (start wire_replies) { port = port; mqtt = record new_mqtt { mosq = true } }

main_loop-delivers_example :
    (main_loop calm 2 running).mqtt ≡ record running.mqtt { payloads = jsons wires }
main_loop-delivers_example =
    main_loop-delivers calm (λ n. refl) (λ n. refl) running 3 (codes "\n") wires
      stores_zero-StoresInts refl refl (refl, tt) (wire-IsSent, (wire-IsSent, tt))
      (pause (carried on_wire))

-- The log of readings cannot be opened in the second round.
abbrev uncalm : System
uncalm = record calm { opens = λ n. not (n == 5) }

main_loop-Reports_example :
    let g' = main_loop uncalm 3 running in
    (lines : List Bytes) × (payloads : List Bytes) × Reports uncalm 0 0 g'.openings g'.publishes
      (reads port 128 3 wire_replies)
      lines
      payloads
    × Adds running g' lines payloads
main_loop-Reports_example = main_loop-Reports uncalm 3 running stores_zero-StoresInts refl

short-IsChunk : IsChunk 4 (record { text = codes "abcd"; ends = codes "\r\n" })
short-IsChunk = record {
  some_byte = refl;
  short = omega arith;
  line_bytes = ground arith;
  some_end = refl;
  line_ends = (refl, (refl, tt));
}

abbrev short_chunks : List Chunk
short_chunks =
    record { text = codes "abcd"; ends = codes "\r\n" }
    ∷ record { text = codes "abcd"; ends = codes "\r\n" }
    ∷ []

-- Each line fills the buffer of five bytes.
reads-lines_of_example :
    reads port 5 2 (bytes_of (codes "abcd\r\nabcd\r\n"))
    ≡ line (codes "abcd") ∷ line (codes "abcd") ∷ []
reads-lines_of_example =
    reads-lines_of port 5 3 (bytes_of (joined short_chunks)) [] short_chunks refl tt
      (short-IsChunk, (short-IsChunk, tt)) (carried (joined short_chunks))

json_fits :
    ((build_json reading 51 ≡ (json_text reading, true)) ↔ (length (json_text reading) < 51))
    × ((build_json reading 51 ≡ ([], false)) ↔ (51 ≤ length (json_text reading)))
json_fits = build_json_iff reading 51

mock_cycles : (mock_read 128 (mock_index 128 7)).0 ≡ some (take 127 (get_or mock_data_list 2 []))
mock_cycles = mock_read_cycles 128 7 (omega arith)

abbrev serial_replies : SerialReplies
serial_replies = record {
  open_fd = some 3;
  getattr_ok = true;
  speed_ok = true;
  flush_ok = true;
  setattr_ok = true;
}

abbrev mqtt_replies : MqttReplies
mqtt_replies = record { new_ok = true; connect_ok = true }

returned : (main calm serial_replies mqtt_replies wire_replies 2 false).1 ≡ some 0
unfolding main data_source_init mqtt_client_init data_source_read app_log_write to_string
    parse_sensor_data build_json json_text write_log mqtt_publish_json
returned = refl

main-IsReleased_example :
    IsReleased (opened_fds (some 3)) (main calm serial_replies mqtt_replies wire_replies 2 false).0
main-IsReleased_example =
    main-IsReleased calm stores_zero-StoresInts serial_replies mqtt_replies wire_replies 2 false 0
      returned

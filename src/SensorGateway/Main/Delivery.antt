-- ===== src/SensorGateway/Main/Delivery.antt =====
-- From the bytes on the serial line to the payloads.
use linux_iot_gateway.Common.{
  ℕ, suc, ◌≤◌, Bool, true, false, List, [], ◌∷◌, ◌++◌, none, some, Bytes, codes, ◌≡◌, ◌≢◌, refl,
  sym, ap, ◌∙◌, subst, arith, All, is_empty, length, length-append, append-nil, inr,
}
use linux_iot_gateway.Common.Int.{ℤ, int_text, length-int_text}
use linux_iot_gateway.SensorGateway.Parser.{SensorData, parse_sensor_data, json_text}
use linux_iot_gateway.SensorGateway.Parser.RoundTrip.{
  IsReading, sensor_text, sensor_text-All, parse_sensor_data-sensor_text,
}
use linux_iot_gateway.SensorGateway.Parser.Json.{StoresInts}
use linux_iot_gateway.SensorGateway.Source.{ReadReply, ReadResult, line}
use linux_iot_gateway.SensorGateway.Source.Lines.{IsLineByte}
use linux_iot_gateway.SensorGateway.Source.Reads.{
  Carries, Chunk, IsChunk, LineEnds, joined, lines_of, reads, reads-lines_of,
}
use linux_iot_gateway.SensorGateway.Main.{System, Gateway, main_loop}
use linux_iot_gateway.SensorGateway.Main.Stages.{
  Report, NoLine, unread, unparsed, unlogged, unpublished, published,
}
use linux_iot_gateway.SensorGateway.Main.Reports.{Reports, nothing, more, main_loop-Reports}

-- A reading that a sensor sends, and the line ends that it sends behind it.
pub record Sent : Type 0 where
  pub sensor : SensorData
  pub ends : Bytes

pub record IsSent (s : Sent) : Type 0 where
  pub reading : IsReading s.sensor
  pub some_end : is_empty s.ends ≡ false
  pub line_ends : LineEnds s.ends

abbrev pub chunks : List Sent → List Chunk
chunks [] = []
chunks (s ∷ ss) = record { text = sensor_text s.sensor; ends = s.ends } ∷ chunks ss

abbrev pub jsons : List Sent → List Bytes
jsons [] = []
jsons (s ∷ ss) = json_text s.sensor ∷ jsons ss

length-sensor_text : (sensor : SensorData) → IsReading sensor → length (sensor_text sensor) ≤ 127
length-sensor_text sensor v = omega (
  arith,
  length-int_text sensor.temp v.temp_fits,
  length-int_text sensor.humi v.humi_fits,
  v.id_short,
  length-append (int_text sensor.temp)
      (codes ",humi=" ++ (int_text sensor.humi ++ (codes ",device_id=" ++ sensor.device_id))),
  length-append (int_text sensor.humi) (codes ",device_id=" ++ sensor.device_id),
)

sent-IsChunk :
    (s : Sent) → IsSent s → IsChunk 127 (record { text = sensor_text s.sensor; ends = s.ends })
sent-IsChunk s v = record {
  some_byte = refl;
  short = length-sensor_text s.sensor v.reading;
  line_bytes =
      sensor_text-All IsLineByte (λ c h. ground arith) refl (λ c h. ground arith) s.sensor v.reading
        (ground arith) (ground arith) (ground arith);
  some_end = v.some_end;
  line_ends = v.line_ends;
}

chunks-IsChunk : (ss : List Sent) → All IsSent ss → All (IsChunk 127) (chunks ss)
chunks-IsChunk [] h = tt
chunks-IsChunk (s ∷ ss) (v, vs) = (sent-IsChunk s v, chunks-IsChunk ss vs)

length-chunks : (ss : List Sent) → length (chunks ss) ≡ length ss
length-chunks [] = refl
length-chunks (s ∷ ss) = ap suc (length-chunks ss)

none-ne-some {ℓ} : {A : Type ℓ} {a : A} → none ≢ some a
none-ne-some e = cc

line_injective : {a b : Bytes} → line a ≡ line b → a ≡ b
line_injective e = cc

some_injective : {a b : SensorData} → some a ≡ some b → a ≡ b
some_injective e = cc

parsed :
    (wide : Bool → Bytes → ℤ) (raw : Bytes) (sensor : SensorData)
    → IsReading sensor
    → raw ≡ sensor_text sensor
    → parse_sensor_data wide raw ≡ some sensor
parsed wide raw sensor v e =
    ap (parse_sensor_data wide) (e ∙ sym (append-nil (sensor_text sensor)))
    ∙ parse_sensor_data-sensor_text wide sensor [] v (inr tt)

module _ (sys : System) (opens : (n : ℕ) → sys.opens n ≡ true)
    (accepts : (n : ℕ) → sys.accepts n ≡ true) where
  reading_published :
      {o m o' m' : ℕ} {result : ReadResult} {lines payloads : List Bytes} (sensor : SensorData)
      → IsReading sensor
      → Report sys true o m o' m' result lines payloads
      → result ≡ line (sensor_text sensor)
      → payloads ≡ json_text sensor ∷ []
  reading_published sensor v (unread no_line eo em) e = absurd (subst (NoLine sys) e no_line)
  reading_published sensor v (unparsed {raw} p eo em) e =
      absurd (none-ne-some (sym p ∙ parsed sys.out_of_range raw sensor v (line_injective e)))
  reading_published {o} sensor v (unlogged p closed eo em) e = cc (opens (suc o))
  reading_published {m} sensor v (unpublished p opened refused eo em) e = cc (accepts m)
  reading_published sensor v (published {raw} {sensor = sensor'} p opened taken eo em) e =
      let same : sensor' ≡ sensor =
        some_injective (sym p ∙ parsed sys.out_of_range raw sensor v (line_injective e)) in
      ap (λ s. json_text s ∷ []) same

  readings_published :
      {o m o' m' : ℕ} {results : List ReadResult} {lines payloads : List Bytes} (ss : List Sent)
      → All IsSent ss
      → Reports sys o m o' m' results lines payloads
      → results ≡ lines_of (chunks ss)
      → payloads ≡ jsons ss
  readings_published [] h nothing e = refl
  readings_published [] h (more all_lines all_payloads r rs l p) e = cc
  readings_published (s ∷ ss) h nothing e = cc
  readings_published (s ∷ ss) (v, vs)
        (more {result} {results} {lines} {lines'} {payloads} {payloads'} all_lines all_payloads r rs
          l p)
        e =
      let head : result ≡ line (sensor_text s.sensor) = cc in
      let tail : results ≡ lines_of (chunks ss) = cc in
      p
      ∙ ap (λ t. t ++ payloads') (reading_published s.sensor v.reading r head)
      ∙ ap (λ t. json_text s.sensor ∷ t) (readings_published ss vs rs tail)

  -- As long as the log file opens and the broker accepts, the readings that arrive at the open port
  -- as text, each with line ends behind it, are published as their JSON, each once and in their
  -- order, after as many rounds of the main loop, however `read` is interrupted.
  pub main_loop-delivers :
      (g : Gateway) (fd : ℕ) (before : Bytes) (ss : List Sent) {rest : List ReadReply}
      → StoresInts sys.out_of_range
      → g.mqtt.mosq ≡ true
      → g.port.serial_fd ≡ some fd
      → LineEnds before
      → All IsSent ss
      → Carries rest g.replies (before ++ joined (chunks ss))
      → (main_loop sys (length ss) g).mqtt
        ≡ record g.mqtt { payloads = g.mqtt.payloads ++ jsons ss }
  main_loop-delivers g fd before ss ints set open_fd ends sent carried =
      let (lines, payloads, rs, (p, m, s)) = main_loop-Reports sys (length ss) g ints set in
      let read_all =
        ap (λ n. reads g.port 128 n g.replies) (sym (length-chunks ss))
        ∙ reads-lines_of g.port 128 fd g.replies before (chunks ss) open_fd ends
            (chunks-IsChunk ss sent) carried in
      m
      ∙ ap (λ all. record g.mqtt { payloads = g.mqtt.payloads ++ all })
          (readings_published ss sent rs read_all)

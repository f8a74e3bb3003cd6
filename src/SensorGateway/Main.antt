-- ===== src/SensorGateway/Main.antt =====
-- main.c, with write_log of log_writer.c and the functions of app_log.c that it calls.
pub mod Adds
pub mod Stages
pub mod Reports
pub mod Delivery
pub mod Release
use linux_iot_gateway.Common.{
  ℕ, zero, suc, Bool, true, false, not, List, [], ◌∷◌, ◌++◌, Option, none, some, Bytes, codes,
  if◌then◌else◌,
}
use linux_iot_gateway.Common.Int.{ℤ}
use linux_iot_gateway.SensorGateway.Parser.{SensorData, parse_sensor_data, build_json}
use linux_iot_gateway.SensorGateway.Source.{
  SerialReplies, SerialPort, ReadReply, ReadResult, line, no_data, read_failed, waiting,
  data_source_init, data_source_read, data_source_cleanup,
}
use linux_iot_gateway.SensorGateway.Mqtt.{
  MqttReplies, Mqtt, new_mqtt, mqtt_client_init, mqtt_publish_json, mqtt_client_cleanup,
}

-- What the system answers: whether the n-th `fopen` succeeds, the time that `strftime` writes then,
-- whether the n-th `mosquitto_publish` is accepted, and what `sscanf` stores for a number that no
-- `int` holds.
pub record System : Type 0 where
  pub opens : ℕ → Bool
  pub time_text : ℕ → Bytes
  pub accepts : ℕ → Bool
  pub out_of_range : Bool → Bytes → ℤ

-- The port, the client, the replies of `read` to come, the two log files by their lines, how often
-- a file was opened and a payload handed over, and whether a `read` has not returned.
pub record Gateway : Type 0 where
  pub port : SerialPort
  pub mqtt : Mqtt
  pub replies : List ReadReply
  pub sensor_log : List Bytes
  pub app_log : List Bytes
  pub openings : ℕ
  pub publishes : ℕ
  pub blocked : Bool

-- The line of `fprintf` in `write_log`.
abbrev pub sensor_line : Bytes → Bytes → Bytes
sensor_line time_buf json_data = b'[' ∷ (time_buf ++ (b']' ∷ (json_data ++ b'\n' ∷ [])))

abbrev pub app_line : Bytes → Bytes → Bytes → Bytes
app_line time_buf level msg =
    b'[' ∷ (time_buf ++ (b']' ∷ b'[' ∷ (level ++ (b']' ∷ (msg ++ b'\n' ∷ [])))))

-- The variables as the process starts.
abbrev pub start : List ReadReply → Gateway
start replies = record {
  port = record { serial_fd = none; closed = [] };
  mqtt = new_mqtt;
  replies = replies;
  sensor_log = [];
  app_log = [];
  openings = 0;
  publishes = 0;
  blocked = false;
}

module _ (sys : System) where
  unfoldable pub app_log_write : Bytes → Bytes → Gateway → Gateway
  app_log_write level msg g = record g {
    openings = suc g.openings;
    app_log =
        if sys.opens g.openings
        then g.app_log ++ app_line (sys.time_text g.openings) level msg ∷ []
        else g.app_log;
  }

  abbrev pub app_log_info : Bytes → Gateway → Gateway
  app_log_info msg g = app_log_write (codes "INFO") msg g

  abbrev pub app_log_warn : Bytes → Gateway → Gateway
  app_log_warn msg g = app_log_write (codes "WARN") msg g

  abbrev pub app_log_error : Bytes → Gateway → Gateway
  app_log_error msg g = app_log_write (codes "ERROR") msg g

  -- Whether 0 is returned stands beside the state.
  unfoldable pub write_log : Bytes → Gateway → Gateway × Bool
  write_log json_data g =
      let g' = record g { openings = suc g.openings } in
      if sys.opens g.openings
      then (
        record g' {
          sensor_log = g.sensor_log ++ sensor_line (sys.time_text g.openings) json_data ∷ [];
        },
        true,
      )
      else (g', false)

  -- The rest of the loop's body, from the last call to the first.
  unfoldable pub publish_stage : Bytes → Gateway → Gateway
  publish_stage json_buf g =
      let (mqtt, ok) = mqtt_publish_json (sys.accepts g.publishes) json_buf g.mqtt in
      let g' = record g { mqtt = mqtt; publishes = suc g.publishes } in
      if ok
      then app_log_info (codes "mqtt publish success") g'
      else app_log_error (codes "mqtt publish failed") g'

  unfoldable pub log_stage : Bytes → Gateway → Gateway
  unfolding publish_stage
  log_stage json_buf g =
      let (g', ok) = write_log json_buf g in
      if ok
      then publish_stage json_buf (app_log_info (codes "write sensor log success") g')
      else app_log_error (codes "write sensor log failed") g'

  unfoldable pub json_stage : Bytes × Bool → Gateway → Gateway
  unfolding log_stage
  json_stage (json_buf, true) g = log_stage json_buf g
  json_stage (json_buf, false) g = app_log_error (codes "build json failed") g

  unfoldable pub parse_stage : Option SensorData → Gateway → Gateway
  unfolding json_stage
  parse_stage none g = app_log_warn (codes "parse sensor data failed") g
  parse_stage (some sensor) g =
      json_stage (build_json sensor 128) (app_log_info (codes "parse sensor data success") g)

  abbrev read_error : Bool → Gateway → Gateway
  read_error running g = if running then app_log_warn (codes "read data source failed") g else g

  -- `running` is `g_running` behind a read that has failed.
  unfoldable pub read_stage : Bool → ReadResult → Gateway → Gateway
  unfolding parse_stage
  read_stage running (line raw_buf) g = parse_stage (parse_sensor_data sys.out_of_range raw_buf) g
  read_stage running no_data g = read_error running g
  read_stage running read_failed g = read_error running g
  read_stage running waiting g = record g { blocked = true }

  unfoldable pub iteration : Bool → Gateway → Gateway
  unfolding read_stage
  iteration running g =
      let (result, replies) = data_source_read g.port 128 g.replies in
      read_stage running result (record g { replies = replies })

  -- `while (g_running)`, when the flag is found set so many times.
  unfoldable pub main_loop : ℕ → Gateway → Gateway
  unfolding iteration
  main_loop zero g = g
  main_loop (suc n) g = main_loop n (iteration true g)

  -- Behind the loop.
  unfoldable pub clean_up : Gateway → Gateway
  clean_up g =
      let g' = app_log_info (codes "gateway stopping") g in
      app_log_info (codes "gateway stopped")
        (record g' { mqtt = mqtt_client_cleanup g'.mqtt; port = data_source_cleanup g'.port })

  -- A process that waits in `read` does not come to its end.
  unfoldable pub stop : Gateway → Gateway × Option ℕ
  unfolding clean_up
  stop g = if g.blocked then (g, none) else (clean_up g, some 0)

  -- The loop ends at its test, or behind a read that fails after the flag has been cleared.
  unfoldable pub run_loop : ℕ → Bool → Gateway → Gateway × Option ℕ
  unfolding main_loop iteration stop
  run_loop rounds in_read g =
      let g' = main_loop rounds g in stop (if in_read then iteration false g' else g')

  -- Behind `mqtt_client_init`.
  unfoldable pub connected : Mqtt × Bool → ℕ → Bool → Gateway → Gateway × Option ℕ
  unfolding run_loop
  connected (mqtt, true) rounds in_read g =
      run_loop rounds in_read
        (app_log_info (codes "mqtt client init success") (record g { mqtt = mqtt }))
  connected (mqtt, false) rounds in_read g =
      let g' = app_log_error (codes "mqtt client init failed") (record g { mqtt = mqtt }) in
      (record g' { port = data_source_cleanup g'.port }, some 1)

  -- Behind `data_source_init`.
  unfoldable pub sourced : SerialPort × Bool → MqttReplies → ℕ → Bool → Gateway → Gateway × Option ℕ
  unfolding connected
  sourced (port, true) mqtt_replies rounds in_read g =
      let g' = app_log_info (codes "data source init success") (record g { port = port }) in
      connected (mqtt_client_init mqtt_replies g'.mqtt) rounds in_read g'
  sourced (port, false) mqtt_replies rounds in_read g =
      (app_log_error (codes "data source init failed") (record g { port = port }), some 1)

  -- The state at the end and the exit status, `none` while the process waits in `read`.
  unfoldable pub main : SerialReplies → MqttReplies → List ReadReply → ℕ → Bool → Gateway × Option ℕ
  unfolding sourced
  main serial_replies mqtt_replies replies rounds in_read =
      let g = app_log_info (codes "gateway start") (start replies) in
      sourced (data_source_init serial_replies g.port) mqtt_replies rounds in_read g

-- ===== src/SensorGateway/Main/Stages.antt =====
-- What one round of the loop adds to the log of readings and to the payloads.
use linux_iot_gateway.Common.{
  ℕ, suc, Bool, true, false, List, [], ◌∷◌, ◌++◌, Option, none, some, Bytes, codes, ◌≡◌, ◌⊎◌, refl,
  sym, ap, ◌∙◌, subst, if◌then◌else◌, Bool-cases, inl, inr, append-nil,
}
use linux_iot_gateway.SensorGateway.Parser.{SensorData, parse_sensor_data, json_text}
use linux_iot_gateway.SensorGateway.Parser.Json.{StoresInts, parsed-build_json}
use linux_iot_gateway.SensorGateway.Source.{ReadResult, line, no_data, read_failed, waiting}
use linux_iot_gateway.SensorGateway.Mqtt.{Mqtt, mqtt_publish_json}
use linux_iot_gateway.SensorGateway.Main.{
  System, Gateway, sensor_line, app_log_write, app_log_info, app_log_error, write_log,
  publish_stage, log_stage, json_stage, parse_stage, read_stage,
}
use linux_iot_gateway.SensorGateway.Main.Adds.{
  AddsOnly, AddsOnly-trans, Adds-nothing, publish_accepted, publish_refused,
}

module _ (sys : System) where
  abbrev pub NoLine : ReadResult → Type 0
  NoLine (line raw_buf) = ⊥
  NoLine _ = Unit {0}

  -- The number of the next `fopen` behind a read that gives no line: a warning is written while
  -- `running` is set.
  abbrev pub behind_read : Bool → ReadResult → ℕ → ℕ
  behind_read running waiting o = o
  behind_read running _ o = if running then suc o else o

  -- What becomes of one result of `data_source_read`: the lines that are logged, and the payloads.
  -- The next `fopen` is number `o` before and `o'` behind, the next publish `m` and `m'`. A line that
  -- is parsed has the log of readings opened second.
  pub data Report (running : Bool) (o m o' m' : ℕ)
      : ReadResult → List Bytes → List Bytes → Type 0 where
    unread :
        {result : ReadResult}
        → NoLine result
        → o' ≡ behind_read running result o
        → m' ≡ m
        → Report running o m o' m' result [] []
    unparsed :
        {raw : Bytes}
        → parse_sensor_data sys.out_of_range raw ≡ none
        → o' ≡ suc o
        → m' ≡ m
        → Report running o m o' m' (line raw) [] []
    unlogged :
        {raw : Bytes} {sensor : SensorData}
        → parse_sensor_data sys.out_of_range raw ≡ some sensor
        → sys.opens (suc o) ≡ false
        → o' ≡ suc (suc (suc o))
        → m' ≡ m
        → Report running o m o' m' (line raw) [] []
    unpublished :
        {raw : Bytes} {sensor : SensorData}
        → parse_sensor_data sys.out_of_range raw ≡ some sensor
        → sys.opens (suc o) ≡ true
        → sys.accepts m ≡ false
        → o' ≡ suc (suc (suc (suc o)))
        → m' ≡ suc m
        → Report running o m o' m'
            (line raw)
            (sensor_line (sys.time_text (suc o)) (json_text sensor) ∷ [])
            []
    published :
        {raw : Bytes} {sensor : SensorData}
        → parse_sensor_data sys.out_of_range raw ≡ some sensor
        → sys.opens (suc o) ≡ true
        → sys.accepts m ≡ true
        → o' ≡ suc (suc (suc (suc o)))
        → m' ≡ suc m
        → Report running o m o' m'
            (line raw)
            (sensor_line (sys.time_text (suc o)) (json_text sensor) ∷ [])
            (json_text sensor ∷ [])

  -- The report of a result, with the numbers of the first state, and what is added to another.
  abbrev Adding : Bool → ReadResult → Gateway → Gateway → Gateway → Type 0
  Adding running result g0 g g' =
      (lines : List Bytes) × (payloads : List Bytes) × Report running g0.openings g0.publishes
        g'.openings g'.publishes result lines payloads
      × AddsOnly g g' lines payloads

  abbrev pub Reported : Bool → ReadResult → Gateway → Gateway → Type 0
  Reported running result g g' = Adding running result g g g'

  app_log-AddsOnly :
      (level msg : Bytes) (g : Gateway) → AddsOnly g (app_log_write sys level msg g) [] []
  unfolding app_log_write
  app_log-AddsOnly level msg g =
      (Adds-nothing g (app_log_write sys level msg g) refl refl refl, refl)

  -- The numbers behind a publish.
  abbrev Counts : Gateway → Gateway → Type 0
  Counts g g' = (g'.openings ≡ suc g.openings) × (g'.publishes ≡ suc g.publishes)

  publish-Counts : (json_buf : Bytes) (g : Gateway) → Counts g (publish_stage sys json_buf g)
  unfolding publish_stage app_log_write
  publish-Counts json_buf g =
      by_result (mqtt_publish_json (sys.accepts g.publishes) json_buf g.mqtt)
    where
      by_result :
          (result : Mqtt × Bool)
          → let g' = record g { mqtt = result.0; publishes = suc g.publishes } in
            Counts g (
              if result.1
              then app_log_info sys (codes "mqtt publish success") g'
              else app_log_error sys (codes "mqtt publish failed") g')
      by_result (mqtt, true) = (refl, refl)
      by_result (mqtt, false) = (refl, refl)

  publish-AddsOnly :
      (json_buf : Bytes) (g : Gateway)
      → g.mqtt.mosq ≡ true
      → (AddsOnly g (publish_stage sys json_buf g) [] (json_buf ∷ [])
          × (sys.accepts g.publishes ≡ true))
        ⊎ (AddsOnly g (publish_stage sys json_buf g) [] [] × (sys.accepts g.publishes ≡ false))
  unfolding publish_stage app_log_write
  publish-AddsOnly json_buf g set = elim (Bool-cases (sys.accepts g.publishes)) [
    | inl ok ↦
        let e =
          ap (λ b. mqtt_publish_json b json_buf g.mqtt) ok ∙ publish_accepted json_buf g.mqtt set in
        inl (rw e ((refl, refl, sym (append-nil g.sensor_log)), refl), ok)
    | inr refused ↦
        let e =
          ap (λ b. mqtt_publish_json b json_buf g.mqtt) refused ∙ publish_refused json_buf g.mqtt in
        inr (
          rw e (
            (
              refl,
              sym (ap (λ all. record g.mqtt { payloads = all }) (append-nil g.mqtt.payloads)),
              sym (append-nil g.sensor_log),
            ),
            refl,
          ),
          refused,
        )
  ]

  log-Reported :
      (running : Bool) (raw : Bytes) (sensor : SensorData) (g0 : Gateway)
      → g0.mqtt.mosq ≡ true
      → parse_sensor_data sys.out_of_range raw ≡ some sensor
      → let g = app_log_info sys (codes "parse sensor data success") g0 in
        Adding running (line raw) g0 g (log_stage sys (json_text sensor) g)
  unfolding log_stage write_log app_log_write
  log-Reported running raw sensor g0 set parsed = elim (Bool-cases (sys.opens g.openings)) [
    | inl ok ↦
        subst (Adding running (line raw) g0 g) (sym (logged ok))
          (after_log ok (publish-AddsOnly (json_text sensor) noted set))
    | inr closed ↦ subst (Adding running (line raw) g0 g) (sym (not_logged closed)) (
      [],
      [],
      unlogged parsed closed refl refl,
      app_log-AddsOnly (codes "ERROR") (codes "write sensor log failed") opened,
    )
  ]
    where
      g : Gateway
      g = app_log_info sys (codes "parse sensor data success") g0

      sensor_entry : Bytes
      sensor_entry = sensor_line (sys.time_text g.openings) (json_text sensor)

      opened : Gateway
      opened = record g { openings = suc g.openings }

      written : Gateway
      written = record opened { sensor_log = g.sensor_log ++ sensor_entry ∷ [] }

      noted : Gateway
      noted = app_log_info sys (codes "write sensor log success") written

      logged :
          sys.opens g.openings ≡ true
          → log_stage sys (json_text sensor) g ≡ publish_stage sys (json_text sensor) noted
      logged ok = rw ok refl

      not_logged :
          sys.opens g.openings ≡ false
          → log_stage sys (json_text sensor) g
            ≡ app_log_write sys (codes "ERROR") (codes "write sensor log failed") opened
      not_logged closed = rw closed refl

      write_adds : AddsOnly g noted (sensor_entry ∷ []) []
      write_adds =
          AddsOnly-trans g written noted (sensor_entry ∷ []) [] [] []
            (
              (
                refl,
                sym (ap (λ all. record g.mqtt { payloads = all }) (append-nil g.mqtt.payloads)),
                refl,
              ),
              refl,
            )
            (app_log-AddsOnly (codes "INFO") (codes "write sensor log success") written)

      after_log :
          sys.opens g.openings ≡ true
          → ((AddsOnly noted (publish_stage sys (json_text sensor) noted) [] (json_text sensor ∷ [])
                × (sys.accepts noted.publishes ≡ true))
              ⊎ (AddsOnly noted (publish_stage sys (json_text sensor) noted) [] []
                  × (sys.accepts noted.publishes ≡ false)))
          → Adding running (line raw) g0 g (publish_stage sys (json_text sensor) noted)
      after_log ok (inl (adds, taken)) = (
        sensor_entry ∷ [],
        json_text sensor ∷ [],
        published parsed ok taken (publish-Counts (json_text sensor) noted).0
            (publish-Counts (json_text sensor) noted).1,
        AddsOnly-trans g noted (publish_stage sys (json_text sensor) noted) (sensor_entry ∷ []) []
            [] (json_text sensor ∷ []) write_adds adds,
      )
      after_log ok (inr (kept, refused)) = (
        sensor_entry ∷ [],
        [],
        unpublished parsed ok refused (publish-Counts (json_text sensor) noted).0
            (publish-Counts (json_text sensor) noted).1,
        AddsOnly-trans g noted (publish_stage sys (json_text sensor) noted) (sensor_entry ∷ []) []
            [] [] write_adds kept,
      )

  -- With the JSON of 128 bytes at most, as `parsed-build_json` has it.
  parse-Reported :
      (running : Bool) (raw : Bytes) (found : Option SensorData) (g : Gateway)
      → StoresInts sys.out_of_range
      → g.mqtt.mosq ≡ true
      → parse_sensor_data sys.out_of_range raw ≡ found
      → Reported running (line raw) g (parse_stage sys found g)
  unfolding parse_stage json_stage app_log_write
  parse-Reported running raw none g ints set parsed = (
    [],
    [],
    unparsed parsed refl refl,
    app_log-AddsOnly (codes "WARN") (codes "parse sensor data failed") g,
  )
  parse-Reported running raw (some sensor) g ints set parsed =
      let noted = app_log_info sys (codes "parse sensor data success") g in
      let fits = parsed-build_json sys.out_of_range raw ints parsed in
      let (lines, payloads, r, adds) = log-Reported running raw sensor g set parsed in
      rw fits (
        lines,
        payloads,
        r,
        AddsOnly-trans g noted (log_stage sys (json_text sensor) noted) [] lines [] payloads
            (app_log-AddsOnly (codes "INFO") (codes "parse sensor data success") g) adds,
      )

  pub read-Reported :
      (running : Bool) (result : ReadResult) (g : Gateway)
      → StoresInts sys.out_of_range
      → g.mqtt.mosq ≡ true
      → Reported running result g (read_stage sys running result g)
  unfolding read_stage app_log_write
  read-Reported running (line raw) g ints set = parse-Reported running raw _ g ints set refl
  read-Reported true no_data g ints set = (
    [],
    [],
    unread tt refl refl,
    app_log-AddsOnly (codes "WARN") (codes "read data source failed") g,
  )
  read-Reported false no_data g ints set =
      ([], [], unread tt refl refl, (Adds-nothing g g refl refl refl, refl))
  read-Reported true read_failed g ints set = (
    [],
    [],
    unread tt refl refl,
    app_log-AddsOnly (codes "WARN") (codes "read data source failed") g,
  )
  read-Reported false read_failed g ints set =
      ([], [], unread tt refl refl, (Adds-nothing g g refl refl refl, refl))
  read-Reported running waiting g ints set = (
    [],
    [],
    unread tt refl refl,
    (Adds-nothing g (record g { blocked = true }) refl refl refl, refl),
  )

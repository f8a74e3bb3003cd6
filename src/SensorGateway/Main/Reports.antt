-- ===== src/SensorGateway/Main/Reports.antt =====
-- What the rounds of the loop add, one after the other.
use linux_iot_gateway.Common.{ℕ, zero, suc, true, List, [], ◌∷◌, ◌++◌, Bytes, ◌≡◌, refl, ap₂, subst}
use linux_iot_gateway.SensorGateway.Parser.Json.{StoresInts}
use linux_iot_gateway.SensorGateway.Source.{ReadResult, data_source_read}
use linux_iot_gateway.SensorGateway.Source.Reads.{reads}
use linux_iot_gateway.SensorGateway.Main.{System, Gateway, read_stage, iteration, main_loop}
use linux_iot_gateway.SensorGateway.Main.Adds.{Adds, Adds-trans, Adds-nothing, mosq_kept}
use linux_iot_gateway.SensorGateway.Main.Stages.{Report, read-Reported}

module _ (sys : System) where
  -- The results one after the other, each with the numbers that the one before has left, and with
  -- all the lines and all the payloads.
  pub data Reports : ℕ → ℕ → ℕ → ℕ → List ReadResult → List Bytes → List Bytes → Type 0 where
    nothing : {o m : ℕ} → Reports o m o m [] [] []
    more :
        {o m o1 m1 o' m' : ℕ} {result : ReadResult} {results : List ReadResult}
        {lines lines' payloads payloads' : List Bytes} (all_lines all_payloads : List Bytes)
        → Report sys true o m o1 m1 result lines payloads
        → Reports o1 m1 o' m' results lines' payloads'
        → all_lines ≡ lines ++ lines'
        → all_payloads ≡ payloads ++ payloads'
        → Reports o m o' m' (result ∷ results) all_lines all_payloads

  -- While the client is connected, and if `sscanf` stores integers of 32 bits, each round of the main
  -- loop reads once. A line that is parsed is logged, as its JSON with the time of that call, exactly
  -- if the `fopen` of the log of readings, the second `fopen` of its round, succeeds. For each line
  -- that is logged, and for nothing else, one publish is counted in the same round, the next in
  -- number, and the JSON of the same reading is added to the payloads exactly if the broker accepts
  -- that publish. All else that is read adds nothing to either. So the lines and the payloads are
  -- those of the readings, in their order.
  pub main_loop-Reports :
      (n : ℕ) (g : Gateway)
      → StoresInts sys.out_of_range
      → g.mqtt.mosq ≡ true
      → let g' = main_loop sys n g in
        (lines : List Bytes) × (payloads : List Bytes) × Reports g.openings g.publishes g'.openings
          g'.publishes
          (reads g.port 128 n g.replies)
          lines
          payloads
        × Adds g g' lines payloads
  unfolding main_loop iteration
  main_loop-Reports zero g ints set = ([], [], nothing, Adds-nothing g g refl refl refl)
  main_loop-Reports (suc n) g ints set =
      let (result, left) = data_source_read g.port 128 g.replies in
      let (lines, payloads, r, ((p, m, s), e)) =
        read-Reported sys true result (record g { replies = left }) ints set in
      let g' = read_stage sys true result (record g { replies = left }) in
      let (lines', payloads', rs, adds) =
        main_loop-Reports n g' ints (mosq_kept g g' lines payloads (p, m, s) set) in
      (
        lines ++ lines',
        payloads ++ payloads',
        more (lines ++ lines') (payloads ++ payloads') r
            (subst
              (λ results.
                Reports g'.openings g'.publishes (main_loop sys n g').openings
                  (main_loop sys n g').publishes results lines' payloads')
              (ap₂ (λ port rs. reads port 128 n rs) p e) rs)
            refl refl,
        Adds-trans g g' (main_loop sys n g') lines lines' payloads payloads' (p, m, s) adds,
      )

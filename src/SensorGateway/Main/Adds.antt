-- ===== src/SensorGateway/Main/Adds.antt =====
-- Additions to the log of readings and to the payloads.
use linux_iot_gateway.Common.{
  true, false, List, [], ◌∷◌, ◌++◌, Bytes, ◌≡◌, sym, ap, ◌∙◌, append_assoc, append-nil, arith,
}
use linux_iot_gateway.SensorGateway.Mqtt.{Mqtt, mqtt_publish_json}
use linux_iot_gateway.SensorGateway.Main.{Gateway}

-- Lines are added to the log of readings, and payloads to those accepted; port and client stay.
abbrev pub Adds : Gateway → Gateway → List Bytes → List Bytes → Type 0
Adds g g' lines payloads =
    (g'.port ≡ g.port)
    × (g'.mqtt ≡ record g.mqtt { payloads = g.mqtt.payloads ++ payloads })
    × (g'.sensor_log ≡ g.sensor_log ++ lines)

-- The same, and no reply is taken.
abbrev pub AddsOnly : Gateway → Gateway → List Bytes → List Bytes → Type 0
AddsOnly g g' lines payloads = Adds g g' lines payloads × (g'.replies ≡ g.replies)

pub Adds-trans :
    (g g' g'' : Gateway) (lines lines' payloads payloads' : List Bytes)
    → Adds g g' lines payloads
    → Adds g' g'' lines' payloads'
    → Adds g g'' (lines ++ lines') (payloads ++ payloads')
Adds-trans g g' g'' lines lines' payloads payloads' (p, m, s) (p', m', s') = (
  p' ∙ p,
  m'
      ∙ ap (λ (m : Mqtt). record m { payloads = m.payloads ++ payloads' }) m
      ∙ ap (λ all. record g.mqtt { payloads = all })
          (append_assoc g.mqtt.payloads payloads payloads'),
  s' ∙ ap (λ log. log ++ lines') s ∙ append_assoc g.sensor_log lines lines',
)

pub mosq_kept :
    (g g' : Gateway) (lines payloads : List Bytes)
    → Adds g g' lines payloads
    → g.mqtt.mosq ≡ true
    → g'.mqtt.mosq ≡ true
mosq_kept g g' lines payloads (p, m, s) set = ap (λ (m : Mqtt). m.mosq) m ∙ set

pub Adds-nothing :
    (g g' : Gateway)
    → g'.port ≡ g.port
    → g'.mqtt ≡ g.mqtt
    → g'.sensor_log ≡ g.sensor_log
    → Adds g g' [] []
Adds-nothing g g' p m s = (
  p,
  m ∙ sym (ap (λ all. record g.mqtt { payloads = all }) (append-nil g.mqtt.payloads)),
  s ∙ sym (append-nil g.sensor_log),
)

pub AddsOnly-trans :
    (g g' g'' : Gateway) (lines lines' payloads payloads' : List Bytes)
    → AddsOnly g g' lines payloads
    → AddsOnly g' g'' lines' payloads'
    → AddsOnly g g'' (lines ++ lines') (payloads ++ payloads')
AddsOnly-trans g g' g'' lines lines' payloads payloads' (a, r) (a', r') =
    (Adds-trans g g' g'' lines lines' payloads payloads' a a', r' ∙ r)

pub publish_accepted :
    (json_buf : Bytes) (m : Mqtt)
    → m.mosq ≡ true
    → mqtt_publish_json true json_buf m
      ≡ (record m { payloads = m.payloads ++ json_buf ∷ [] }, true)
unfolding mqtt_publish_json
publish_accepted json_buf m set = ground arith

pub publish_refused :
    (json_buf : Bytes) (m : Mqtt) → mqtt_publish_json false json_buf m ≡ (m, false)
unfolding mqtt_publish_json
publish_refused json_buf m = ground arith

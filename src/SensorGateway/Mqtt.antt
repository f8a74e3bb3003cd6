-- ===== src/SensorGateway/Mqtt.antt =====
-- mqtt_client.c. The replies of libmosquitto are arguments: whether `mosquitto_new` returns a
-- handle, and whether the others return MOSQ_ERR_SUCCESS.
use linux_iot_gateway.Common.{
  ℕ, suc, Bool, true, false, not, List, [], ◌∷◌, ◌++◌, Bytes, if◌then◌else◌,
}

pub record MqttReplies : Type 0 where
  pub new_ok : Bool
  pub connect_ok : Bool

-- Whether `mosq` is set, the calls that take and release, and the payloads that were accepted.
pub record Mqtt : Type 0 where
  pub mosq : Bool
  pub lib_inits : ℕ
  pub lib_cleanups : ℕ
  pub created : ℕ
  pub destroyed : ℕ
  pub payloads : List Bytes

abbrev pub new_mqtt : Mqtt
new_mqtt = record {
  mosq = false;
  lib_inits = 0;
  lib_cleanups = 0;
  created = 0;
  destroyed = 0;
  payloads = [];
}

abbrev lib_cleanup : Mqtt → Mqtt
lib_cleanup m = record m { lib_cleanups = suc m.lib_cleanups }

abbrev destroy : Mqtt → Mqtt
destroy m = record m { destroyed = suc m.destroyed }

abbrev create : Mqtt → Mqtt
create m = record m { mosq = true; lib_inits = suc m.lib_inits; created = suc m.created }

-- Whether 0 is returned stands beside the state.
unfoldable pub mqtt_client_init : MqttReplies → Mqtt → Mqtt × Bool
mqtt_client_init replies m =
    if not replies.new_ok
    then (lib_cleanup (record m { mosq = false; lib_inits = suc m.lib_inits }), false)
    else if not replies.connect_ok
    then (lib_cleanup (destroy (create m)), false)
    else (create m, true)

-- `accepted` is the reply of `mosquitto_publish`.
unfoldable pub mqtt_publish_json : Bool → Bytes → Mqtt → Mqtt × Bool
mqtt_publish_json accepted json_data m =
    if not m.mosq
    then (m, false)
    else if not accepted
    then (m, false)
    else (record m { payloads = m.payloads ++ json_data ∷ [] }, true)

unfoldable pub mqtt_client_cleanup : Mqtt → Mqtt
mqtt_client_cleanup m = lib_cleanup (if m.mosq then destroy m else m)

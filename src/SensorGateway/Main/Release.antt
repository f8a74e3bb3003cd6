-- ===== src/SensorGateway/Main/Release.antt =====
-- What the process holds while it runs, and at its end.
use linux_iot_gateway.Common.{
  ℕ, Bool, true, false, List, [], ◌∷◌, ◌++◌, Option, none, some, Bytes, codes, if◌then◌else◌, ◌≡◌,
  refl, sym, ap, ◌∙◌, subst, Bool-cases, inl, inr,
}
use linux_iot_gateway.SensorGateway.Parser.Json.{StoresInts}
use linux_iot_gateway.SensorGateway.Source.{
  SerialReplies, SerialPort, ReadReply, data_source_init, opened, data_source_read,
  data_source_cleanup, serial_configure,
}
use linux_iot_gateway.SensorGateway.Mqtt.{
  MqttReplies, Mqtt, new_mqtt, mqtt_client_init, mqtt_client_cleanup,
}
use linux_iot_gateway.SensorGateway.Main.{
  System, Gateway, app_log_write, app_log_info, iteration, main_loop, start, clean_up, stop,
  run_loop, connected, sourced, main,
}
use linux_iot_gateway.SensorGateway.Main.Adds.{Adds}
use linux_iot_gateway.SensorGateway.Main.Stages.{read-Reported}
use linux_iot_gateway.SensorGateway.Main.Reports.{main_loop-Reports}

abbrev held_port : ℕ → SerialPort
held_port fd = record { serial_fd = some fd; closed = [] }

-- A client that has been made and connected.
abbrev held_mqtt : List Bytes → Mqtt
held_mqtt payloads = record {
  mosq = true;
  lib_inits = 1;
  lib_cleanups = 0;
  created = 1;
  destroyed = 0;
  payloads = payloads;
}

abbrev Holds : ℕ → Gateway → Type 0
Holds fd g = (g.port ≡ held_port fd) × (g.mqtt ≡ held_mqtt g.mqtt.payloads)

-- Nothing is held: each descriptor of `open` and each call that takes has its counterpart.
pub record IsReleased (fds : List ℕ) (g : Gateway) : Type 0 where
  pub no_fd : g.port.serial_fd ≡ none
  pub fds_closed : g.port.closed ≡ fds
  pub handles : g.mqtt.destroyed ≡ g.mqtt.created
  pub library : g.mqtt.lib_cleanups ≡ g.mqtt.lib_inits

Adds-Holds :
    (fd : ℕ) (g g' : Gateway) (lines payloads : List Bytes)
    → Adds g g' lines payloads
    → Holds fd g
    → Holds fd g'
Adds-Holds fd g g' lines payloads (p, m, s) (port, mqtt) = (
  p ∙ port,
  m
      ∙ ap (λ (m : Mqtt). record m { payloads = g.mqtt.payloads ++ payloads }) mqtt
      ∙ ap held_mqtt (sym (ap (λ (m : Mqtt). m.payloads) m)),
)

abbrev ClientFits : Mqtt × Bool → Type 0
ClientFits (m, true) = m ≡ held_mqtt []
ClientFits (m, false) = (m.destroyed ≡ m.created) × (m.lib_cleanups ≡ m.lib_inits)

mqtt_client_init-ClientFits :
    (replies : MqttReplies) → ClientFits (mqtt_client_init replies new_mqtt)
unfolding mqtt_client_init
mqtt_client_init-ClientFits replies = elim (Bool-cases replies.new_ok) [
  | inl made ↦ elim (Bool-cases replies.connect_ok) [
    | inl ok ↦ rw (made, ok) refl
    | inr refused ↦ rw (made, refused) (refl, refl)
  ]
  | inr null ↦ rw null (refl, refl)
]

-- The descriptor that `open` has returned.
abbrev pub opened_fds : Option ℕ → List ℕ
opened_fds none = []
opened_fds (some fd) = fd ∷ []

abbrev PortFits : List ℕ → SerialPort × Bool → Type 0
PortFits fds (port, true) = (fd : ℕ) × (port ≡ held_port fd) × (fds ≡ fd ∷ [])
PortFits fds (port, false) = port ≡ record { serial_fd = none; closed = fds }

opened-PortFits :
    (replies : SerialReplies) (fd : Option ℕ)
    → PortFits (opened_fds fd) (opened replies (record { serial_fd = none; closed = [] }) fd)
unfolding opened
opened-PortFits replies none = refl
opened-PortFits replies (some fd) = elim (Bool-cases (serial_configure replies)) [
  | inl ok ↦ rw ok (fd, refl, refl)
  | inr failed ↦ rw failed refl
]

module _ (sys : System) (ints : StoresInts sys.out_of_range) where
  iteration-Holds :
      (running : Bool) (fd : ℕ) (g : Gateway) → Holds fd g → Holds fd (iteration sys running g)
  unfolding iteration
  iteration-Holds running fd g (port, mqtt) =
      let (result, left) = data_source_read g.port 128 g.replies in
      let (lines, payloads, r, (adds, e)) =
        read-Reported sys running result (record g { replies = left }) ints
          (ap (λ (m : Mqtt). m.mosq) mqtt) in
      Adds-Holds fd g (iteration sys running g) lines payloads adds (port, mqtt)

  loop-Holds : (n fd : ℕ) (g : Gateway) → Holds fd g → Holds fd (main_loop sys n g)
  loop-Holds n fd g (port, mqtt) =
      let (lines, payloads, rs, adds) =
        main_loop-Reports sys n g ints (ap (λ (m : Mqtt). m.mosq) mqtt) in
      Adds-Holds fd g (main_loop sys n g) lines payloads adds (port, mqtt)

  clean_up-IsReleased : (fd : ℕ) (g : Gateway) → Holds fd g → IsReleased (fd ∷ []) (clean_up sys g)
  unfolding clean_up app_log_write data_source_cleanup mqtt_client_cleanup
  clean_up-IsReleased fd g (port, mqtt) = record {
    no_fd = ap (λ p. (data_source_cleanup p).serial_fd) port;
    fds_closed = ap (λ p. (data_source_cleanup p).closed) port;
    handles =
        ap (λ m. (mqtt_client_cleanup m).destroyed) mqtt
        ∙ sym (ap (λ m. (mqtt_client_cleanup m).created) mqtt);
    library =
        ap (λ m. (mqtt_client_cleanup m).lib_cleanups) mqtt
        ∙ sym (ap (λ m. (mqtt_client_cleanup m).lib_inits) mqtt);
  }

  -- A result with an exit status has released all.
  abbrev EndsReleased : List ℕ → Gateway × Option ℕ → Type 0
  EndsReleased fds r = (code : ℕ) → r.1 ≡ some code → IsReleased fds r.0

  stop-EndsReleased : (fd : ℕ) (g : Gateway) → Holds fd g → EndsReleased (fd ∷ []) (stop sys g)
  unfolding stop
  stop-EndsReleased fd g h = elim (Bool-cases g.blocked) [
    | inl blocked ↦
        subst (λ b. EndsReleased (fd ∷ []) (if b then (g, none) else (clean_up sys g, some 0)))
          (sym blocked) (λ code e. cc)
    | inr returns ↦
        subst (λ b. EndsReleased (fd ∷ []) (if b then (g, none) else (clean_up sys g, some 0)))
          (sym returns) (λ code e. clean_up-IsReleased fd g h)
  ]

  run_loop-EndsReleased :
      (n fd : ℕ) (in_read : Bool) (g : Gateway)
      → Holds fd g
      → EndsReleased (fd ∷ []) (run_loop sys n in_read g)
  unfolding run_loop
  run_loop-EndsReleased n fd true g h =
      stop-EndsReleased fd (iteration sys false (main_loop sys n g))
        (iteration-Holds false fd (main_loop sys n g) (loop-Holds n fd g h))
  run_loop-EndsReleased n fd false g h =
      stop-EndsReleased fd (main_loop sys n g) (loop-Holds n fd g h)

  connected-EndsReleased :
      (r : Mqtt × Bool) (n fd : ℕ) (in_read : Bool) (g : Gateway)
      → ClientFits r
      → g.port ≡ held_port fd
      → EndsReleased (fd ∷ []) (connected sys r n in_read g)
  unfolding connected app_log_write data_source_cleanup
  connected-EndsReleased (mqtt, true) n fd in_read g made port =
      run_loop-EndsReleased n fd in_read
        (app_log_info sys (codes "mqtt client init success") (record g { mqtt = mqtt }))
        (port, made ∙ ap held_mqtt (sym (ap (λ (m : Mqtt). m.payloads) made)))
  connected-EndsReleased (mqtt, false) n fd in_read g (handles, library) port = λ code e. record {
    no_fd = ap (λ p. (data_source_cleanup p).serial_fd) port;
    fds_closed = ap (λ p. (data_source_cleanup p).closed) port;
    handles = handles;
    library = library;
  }

  sourced-EndsReleased :
      (fds : List ℕ) (r : SerialPort × Bool) (mqtt_replies : MqttReplies) (n : ℕ) (in_read : Bool)
      (g : Gateway)
      → PortFits fds r
      → g.mqtt ≡ new_mqtt
      → EndsReleased fds (sourced sys r mqtt_replies n in_read g)
  unfolding sourced app_log_write
  sourced-EndsReleased all (port, true) mqtt_replies n in_read g (fd, made, fds) mqtt =
      let g' = app_log_info sys (codes "data source init success") (record g { port = port }) in
      subst (λ fds. EndsReleased fds (sourced sys (port, true) mqtt_replies n in_read g)) (sym fds)
        (connected-EndsReleased (mqtt_client_init mqtt_replies g'.mqtt) n fd in_read g'
          (subst (λ m. ClientFits (mqtt_client_init mqtt_replies m)) (sym mqtt)
            (mqtt_client_init-ClientFits mqtt_replies))
          made)
  sourced-EndsReleased all (port, false) mqtt_replies n in_read g fits mqtt = λ code e. record {
    no_fd = ap (λ (p : SerialPort). p.serial_fd) fits;
    fds_closed = ap (λ (p : SerialPort). p.closed) fits;
    handles = ap (λ (m : Mqtt). m.destroyed) mqtt ∙ sym (ap (λ (m : Mqtt). m.created) mqtt);
    library = ap (λ (m : Mqtt). m.lib_cleanups) mqtt ∙ sym (ap (λ (m : Mqtt). m.lib_inits) mqtt);
  }

  -- However the port, the client and the reads answer, and wherever the signal comes, when `main`
  -- returns the port is closed, exactly once if it was opened, and each handle and each
  -- initialization of the library has been released.
  pub main-IsReleased :
      (serial_replies : SerialReplies) (mqtt_replies : MqttReplies) (replies : List ReadReply)
      (rounds : ℕ) (in_read : Bool) (code : ℕ)
      → (main sys serial_replies mqtt_replies replies rounds in_read).1 ≡ some code
      → IsReleased
          (opened_fds serial_replies.open_fd)
          (main sys serial_replies mqtt_replies replies rounds in_read).0
  unfolding main app_log_write data_source_init
  main-IsReleased serial_replies mqtt_replies replies rounds in_read =
      sourced-EndsReleased (opened_fds serial_replies.open_fd) _ mqtt_replies rounds in_read
        (app_log_info sys (codes "gateway start") (start replies))
        (opened-PortFits serial_replies serial_replies.open_fd) refl

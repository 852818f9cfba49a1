-- ===== src/Tests/Broker.antt =====
-- The events of the broker, the rounds of the MQTT worker, and the start of the station.
use lin_tac09cpbpsl_esp32c.Common.{
  ◌<◌, ◌≤◌, ◌-◌, ◌/◌, ◌↔◌, ◌≡◌, refl, true, false, [], ◌∷◌, some, has, codes, arith,
}
use lin_tac09cpbpsl_esp32c.Bridge.Queue.{
  mitm_active, links_fresh, setpoint_out_of_mode, queue_control,
}
use lin_tac09cpbpsl_esp32c.Bridge.Update.{same_bytes}
use lin_tac09cpbpsl_esp32c.Protocol.Control.{rejects}
use lin_tac09cpbpsl_esp32c.Clients.Issue.{Issued, is_taken}
use lin_tac09cpbpsl_esp32c.Clients.Names.{text_low, parse_fan_name}
use lin_tac09cpbpsl_esp32c.Clients.Mqtt.{
  queue_request, topic_request, fan_payload, handle_command_topic,
}
use lin_tac09cpbpsl_esp32c.Clients.Mqtt.Events.{
  Client, Delivery, Event, Worker, mqtt_event_handler, ticks_since, begin_round, end_round,
  worker_round,
}
use lin_tac09cpbpsl_esp32c.Clients.Mqtt.Handled.{
  has_taken, mqtt_event_handler-Issued, mqtt_event_handler-refused, worker_round-publishes,
  end_round-forgets,
}
use lin_tac09cpbpsl_esp32c.Clients.Mqtt.Start.{topics_of}
use lin_tac09cpbpsl_esp32c.Clients.Mqtt.Routing.{
  TopicKind, full_topic, payload_of, topic_request-routes,
}
use lin_tac09cpbpsl_esp32c.Wifi.{Secrets, WifiErr, DriverResults, no_status, wifi_service_start}
use lin_tac09cpbpsl_esp32c.Wifi.Access.{may_open, plan, Follows, wifi_service_start-Follows}
use lin_tac09cpbpsl_esp32c.Clients.Mqtt.{
  climate_payload, key_mode, key_target_temp, key_fan, key_power,
}
use lin_tac09cpbpsl_esp32c.Clients.Mqtt.Payload.{parse_complete_json, is_space_only, c_string}
use lin_tac09cpbpsl_esp32c.Clients.Json.{Item}
use lin_tac09cpbpsl_esp32c.Protocol.Parse.{valid_setpoint}
use lin_tac09cpbpsl_esp32c.Clients.Names.{ha_mode_name, ha_fan_name}
use lin_tac09cpbpsl_esp32c.Clients.Mqtt.State.{
  publish_state_now, publish_state_now-takes, AsksFor, climate_payload-published,
}
use lin_tac09cpbpsl_esp32c.Protocol.Types.{Mode, Fan, Request}
use lin_tac09cpbpsl_esp32c.Protocol.Wire.{control_fan, control_timer}
use lin_tac09cpbpsl_esp32c.Bridge.Types.{AcState, Service}
use lin_tac09cpbpsl_esp32c.Bridge.Update.{no_request}
use lin_tac09cpbpsl_esp32c.Bridge.Queue.{EspErr, link_fresh_ms}
use lin_tac09cpbpsl_esp32c.Tests.Runs.{mitm_nts, live}
use lin_tac09cpbpsl_esp32c.Tests.Commands.{plain, topics}

-- low on the topic of the fan.
abbrev low : Delivery
low = record {
  topic = 4 ∷ [];
  payload = text_low;
  total_data_len = 3;
  current_data_offset = 0;
  retain = false;
}

abbrev idle : Client
idle = record { started = true; connected = true; discovery_pending = false; state_pending = false }

abbrev worker : Worker
worker = record { last_state = 100; last_start_attempt = 1 }

mqtt_event_handler-Issued_example :
    let r = mqtt_event_handler plain mitm_nts 1000000 topics (Event.delivery low) idle live in
    Issued mitm_nts 1000000 live (has_taken r.0) r.2
mqtt_event_handler-Issued_example =
    mqtt_event_handler-Issued plain mitm_nts 1000000 topics (Event.delivery low) idle live

-- The same message, retained.
abbrev stale : Delivery
stale = record low { retain = true }

mqtt_event_handler-refused_example :
    let r = mqtt_event_handler plain mitm_nts 1000000 topics (Event.delivery stale) idle live in
    (has_taken r.0 ≡ false) × (r.2 ≡ live)
mqtt_event_handler-refused_example =
    mqtt_event_handler-refused plain mitm_nts 1000000 topics stale idle live refl

low-taken :
    has_taken (mqtt_event_handler plain mitm_nts 1000000 topics (Event.delivery low) idle live).0
    ≡ true
unfolding mqtt_event_handler has_taken handle_command_topic topic_request fan_payload queue_request
    same_bytes mitm_active parse_fan_name is_taken queue_control rejects has links_fresh
    setpoint_out_of_mode
low-taken = refl

worker_round-publishes_example :
    let d = (mqtt_event_handler plain mitm_nts 1000000 topics (Event.delivery low) idle live).1 in
    let r = worker_round 500 500 130 140 true true d worker in
    (r.0.state ≡ true) × (r.1.state_pending ≡ false) × (r.2.last_state ≡ 140)
worker_round-publishes_example =
    worker_round-publishes plain mitm_nts 1000000 topics (Event.delivery low) idle live 500 500 130
      140 true true worker refl low-taken

-- The state is due, and the command comes in while it is published.
abbrev due : Client
due = record idle { state_pending = true }

due-published : (begin_round 500 140 due worker).0.state ≡ true
unfolding begin_round
due-published = refl

due-taken :
    has_taken
      (mqtt_event_handler plain mitm_nts 1000000 topics
        (Event.delivery low)
        (begin_round 500 140 due worker).1
        live).0
    ≡ true
unfolding mqtt_event_handler has_taken handle_command_topic topic_request fan_payload queue_request
    same_bytes mitm_active parse_fan_name is_taken queue_control rejects has links_fresh
    setpoint_out_of_mode
due-taken = refl

recent : ticks_since 165 140 < 500
unfolding ticks_since
recent = omega arith

end_round-forgets_example :
    let d =
      (mqtt_event_handler plain mitm_nts 1000000 topics
        (Event.delivery low)
        (begin_round 500 140 due worker).1
        live).1 in
    let (f, u) = end_round 140 (begin_round 500 140 due worker).0 d worker in
    (begin_round 500 165 f u).0.state ≡ false
end_round-forgets_example =
    end_round-forgets plain mitm_nts 1000000 topics (Event.delivery low) due live 500 140 165 worker
      due-published due-taken recent

topic_request-routes_example :
    topic_request plain
      (topics_of (codes "klima_0011"))
      (full_topic (codes "klima_0011") TopicKind.fan)
      text_low
    ≡ payload_of plain TopicKind.fan text_low
topic_request-routes_example =
    topic_request-routes plain (codes "klima_0011") TopicKind.fan text_low (omega arith)

abbrev secrets : Secrets
secrets = record {
  fallback = true;
  password = codes "correct horse";
  station_ssid = codes "home";
  station_password = codes "secret of home";
}

abbrev driver : DriverResults
driver = record {
  mac = some (0xab, 0x0c);
  netif_init = WifiErr.ok;
  event_loop = WifiErr.invalid_state;
  ap_netif = true;
  sta_netif = true;
  hostname = WifiErr.ok;
  wifi_init = WifiErr.ok;
  wifi_handler = WifiErr.ok;
  ip_handler = WifiErr.ok;
  mode_result = WifiErr.ok;
  ap_result = WifiErr.ok;
  sta_result = WifiErr.ok;
  start_result = WifiErr.ok;
  ps_result = WifiErr.ok;
}

wifi_service_start-Follows_example :
    Follows
      (wifi_service_start secrets driver no_status).0
      (plan (may_open secrets) secrets 0xab 0x0c)
wifi_service_start-Follows_example =
    wifi_service_start-Follows secrets driver no_status 0xab 0x0c refl

-- The fan at its low speed, while the control is available.
abbrev ready_live : Service
ready_live = record live {
  state = record (live.state) { mitm_active = true; panel_emulated = false };
}

abbrev low_fan : Request
low_fan = record no_request { mask = control_fan; fan = Fan.low }

live-active : ready_live.state.mitm_active ≡ mitm_active mitm_nts ready_live.hardware_ready
unfolding mitm_active
live-active = refl

live-available : (publish_state_now true true 1000000 ready_live).0 ≡ some true
unfolding publish_state_now
live-available = refl

low_fan_sound : rejects low_fan ≡ false
unfolding rejects has
low_fan_sound = refl

low_fan_plain : has low_fan.mask control_timer ≡ false
unfolding has
low_fan_plain = refl

low_fan_in_mode : setpoint_out_of_mode low_fan ready_live ≡ false
unfolding setpoint_out_of_mode has
low_fan_in_mode = refl

publish_state_now-takes_example :
    ((queue_control mitm_nts 1000000 low_fan ready_live).0 ≡ EspErr.ok)
    × (((queue_control mitm_nts 4000000 low_fan ready_live).0 ≡ EspErr.ok) ↔ (
        ((4000000 - 900000) / 1000 ≤ link_fresh_ms) × ((4000000 - 950000) / 1000 ≤ link_fresh_ms)))
publish_state_now-takes_example =
    publish_state_now-takes mitm_nts true true 1000000 4000000 low_fan ready_live live-active
      (omega arith) (omega arith) live-available (λ e. omega (arith, e)) low_fan_sound low_fan_plain
      low_fan_in_mode

-- Dry at 24 degrees with the low speed of the fan.
abbrev drying : AcState
drying = record (live.state) { power = true; mode = Mode.dry; fan = Fan.low; setpoint_c = 24 }

plain-parses : parse_complete_json plain (123 ∷ 125 ∷ []) ≡ some true
unfolding parse_complete_json is_space_only c_string
plain-parses = refl

drying-mode : plain.get true key_mode ≡ some (Item.text (ha_mode_name drying))
unfolding same_bytes ha_mode_name
drying-mode = refl

plain-temperature : plain.get true key_target_temp ≡ some (Item.number false 24 false)
unfolding same_bytes
plain-temperature = refl

drying-fan : plain.get true key_fan ≡ some (Item.text (ha_fan_name drying))
unfolding same_bytes ha_fan_name
drying-fan = refl

plain-power : plain.get true key_power ≡ some (Item.boolean true)
unfolding same_bytes
plain-power = refl

climate_payload-published_example :
    (r : Request) × (climate_payload plain (123 ∷ 125 ∷ []) ≡ some r) × AsksFor drying r
unfolding valid_setpoint
climate_payload-published_example =
    climate_payload-published plain (123 ∷ 125 ∷ []) true drying plain-parses drying-mode
      plain-temperature drying-fan plain-power (λ e. ground (arith, e)) (λ e. ground (arith, e))
      (λ e. ground (arith, e)) refl

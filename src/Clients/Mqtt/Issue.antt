-- ===== src/Clients/Mqtt/Issue.antt =====
-- main/mqtt_service.c: what the commands of the broker ask for.
use lin_tac09cpbpsl_esp32c.Common.{
  ℕ, ◌%◌, ◌^◌, ◌≡◌, refl, bit_or, Bool, true, ◌||◌, inl, inr, List, Option, none, some, ltb, same,
  has, Bool-cases, arith,
}
use lin_tac09cpbpsl_esp32c.Protocol.Types.{Mode, Fan, Request}
use lin_tac09cpbpsl_esp32c.Protocol.Wire.{control_power, control_setpoint, control_fan}
use lin_tac09cpbpsl_esp32c.Protocol.Parse.{valid_setpoint}
use lin_tac09cpbpsl_esp32c.Protocol.Control.{rejects, is_control_fan, is_control_mode}
use lin_tac09cpbpsl_esp32c.Bridge.Types.{Profile, Service}
use lin_tac09cpbpsl_esp32c.Bridge.Update.{no_request, same_bytes}
use lin_tac09cpbpsl_esp32c.Bridge.Queue.{mitm_active}
use lin_tac09cpbpsl_esp32c.Bridge.Merge.{is_exclusive, IsSound}
use lin_tac09cpbpsl_esp32c.Clients.Issue.{
  Issued, AllSound, AllSound-elim, AllSound-if, queued-Issued,
}
use lin_tac09cpbpsl_esp32c.Clients.Names.{parse_mode_name, parse_fan_name}
use lin_tac09cpbpsl_esp32c.Clients.Json.{
  Item, Library, item_text, item_boolean, item_number, item_number-range,
}
use lin_tac09cpbpsl_esp32c.Clients.Mqtt.Payload.{
  parse_complete_json, parse_string_payload, parse_integer_payload,
}
use lin_tac09cpbpsl_esp32c.Clients.Mqtt.{
  key_mode, key_target_temp, key_fan, key_power, with_mode, climate_request, mode_command,
  temperature_command, Feature, feature_value, parse_switch, queue_request, queue_parsed,
  climate_payload, mode_payload, temperature_payload, fan_payload, power_payload, feature_payload,
  Topics, topic_request, handle_command_topic,
}

pub parse_fan_name-known :
    (value : List ℕ) (fan : Fan) → parse_fan_name value ≡ some fan → is_control_fan fan ≡ true
unfolding parse_fan_name is_control_fan
parse_fan_name-known value fan = ground arith

fan-IsSound :
    (fan : Fan)
    → is_control_fan fan ≡ true
    → IsSound (record no_request { mask = control_fan; fan = fan })
unfolding rejects has is_exclusive
fan-IsSound fan h = record { in_range = rw h refl; no_timer = refl; one_code = refl }

temperature_command-AllSound : (value : Bool × ℕ) → AllSound (temperature_command value)
unfolding temperature_command rejects has is_exclusive valid_setpoint
temperature_command-AllSound (negative, value) =
    elim (Bool-cases (negative || ltb value 18 || ltb 32 value)) [
      | inl a ↦ rw a tt
      | inr a ↦ rw a (record { in_range = ground (arith, a); no_timer = refl; one_code = refl })
    ]

mode_command-IsSound : (mode : Mode) (power : Bool) → IsSound (mode_command (mode, power))
unfolding mode_command with_mode rejects has is_exclusive is_control_mode
mode_command-IsSound Mode.unknown power = record {
  in_range = refl;
  no_timer = refl;
  one_code = refl;
}
mode_command-IsSound Mode.cool power = record { in_range = refl; no_timer = refl; one_code = refl }
mode_command-IsSound Mode.fan power = record { in_range = refl; no_timer = refl; one_code = refl }
mode_command-IsSound Mode.dry power = record { in_range = refl; no_timer = refl; one_code = refl }

power-IsSound : (on : Bool) → IsSound (record no_request { mask = control_power; power = on })
unfolding rejects has is_exclusive
power-IsSound on = record { in_range = refl; no_timer = refl; one_code = refl }

feature_value-IsSound : (feature : Feature) (on : Bool) → IsSound (feature_value feature on)
unfolding feature_value rejects has is_exclusive
feature_value-IsSound Feature.quiet on = record {
  in_range = refl;
  no_timer = refl;
  one_code = refl;
}
feature_value-IsSound Feature.units on = record {
  in_range = refl;
  no_timer = refl;
  one_code = refl;
}

-- The request of a climate command before its mode is set.
climate-IsSound :
    (mode : Mode) (power : Bool) (temperature : ℕ) (fan : Fan)
    → valid_setpoint temperature ≡ true
    → is_control_fan fan ≡ true
    → IsSound (
        with_mode mode (record no_request {
          mask = bit_or (bit_or control_power control_setpoint) control_fan;
          power = power;
          setpoint_c = temperature;
          fan = fan;
        }))
unfolding with_mode rejects has is_exclusive is_control_mode
climate-IsSound Mode.unknown power t fan h k = record {
  in_range = rw (h, k) refl;
  no_timer = refl;
  one_code = refl;
}
climate-IsSound Mode.cool power t fan h k = record {
  in_range = rw (h, k) refl;
  no_timer = refl;
  one_code = refl;
}
climate-IsSound Mode.fan power t fan h k = record {
  in_range = rw (h, k) refl;
  no_timer = refl;
  one_code = refl;
}
climate-IsSound Mode.dry power t fan h k = record {
  in_range = rw (h, k) refl;
  no_timer = refl;
  one_code = refl;
}

climate_request-AllSound :
    (mode_name fan_name : List ℕ) (temperature : ℕ) (asked : Bool)
    → valid_setpoint (temperature % 2 ^ 8) ≡ true
    → AllSound (climate_request (mode_name, temperature, fan_name, asked))
unfolding climate_request
climate_request-AllSound mode_name fan_name temperature asked h =
    AllSound-elim (parse_mode_name mode_name) _ (λ mode e.
      AllSound-elim (parse_fan_name fan_name) _ (λ fan f.
        AllSound-if (same asked mode.1) _ _
          (λ b.
            climate-IsSound mode.0 mode.1 (temperature % 2 ^ 8) fan h
              (parse_fan_name-known fan_name fan f))
          (λ b. tt)))

pub number-valid :
    (item : Option Item) (n : ℕ)
    → item_number 18 32 item ≡ some n
    → valid_setpoint (n % 2 ^ 8) ≡ true
unfolding valid_setpoint
number-valid item n e = let (low, high) = item_number-range 18 32 item n e in ground arith

climate_payload-AllSound : (j : Library) (bytes : List ℕ) → AllSound (climate_payload j bytes)
unfolding climate_payload
climate_payload-AllSound j bytes = AllSound-elim (parse_complete_json j bytes) _ (λ root e.
    AllSound-elim (item_text (j.get root key_mode)) _ (λ mode m.
      AllSound-elim (item_number 18 32 (j.get root key_target_temp)) _ (λ temperature t.
        AllSound-elim (item_text (j.get root key_fan)) _ (λ fan f.
          AllSound-elim (item_boolean (j.get root key_power)) _ (λ power b.
            climate_request-AllSound mode fan temperature power
              (number-valid (j.get root key_target_temp) temperature t))))))

mode_payload-AllSound : (j : Library) (bytes : List ℕ) → AllSound (mode_payload j bytes)
unfolding mode_payload
mode_payload-AllSound j bytes = AllSound-elim (parse_string_payload j bytes 24) _ (λ value e.
    AllSound-elim (parse_mode_name value) _ (λ mode f. mode_command-IsSound mode.0 mode.1))

temperature_payload-AllSound :
    (j : Library) (bytes : List ℕ) → AllSound (temperature_payload j bytes)
unfolding temperature_payload
temperature_payload-AllSound j bytes =
    AllSound-elim (parse_integer_payload j bytes) _ (λ value e. temperature_command-AllSound value)

fan_payload-AllSound : (j : Library) (bytes : List ℕ) → AllSound (fan_payload j bytes)
unfolding fan_payload
fan_payload-AllSound j bytes = AllSound-elim (parse_string_payload j bytes 16) _ (λ value e.
    AllSound-elim (parse_fan_name value) _
      (λ fan f. fan-IsSound fan (parse_fan_name-known value fan f)))

power_payload-AllSound : (j : Library) (bytes : List ℕ) → AllSound (power_payload j bytes)
unfolding power_payload
power_payload-AllSound j bytes =
    AllSound-elim (parse_string_payload j bytes 8) _
      (λ value e. AllSound-elim (parse_switch value) _ (λ on f. power-IsSound on))

feature_payload-AllSound :
    (j : Library) (feature : Feature) (bytes : List ℕ) → AllSound (feature_payload j feature bytes)
unfolding feature_payload
feature_payload-AllSound j feature bytes =
    AllSound-elim (parse_string_payload j bytes 8) _
      (λ value e. AllSound-elim (parse_switch value) _ (λ on f. feature_value-IsSound feature on))

topic_request-AllSound :
    (j : Library) (n : Topics) (topic bytes : List ℕ) → AllSound (topic_request j n topic bytes)
unfolding topic_request
topic_request-AllSound j n topic bytes =
    AllSound-if (same_bytes topic n.climate_set) _ _ (λ b. climate_payload-AllSound j bytes)
      (λ b.
        AllSound-if (same_bytes topic n.mode_set) _ _ (λ b. mode_payload-AllSound j bytes)
          (λ b.
            AllSound-if (same_bytes topic n.temperature_set) _ _
              (λ b. temperature_payload-AllSound j bytes)
              (λ b.
                AllSound-if (same_bytes topic n.fan_set) _ _ (λ b. fan_payload-AllSound j bytes)
                  (λ b.
                    AllSound-if (same_bytes topic n.power_set) _ _
                      (λ b. power_payload-AllSound j bytes)
                      (λ b.
                        AllSound-if (same_bytes topic n.quiet_set) _ _
                          (λ b. feature_payload-AllSound j Feature.quiet bytes)
                          (λ b.
                            AllSound-if (same_bytes topic n.units_set) _ _
                              (λ b. feature_payload-AllSound j Feature.units bytes) (λ b. tt)))))))

queue_request-Issued :
    (p : Profile) (now : ℕ) (r : Request) (s : Service)
    → IsSound r
    → Issued p now s (queue_request p now r s).0 (queue_request p now r s).1
unfolding queue_request
queue_request-Issued p now r s v = elim (Bool-cases (mitm_active p s.hardware_ready)) [
  | inl e ↦ rw e (queued-Issued p now r s v)
  | inr e ↦ rw e (inl (refl, refl))
]

queue_parsed-Issued :
    (p : Profile) (now : ℕ) (request : Option Request) (s : Service)
    → AllSound request
    → Issued p now s (queue_parsed p now request s).0 (queue_parsed p now request s).1
unfolding queue_parsed
queue_parsed-Issued p now none s v = inl (refl, refl)
queue_parsed-Issued p now (some r) s v = queue_request-Issued p now r s v

-- Whatever text the broker sends on whatever topic, the bridge is given one sound request or none,
-- and a request is reported as accepted exactly where the bridge has taken it.
pub handle_command_topic-Issued :
    (j : Library) (p : Profile) (now : ℕ) (n : Topics) (topic bytes : List ℕ) (s : Service)
    → Issued p now s
        (handle_command_topic j p now n topic bytes s).0
        (handle_command_topic j p now n topic bytes s).1
unfolding handle_command_topic
handle_command_topic-Issued j p now n topic bytes s =
    elim (Bool-cases (mitm_active p s.hardware_ready)) [
      | inl e ↦ rw e (
          queue_parsed-Issued p now (topic_request j n topic bytes) s
            (topic_request-AllSound j n topic bytes))
      | inr e ↦ rw e (inl (refl, refl))
    ]

-- ===== src/Clients/Mqtt.antt =====
-- main/mqtt_service.c: the commands of the broker, from the payload to the bridge.
pub mod Payload
pub mod Issue
pub mod Refused
pub mod Events
pub mod Handled
pub mod Start
pub mod Routing
pub mod State
use lin_tac09cpbpsl_esp32c.Common.{
  ℕ, ◌%◌, ◌^◌, bit_or, Bool, true, false, not, ◌||◌, List, [], ◌∷◌, Option, none, some, ltb, same,
  if◌then◌else◌,
}
use lin_tac09cpbpsl_esp32c.Protocol.Types.{Mode, Request}
use lin_tac09cpbpsl_esp32c.Protocol.Wire.{
  control_power, control_setpoint, control_mode, control_fan, control_quiet,
  control_units_fahrenheit,
}
use lin_tac09cpbpsl_esp32c.Bridge.Types.{Profile, Service}
use lin_tac09cpbpsl_esp32c.Bridge.Update.{no_request, same_bytes}
use lin_tac09cpbpsl_esp32c.Bridge.Queue.{mitm_active, queue_control}
use lin_tac09cpbpsl_esp32c.Clients.Issue.{is_taken}
use lin_tac09cpbpsl_esp32c.Clients.Names.{text_on, text_off_upper, parse_mode_name, parse_fan_name}
use lin_tac09cpbpsl_esp32c.Clients.Json.{Library, item_text, item_boolean, item_number}
use lin_tac09cpbpsl_esp32c.Clients.Mqtt.Payload.{
  parse_complete_json, parse_string_payload, parse_integer_payload,
}

-- The keys mode, target_temp, fan, power
abbrev pub key_mode : List ℕ
key_mode = 109 ∷ 111 ∷ 100 ∷ 101 ∷ []

abbrev pub key_target_temp : List ℕ
key_target_temp = 116 ∷ 97 ∷ 114 ∷ 103 ∷ 101 ∷ 116 ∷ 95 ∷ 116 ∷ 101 ∷ 109 ∷ 112 ∷ []

abbrev pub key_fan : List ℕ
key_fan = 102 ∷ 97 ∷ 110 ∷ []

abbrev pub key_power : List ℕ
key_power = 112 ∷ 111 ∷ 119 ∷ 101 ∷ 114 ∷ []

-- `mode != AC_MODE_UNKNOWN`: the mask and the mode are set.
unfoldable pub with_mode : Mode → Request → Request
with_mode Mode.unknown r = r
with_mode mode r = record r { mask = bit_or r.mask control_mode; mode = mode }

-- The request of a climate command, whose names and power must agree.
unfoldable pub climate_request : List ℕ × ℕ × List ℕ × Bool → Option Request
unfolding with_mode
climate_request (mode_name, temperature, fan_name, asked) = elim (parse_mode_name mode_name) [
  | none ↦ none
  | some (mode, power) ↦ elim (parse_fan_name fan_name) [
    | none ↦ none
    | some fan ↦
        if same asked power
        then some (
            with_mode mode (record no_request {
              mask = bit_or (bit_or control_power control_setpoint) control_fan;
              power = power;
              setpoint_c = temperature % 2 ^ 8;
              fan = fan;
            }))
        else none
  ]
]

-- The request of a mode command.
unfoldable pub mode_command : Mode × Bool → Request
unfolding with_mode
mode_command (mode, power) =
    with_mode mode (record no_request { mask = control_power; power = power })

-- The request of a temperature command, with the sign of the number.
unfoldable pub temperature_command : Bool × ℕ → Option Request
temperature_command (negative, value) =
    if negative || ltb value 18 || ltb 32 value
    then none
    else some (record no_request { mask = control_setpoint; setpoint_c = value % 2 ^ 8 })

-- `AC_CONTROL_QUIET` or `AC_CONTROL_UNITS_FAHRENHEIT`, the two features that
-- `handle_command_topic` passes on.
pub data Feature : Type 0 where
  quiet units : Feature

unfoldable pub feature_value : Feature → Bool → Request
feature_value Feature.quiet enabled = record no_request { mask = control_quiet; quiet = enabled }
feature_value Feature.units enabled = record no_request {
  mask = control_units_fahrenheit;
  units_fahrenheit = enabled;
}

-- `strcmp(value, "ON")`, `strcmp(value, "OFF")`
unfoldable pub parse_switch : List ℕ → Option Bool
parse_switch value =
    if same_bytes value text_on
    then some true
    else if same_bytes value text_off_upper
    then some false
    else none

-- `queue_request`: the return value, after which `state_pending` is set where it is true.
unfoldable pub queue_request : Profile → ℕ → Request → Service → Bool × Service
queue_request p now r s =
    if not (mitm_active p s.hardware_ready)
    then (false, s)
    else (let (err, _, t) = queue_control p now r s in (is_taken err, t))

-- A handler's last lines: an error is published, or the request is queued.
unfoldable pub queue_parsed : Profile → ℕ → Option Request → Service → Bool × Service
unfolding queue_request
queue_parsed p now none s = (false, s)
queue_parsed p now (some r) s = queue_request p now r s

module _ (j : Library) where
  -- The request of each command's payload, `none` for one that is refused.
  unfoldable pub climate_payload : List ℕ → Option Request
  unfolding parse_complete_json item_text item_number item_boolean climate_request
  climate_payload bytes = elim (parse_complete_json j bytes) [
    | none ↦ none
    | some root ↦ elim (item_text (j.get root key_mode)) [
      | none ↦ none
      | some mode ↦ elim (item_number 18 32 (j.get root key_target_temp)) [
        | none ↦ none
        | some temperature ↦ elim (item_text (j.get root key_fan)) [
          | none ↦ none
          | some fan ↦ elim (item_boolean (j.get root key_power)) [
            | none ↦ none
            | some power ↦ climate_request (mode, temperature, fan, power)
          ]
        ]
      ]
    ]
  ]

  unfoldable pub mode_payload : List ℕ → Option Request
  unfolding parse_string_payload mode_command
  mode_payload bytes = elim (parse_string_payload j bytes 24) [
    | none ↦ none
    | some value ↦ elim (parse_mode_name value) [
      | none ↦ none
      | some mode ↦ some (mode_command mode)
    ]
  ]

  unfoldable pub temperature_payload : List ℕ → Option Request
  unfolding parse_integer_payload temperature_command
  temperature_payload bytes = elim (parse_integer_payload j bytes) [
    | none ↦ none
    | some value ↦ temperature_command value
  ]

  unfoldable pub fan_payload : List ℕ → Option Request
  unfolding parse_string_payload
  fan_payload bytes = elim (parse_string_payload j bytes 16) [
    | none ↦ none
    | some value ↦ elim (parse_fan_name value) [
      | none ↦ none
      | some fan ↦ some (record no_request { mask = control_fan; fan = fan })
    ]
  ]

  unfoldable pub power_payload : List ℕ → Option Request
  unfolding parse_string_payload parse_switch
  power_payload bytes = elim (parse_string_payload j bytes 8) [
    | none ↦ none
    | some value ↦ elim (parse_switch value) [
      | none ↦ none
      | some on ↦ some (record no_request { mask = control_power; power = on })
    ]
  ]

  unfoldable pub feature_payload : Feature → List ℕ → Option Request
  unfolding parse_string_payload parse_switch feature_value
  feature_payload feature bytes = elim (parse_string_payload j bytes 8) [
    | none ↦ none
    | some value ↦ elim (parse_switch value) [
      | none ↦ none
      | some on ↦ some (feature_value feature on)
    ]
  ]

-- The topics in `s_mqtt`, `climate_set_topic` and the others.
pub record Topics : Type 0 where
  pub climate_set : List ℕ
  pub mode_set : List ℕ
  pub temperature_set : List ℕ
  pub fan_set : List ℕ
  pub power_set : List ℕ
  pub quiet_set : List ℕ
  pub units_set : List ℕ

-- `handle_command_topic` up to the call of `queue_request`.
unfoldable pub topic_request : Library → Topics → List ℕ → List ℕ → Option Request
unfolding climate_payload mode_payload temperature_payload fan_payload power_payload feature_payload
topic_request j n topic bytes =
    if same_bytes topic n.climate_set
    then climate_payload j bytes
    else if same_bytes topic n.mode_set
    then mode_payload j bytes
    else if same_bytes topic n.temperature_set
    then temperature_payload j bytes
    else if same_bytes topic n.fan_set
    then fan_payload j bytes
    else if same_bytes topic n.power_set
    then power_payload j bytes
    else if same_bytes topic n.quiet_set
    then feature_payload j Feature.quiet bytes
    else if same_bytes topic n.units_set
    then feature_payload j Feature.units bytes
    else none

-- `handle_command_topic`: whether a request was queued.
unfoldable pub handle_command_topic :
    Library → Profile → ℕ → Topics → List ℕ → List ℕ → Service → Bool × Service
unfolding topic_request queue_parsed
handle_command_topic j p now n topic bytes s =
    if not (mitm_active p s.hardware_ready)
    then (false, s)
    else queue_parsed p now (topic_request j n topic bytes) s

-- ===== src/Tests/Commands.antt =====
-- The commands of the broker, of the Zigbee network and of the web page.
use lin_tac09cpbpsl_esp32c.Common.{
  ◌≡◌, bit_or, not, ◌&&◌, refl, Bool, true, false, [], ◌∷◌, none, some, has, ◌==◌, if◌then◌else◌,
  arith,
}
use lin_tac09cpbpsl_esp32c.Protocol.Types.{Mode, Fan, Request}
use lin_tac09cpbpsl_esp32c.Protocol.Parse.{valid_setpoint}
use lin_tac09cpbpsl_esp32c.Bridge.Types.{AcState, CommandStatus, Service}
use lin_tac09cpbpsl_esp32c.Bridge.Match.{is_cool}
use lin_tac09cpbpsl_esp32c.Bridge.Queue.{set_hardware_ready}
use lin_tac09cpbpsl_esp32c.Bridge.Boot.{boot}
use lin_tac09cpbpsl_esp32c.Bridge.Command.{command}
use lin_tac09cpbpsl_esp32c.Bridge.Invariant.{IsValid}
use lin_tac09cpbpsl_esp32c.Bridge.Reach.{Step, Reach}
use lin_tac09cpbpsl_esp32c.Clients.Reach.{Caller, serve, serve-IsValid}
use lin_tac09cpbpsl_esp32c.Bridge.Update.{same_bytes, no_request}
use lin_tac09cpbpsl_esp32c.Protocol.Wire.{
  control_power, control_setpoint, control_mode, control_fan,
}
use lin_tac09cpbpsl_esp32c.Protocol.Control.{is_control_mode, is_control_fan}
use lin_tac09cpbpsl_esp32c.Clients.Issue.{Issued}
use lin_tac09cpbpsl_esp32c.Clients.Names.{text_dry, text_low, parse_mode_name, parse_fan_name}
use lin_tac09cpbpsl_esp32c.Clients.Zigbee.{
  Zcl, Message, mode_request, fan_request, setpoint_request, send, set_attr_value_handler,
}
use lin_tac09cpbpsl_esp32c.Clients.Zigbee.Issue.{is_success, set_attr_value_handler-Issued}
use lin_tac09cpbpsl_esp32c.Clients.Zigbee.Report.{
  Attributes, IsZcl, refresh_state, refresh_state-asked,
}
use lin_tac09cpbpsl_esp32c.Clients.Json.{Item, Library}
use lin_tac09cpbpsl_esp32c.Clients.Mqtt.Payload.{c_string, is_space_only, parse_complete_json}
use lin_tac09cpbpsl_esp32c.Clients.Mqtt.{
  key_mode, key_target_temp, key_fan, key_power, queue_request, climate_payload, Topics,
}
use lin_tac09cpbpsl_esp32c.Clients.Mqtt.Refused.{climate_payload-refused}
use lin_tac09cpbpsl_esp32c.Clients.Web.{secure_token_equal, control_handler}
use lin_tac09cpbpsl_esp32c.Clients.Web.Issue.{is_accepted, control_handler-Issued}
use lin_tac09cpbpsl_esp32c.Clients.Web.Token.{secure_token_equal-eq-same_bytes}
use lin_tac09cpbpsl_esp32c.Tests.Runs.{mitm_nts, live, etm_route, all_ok}

-- The numbers of the Zigbee Cluster Library.
abbrev pub zcl : Zcl
zcl = record {
  mode_off = 0;
  mode_cool = 3;
  mode_fan_only = 7;
  mode_dry = 8;
  fan_off = 0;
  fan_low = 1;
  fan_high = 3;
  fan_auto = 5;
  type_bool = 0x10;
  type_enum8 = 0x30;
  type_int16 = 0x29;
  thermostat_cluster = 0x0201;
  fan_cluster = 0x0202;
  system_mode_attr = 0x001c;
  occupied_attr = 0x0011;
  unoccupied_attr = 0x0013;
  fan_mode_attr = 0;
  no_temperature = 0x8000;
  running_off = 0;
  sequence_low_high_auto = 2;
}

zcl-IsZcl : IsZcl zcl
zcl-IsZcl = record {
  off_cool = λ e. omega arith;
  off_fan = λ e. omega arith;
  off_dry = λ e. omega arith;
  cool_fan = λ e. omega arith;
  cool_dry = λ e. omega arith;
  fan_dry = λ e. omega arith;
  fan_off_low = λ e. omega arith;
  fan_off_high = λ e. omega arith;
  fan_off_auto = λ e. omega arith;
  low_high = λ e. omega arith;
}

-- The setpoint 25 for the thermostat.
abbrev pub set_25 : Message
set_25 = record {
  status_ok = true;
  dst_ep = 1;
  server = true;
  cluster_id = 0x0201;
  attr_id = 0x0011;
  data_type = 0x29;
  value = some 2500;
}

set_attr_value_handler-Issued_example :
    let r = set_attr_value_handler zcl mitm_nts 1000000 set_25 live in
    Issued mitm_nts 1000000 live (is_success r.0) r.1
set_attr_value_handler-Issued_example =
    set_attr_value_handler-Issued zcl mitm_nts 1000000 set_25 live

abbrev no_attributes : Attributes
no_attributes = record {
  joined = false;
  control_available = false;
  system_mode = 0;
  fan_mode = 0;
  local_temperature = 0;
  occupied_cooling_setpoint = 0;
  unoccupied_cooling_setpoint = 0;
  running_mode = 0;
  fan_mode_sequence = 0;
  main_link_valid = false;
  panel_link_valid = false;
  mitm_active = false;
  command_pending = false;
  panel_event = false;
  quiet = false;
  units_fahrenheit = false;
  timer = false;
  rf_connected = false;
  raw_mode_fan_code = 0;
  operation_code = 0;
  sensor_1_raw = 0;
  sensor_2_raw = 0;
  command_status = CommandStatus.none;
  main_age_ms = none;
  panel_age_ms = none;
  command_sequence = 0;
  command_timeouts = 0;
  checksum_errors = 0;
  framing_errors = 0;
  injected_frames = 0;
}

-- On with the mode Cool and the low speed at 24 degrees.
abbrev cooling_on : AcState
cooling_on = record (live.state) { power = true; mode = Mode.cool; fan = Fan.low; setpoint_c = 24 }

-- The setpoint that is written to the thermostat's cluster.
abbrev setpoint_message : Message
setpoint_message = record {
  status_ok = true;
  dst_ep = 1;
  server = true;
  cluster_id = 0x0201;
  attr_id = 0x0011;
  data_type = 0x29;
  value = some 2400;
}

cooling_on-known : (not (is_control_mode Mode.cool && is_control_fan Fan.low)) ≡ false
unfolding is_control_mode is_control_fan
cooling_on-known = refl

setpoint_24-valid : valid_setpoint 24 ≡ true
unfolding valid_setpoint
setpoint_24-valid = refl

refresh_state-asked_example :
    let b = refresh_state zcl (some 10) none cooling_on no_attributes in
    (mode_request zcl b.system_mode
      ≡ some (record no_request {
        mask = bit_or control_power control_mode;
        power = true;
        mode = Mode.cool;
      }))
    × (fan_request zcl b.fan_mode ≡ some (record no_request { mask = control_fan; fan = Fan.low }))
    × (setpoint_request zcl mitm_nts 1000000 setpoint_message b.occupied_cooling_setpoint live
        ≡ send mitm_nts 1000000
            (record no_request { mask = control_setpoint; setpoint_c = 24 })
            live)
refresh_state-asked_example =
    refresh_state-asked zcl zcl-IsZcl (some 10) none cooling_on no_attributes mitm_nts 1000000
      setpoint_message live cooling_on-known setpoint_24-valid refl

-- A library that reads every text as one object, for a climate command with the mode Dry.
abbrev pub plain : Library
plain = record {
  Value = Bool;
  parse_opts = λ bytes. some (true, []);
  parse = λ bytes. some true;
  is_object = λ v. v;
  string_of = λ v. if v then none else some [];
  get = λ v key.
      if same_bytes key key_mode
      then some (Item.text text_dry)
      else if same_bytes key key_target_temp
      then some (Item.number false 24 false)
      else if same_bytes key key_fan
      then some (Item.text text_low)
      else if same_bytes key key_power
      then some (Item.boolean true)
      else none;
  calloc = λ n. true;
  is_space = λ x. x == 32;
  is_digit = λ x. false;
  strtol = λ bytes. (false, 0, 0);
}

abbrev pub topics : Topics
topics = record {
  climate_set = 1 ∷ [];
  mode_set = 2 ∷ [];
  temperature_set = 3 ∷ [];
  fan_set = 4 ∷ [];
  power_set = 5 ∷ [];
  quiet_set = 6 ∷ [];
  units_set = 7 ∷ [];
}

abbrev dry_24 : Request
dry_24 = record {
  mask = 15;
  power = true;
  setpoint_c = 24;
  mode = Mode.dry;
  fan = Fan.low;
  raw_mode_fan_code = 0;
  quiet = false;
  units_fahrenheit = false;
  timer = false;
}

dry_24-asked : climate_payload plain (123 ∷ 125 ∷ []) ≡ some dry_24
unfolding climate_payload parse_complete_json is_space_only c_string same_bytes parse_mode_name
    parse_fan_name
dry_24-asked = refl

climate_payload-refused_example : queue_request mitm_nts 1000000 dry_24 live ≡ (false, live)
unfolding has is_cool
climate_payload-refused_example =
    climate_payload-refused plain (123 ∷ 125 ∷ []) dry_24 mitm_nts 1000000 live dry_24-asked refl
      refl

control_handler-Issued_example :
    let r = control_handler plain mitm_nts 1000000 true (some (123 ∷ 125 ∷ [])) live in
    Issued mitm_nts 1000000 live (is_accepted r.0) r.1
control_handler-Issued_example =
    control_handler-Issued plain mitm_nts 1000000 true (some (123 ∷ 125 ∷ [])) live

secure_token_equal-eq-same_bytes_example :
    secure_token_equal (1 ∷ 2 ∷ []) (1 ∷ 3 ∷ []) ≡ same_bytes (1 ∷ 2 ∷ []) (1 ∷ 3 ∷ [])
secure_token_equal-eq-same_bytes_example =
    secure_token_equal-eq-same_bytes (1 ∷ 2 ∷ []) (1 ∷ 3 ∷ [])

-- The service after the hardware has become ready, and a command of the Zigbee network for it.
abbrev readied : Service
readied = set_hardware_ready mitm_nts all_ok true (boot mitm_nts etm_route)

serve-IsValid_example :
    IsValid (command (serve mitm_nts 1000000 (Caller.zigbee zcl set_25) readied))
serve-IsValid_example =
    serve-IsValid mitm_nts etm_route readied 1000000 (Caller.zigbee zcl set_25) (omega arith)
      (Reach.next Reach.here (Step.ready (boot mitm_nts etm_route) all_ok true))

-- ===== src/Clients/Zigbee.antt =====
-- optional_components/zigbee_service/zigbee_service.c: the commands of the Zigbee network. The
-- numbers of the Zigbee Cluster Library belong to the SDK: they are a parameter.
pub mod Issue
pub mod Report
use lin_tac09cpbpsl_esp32c.Common.{
  ℕ, ◌/◌, ◌%◌, ◌^◌, bit_or, Bool, true, false, not, ◌&&◌, ◌||◌, Option, none, some, ltb, leb, ◌==◌,
  if◌then◌else◌,
}
use lin_tac09cpbpsl_esp32c.Protocol.Types.{Mode, Fan, Request}
use lin_tac09cpbpsl_esp32c.Protocol.Wire.{
  control_power, control_setpoint, control_mode, control_fan, control_quiet,
  control_units_fahrenheit,
}
use lin_tac09cpbpsl_esp32c.Bridge.Types.{Profile, AcState, Service}
use lin_tac09cpbpsl_esp32c.Bridge.Update.{no_request}
use lin_tac09cpbpsl_esp32c.Bridge.Queue.{mitm_active, queue_control}
use lin_tac09cpbpsl_esp32c.Clients.Issue.{is_taken}

-- The enumerators and identifiers of the SDK that the code names.
pub record Zcl : Type 0 where
  pub mode_off : ℕ
  pub mode_cool : ℕ
  pub mode_fan_only : ℕ
  pub mode_dry : ℕ
  pub fan_off : ℕ
  pub fan_low : ℕ
  pub fan_high : ℕ
  pub fan_auto : ℕ
  pub type_bool : ℕ
  pub type_enum8 : ℕ
  pub type_int16 : ℕ
  pub thermostat_cluster : ℕ
  pub fan_cluster : ℕ
  pub system_mode_attr : ℕ
  pub occupied_attr : ℕ
  pub unoccupied_attr : ℕ
  pub fan_mode_attr : ℕ
  pub no_temperature : ℕ
  pub running_off : ℕ
  pub sequence_low_high_auto : ℕ

-- ZIGBEE_ENDPOINT, KLIMA_CLUSTER_ID, KLIMA_ATTR_QUIET, KLIMA_ATTR_UNITS_FAHRENHEIT
abbrev pub zigbee_endpoint : ℕ
zigbee_endpoint = 1

abbrev pub klima_cluster : ℕ
klima_cluster = 0xfc10

abbrev pub klima_attr_quiet : ℕ
klima_attr_quiet = 0x0020

abbrev pub klima_attr_units : ℕ
klima_attr_units = 0x0021

-- The status in `out.result`, EZB_ZCL_STATUS_...
pub data Status : Type 0 where
  success unsup_attrib invalid_type invalid_value not_authorized read_only : Status

-- `ezb_zcl_set_attr_value_message_t`: whether `info.status` is a success and the role is the
-- server's, and the bytes that `data.value` points to as a number, the lowest first.
pub record Message : Type 0 where
  pub status_ok : Bool
  pub dst_ep : ℕ
  pub server : Bool
  pub cluster_id : ℕ
  pub attr_id : ℕ
  pub data_type : ℕ
  pub value : Option ℕ

-- `queue_control`
unfoldable pub zigbee_queue : Profile → ℕ → Request → Service → Bool × Service
unfolding is_taken
zigbee_queue p now r s =
    if not (mitm_active p s.hardware_ready)
    then (false, s)
    else (let (err, _, t) = queue_control p now r s in (is_taken err, t))

-- `message->out.result = queue_control(&request) ? ... : ...`
unfoldable pub send : Profile → ℕ → Request → Service → Status × Service
unfolding zigbee_queue
send p now r s =
    let (taken, t) = zigbee_queue p now r s in
    (if taken then Status.success else Status.not_authorized, t)

-- `setpoint_request`; the value is an `int16_t`.
unfoldable pub setpoint_request : Zcl → Profile → ℕ → Message → ℕ → Service → Status × Service
unfolding send
setpoint_request z p now m n s =
    let value = n % 2 ^ 16 in
    if not (m.data_type == z.type_int16)
    then (Status.invalid_type, s)
    else if leb (2 ^ 15) value || ltb value 1800 || ltb 3200 value || not (value % 100 == 0)
    then (Status.invalid_value, s)
    else send p now
        (record no_request { mask = control_setpoint; setpoint_c = (value / 100) % 2 ^ 8 }) s

-- The branch for the attributes of the vendor's cluster.
unfoldable pub feature_request : Zcl → Profile → ℕ → Message → ℕ → Service → Status × Service
unfolding send
feature_request z p now m n s =
    let enabled = not (n % 2 ^ 8 == 0) in
    if not (m.attr_id == klima_attr_quiet || m.attr_id == klima_attr_units)
    then (Status.read_only, s)
    else if not (m.data_type == z.type_bool)
    then (Status.invalid_type, s)
    else send p now
        (if m.attr_id == klima_attr_quiet
          then record no_request { mask = control_quiet; quiet = enabled }
          else record no_request { mask = control_units_fahrenheit; units_fahrenheit = enabled })
        s

-- The `switch` on the system mode.
unfoldable pub mode_request : Zcl → ℕ → Option Request
mode_request z mode =
    if mode == z.mode_off
    then some (record no_request { mask = control_power; power = false })
    else if mode == z.mode_cool
    then some (record no_request {
      mask = bit_or control_power control_mode;
      power = true;
      mode = Mode.cool;
    })
    else if mode == z.mode_fan_only
    then some (record no_request {
      mask = bit_or control_power control_mode;
      power = true;
      mode = Mode.fan;
    })
    else if mode == z.mode_dry
    then some (record no_request {
      mask = bit_or control_power control_mode;
      power = true;
      mode = Mode.dry;
    })
    else none

-- The tests on the fan mode.
unfoldable pub fan_request : Zcl → ℕ → Option Request
fan_request z mode =
    if mode == z.fan_low
    then some (record no_request { mask = control_fan; fan = Fan.low })
    else if mode == z.fan_high || mode == z.fan_auto
    then some (record no_request { mask = control_fan; fan = Fan.high })
    else none

-- An enumerator of eight bits, with the request that it stands for, if any.
unfoldable pub enum_request :
    Zcl → Profile → ℕ → Message → Option Request → Service → Status × Service
unfolding send
enum_request z p now m request s =
    if not (m.data_type == z.type_enum8)
    then (Status.invalid_type, s)
    else elim request [ none ↦ (Status.invalid_value, s) | some r ↦ send p now r s ]

-- The cluster of the fan.
unfoldable pub fan_cluster_request : Zcl → Profile → ℕ → Message → ℕ → Service → Status × Service
unfolding enum_request fan_request
fan_cluster_request z p now m n s =
    if m.cluster_id == z.fan_cluster && m.attr_id == z.fan_mode_attr
    then enum_request z p now m (fan_request z (n % 2 ^ 8)) s
    else (Status.unsup_attrib, s)

-- The clusters of the SDK: where the thermostat's has no such attribute, the fan's is tried.
unfoldable pub cluster_request : Zcl → Profile → ℕ → Message → ℕ → Service → Status × Service
unfolding enum_request mode_request setpoint_request fan_cluster_request
cluster_request z p now m n s =
    if m.cluster_id == z.thermostat_cluster && m.attr_id == z.system_mode_attr
    then enum_request z p now m (mode_request z (n % 2 ^ 8)) s
    else if m.cluster_id == z.thermostat_cluster
        && (m.attr_id == z.occupied_attr || m.attr_id == z.unoccupied_attr)
    then setpoint_request z p now m n s
    else fan_cluster_request z p now m n s

-- `set_attr_value_handler`
unfoldable pub set_attr_value_handler : Zcl → Profile → ℕ → Message → Service → Status × Service
unfolding feature_request cluster_request
set_attr_value_handler z p now m s =
    if not m.status_ok || not (m.dst_ep == zigbee_endpoint) || not m.server
    then (Status.unsup_attrib, s)
    else elim (m.value) [
      | none ↦ (Status.unsup_attrib, s)
      | some n ↦
          if m.cluster_id == klima_cluster
          then feature_request z p now m n s
          else cluster_request z p now m n s
    ]

-- `system_mode_for_state`
unfoldable pub system_mode_for_state : Zcl → AcState → ℕ
system_mode_for_state z state = if not state.power then z.mode_off else elim (state.mode) [
  | Mode.cool ↦ z.mode_cool
  | Mode.fan ↦ z.mode_fan_only
  | Mode.dry ↦ z.mode_dry
  | Mode.unknown ↦ z.mode_off
]

-- `fan_mode_for_state`
unfoldable pub fan_mode_for_state : Zcl → AcState → ℕ
fan_mode_for_state z state =
    if not state.power
    then z.fan_off
    else elim (state.fan) [ Fan.low ↦ z.fan_low | Fan.high ↦ z.fan_high | _ ↦ z.fan_off ]

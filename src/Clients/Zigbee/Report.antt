-- ===== src/Clients/Zigbee/Report.antt =====
-- optional_components/zigbee_service/zigbee_service.c: the attributes that the device reports, and
-- the commands that set them.
use lin_tac09cpbpsl_esp32c.Common.{
  ℕ, ◌*◌, ◌/◌, ◌%◌, ◌^◌, ◌≤◌, ◌≡◌, ◌≢◌, bit_or, Bool, refl, ◌∙◌, Bool-cases, inl, inr, true, false,
  not, ◌==◌, ◌||◌, ◌&&◌, Option, none, some, ltb, leb, has, if◌then◌else◌, arith,
}
use lin_tac09cpbpsl_esp32c.Protocol.Types.{Mode, Request}
use lin_tac09cpbpsl_esp32c.Protocol.Wire.{
  control_power, control_setpoint, control_mode, control_fan, feature_quiet,
  feature_units_fahrenheit, feature_timer,
}
use lin_tac09cpbpsl_esp32c.Protocol.Parse.{valid_setpoint}
use lin_tac09cpbpsl_esp32c.Protocol.Control.{is_control_mode, is_control_fan}
use lin_tac09cpbpsl_esp32c.Bridge.Types.{Profile, AcState, Service, CommandStatus}
use lin_tac09cpbpsl_esp32c.Bridge.Update.{no_request}
use lin_tac09cpbpsl_esp32c.Clients.Zigbee.{
  Zcl, Message, mode_request, fan_request, setpoint_request, send, system_mode_for_state,
  fan_mode_for_state,
}

-- `zigbee_ctx_t` without `started` and `report_failures`.
pub record Attributes : Type 0 where
  pub joined : Bool
  pub control_available : Bool
  pub system_mode : ℕ
  pub fan_mode : ℕ
  pub local_temperature : ℕ
  pub occupied_cooling_setpoint : ℕ
  pub unoccupied_cooling_setpoint : ℕ
  pub running_mode : ℕ
  pub fan_mode_sequence : ℕ
  pub main_link_valid : Bool
  pub panel_link_valid : Bool
  pub mitm_active : Bool
  pub command_pending : Bool
  pub panel_event : Bool
  pub quiet : Bool
  pub units_fahrenheit : Bool
  pub timer : Bool
  pub rf_connected : Bool
  pub raw_mode_fan_code : ℕ
  pub operation_code : ℕ
  pub sensor_1_raw : ℕ
  pub sensor_2_raw : ℕ
  pub command_status : CommandStatus
  pub main_age_ms : Option ℕ
  pub panel_age_ms : Option ℕ
  pub command_sequence : ℕ
  pub command_timeouts : ℕ
  pub checksum_errors : ℕ
  pub framing_errors : ℕ
  pub injected_frames : ℕ

-- The age of a link, at most INT32_MAX; `none` is the age -1 of a link without a frame.
unfoldable pub capped : Option ℕ → Option ℕ
capped none = none
capped (some age) = some (if ltb 0x7fff_ffff age then 0x7fff_ffff else age)

-- `setpoint`, 24 where the state's is out of range.
unfoldable pub reported_setpoint : ℕ → ℕ
reported_setpoint setpoint_c = if leb 18 setpoint_c && leb setpoint_c 32 then setpoint_c else 24

-- `refresh_state_locked`, with the ages of the two links. A temperature is the bit pattern of an
-- `int16_t`.
unfoldable pub refresh_state : Zcl → Option ℕ → Option ℕ → AcState → Attributes → Attributes
unfolding capped reported_setpoint system_mode_for_state fan_mode_for_state
refresh_state z main_age panel_age state a = record {
  joined = a.joined;
  control_available = state.mitm_active && state.main_valid && state.panel_valid;
  system_mode = system_mode_for_state z state;
  fan_mode = fan_mode_for_state z state;
  local_temperature = elim (state.mode) [
    | Mode.cool ↦ z.no_temperature
    | _ ↦ (state.main_display_temperature_c * 100) % 2 ^ 16
  ];
  occupied_cooling_setpoint = (reported_setpoint state.setpoint_c * 100) % 2 ^ 16;
  unoccupied_cooling_setpoint = (reported_setpoint state.setpoint_c * 100) % 2 ^ 16;
  running_mode = if state.power then system_mode_for_state z state else z.running_off;
  fan_mode_sequence = z.sequence_low_high_auto;
  main_link_valid = state.main_valid;
  panel_link_valid = state.panel_valid;
  mitm_active = state.mitm_active;
  command_pending = state.command_pending;
  panel_event = state.panel_event;
  quiet = has state.feature_flags feature_quiet;
  units_fahrenheit = has state.feature_flags feature_units_fahrenheit;
  timer = has state.feature_flags feature_timer;
  rf_connected = a.joined;
  raw_mode_fan_code = state.mode_fan_code;
  operation_code = state.operation_code;
  sensor_1_raw = state.sensor_1_raw;
  sensor_2_raw = state.sensor_2_raw;
  command_status = state.command_status;
  main_age_ms = capped main_age;
  panel_age_ms = capped panel_age;
  command_sequence = state.command_sequence;
  command_timeouts = state.command_timeouts;
  checksum_errors = state.checksum_errors;
  framing_errors = state.framing_errors;
  injected_frames = state.injected_frames;
}

-- The enumerators of one kind differ.
pub record IsZcl (z : Zcl) : Type 0 where
  pub off_cool : z.mode_off ≢ z.mode_cool
  pub off_fan : z.mode_off ≢ z.mode_fan_only
  pub off_dry : z.mode_off ≢ z.mode_dry
  pub cool_fan : z.mode_cool ≢ z.mode_fan_only
  pub cool_dry : z.mode_cool ≢ z.mode_dry
  pub fan_dry : z.mode_fan_only ≢ z.mode_dry
  pub fan_off_low : z.fan_off ≢ z.fan_low
  pub fan_off_high : z.fan_off ≢ z.fan_high
  pub fan_off_auto : z.fan_off ≢ z.fan_auto
  pub low_high : z.fan_low ≢ z.fan_high

-- What the reported modes ask for when they are written back; a mode without a name is reported as
-- off.
abbrev asked_mode : AcState → Request
asked_mode state =
    if state.power && is_control_mode state.mode
    then record no_request {
      mask = bit_or control_power control_mode;
      power = true;
      mode = state.mode;
    }
    else record no_request { mask = control_power; power = false }

abbrev asked_fan : AcState → Option Request
asked_fan state =
    if state.power && is_control_fan state.fan
    then some (record no_request { mask = control_fan; fan = state.fan })
    else none

asked_known :
    (state : AcState)
    → (state.power && not (is_control_mode state.mode && is_control_fan state.fan)) ≡ false
    → some (asked_mode state)
      ≡ some (
          if state.power
          then record no_request {
            mask = bit_or control_power control_mode;
            power = true;
            mode = state.mode;
          }
          else record no_request { mask = control_power; power = false })
asked_known state h = elim (Bool-cases (state.power)) [
  | inl on ↦ let known : is_control_mode state.mode ≡ true = ground arith in rw (on, known) refl
  | inr off ↦ rw off refl
]

asked_speed :
    (state : AcState)
    → (state.power && not (is_control_mode state.mode && is_control_fan state.fan)) ≡ false
    → asked_fan state ≡ (
        if state.power
        then some (record no_request { mask = control_fan; fan = state.fan })
        else none)
asked_speed state h = elim (Bool-cases (state.power)) [
  | inl on ↦ let known : is_control_fan state.fan ≡ true = ground arith in rw (on, known) refl
  | inr off ↦ rw off refl
]

mode_back :
    (z : Zcl)
    → IsZcl z
    → (state : AcState) → mode_request z (system_mode_for_state z state) ≡ some (asked_mode state)
unfolding system_mode_for_state mode_request is_control_mode
mode_back z v state =
    ground (arith, v.off_cool, v.off_fan, v.off_dry, v.cool_fan, v.cool_dry, v.fan_dry)

fan_back :
    (z : Zcl)
    → IsZcl z
    → (state : AcState) → fan_request z (fan_mode_for_state z state) ≡ asked_fan state
unfolding fan_mode_for_state fan_request is_control_fan
fan_back z v state = ground (arith, v.fan_off_low, v.fan_off_high, v.fan_off_auto, v.low_high)

setpoint_back :
    (n : ℕ)
    → valid_setpoint n ≡ true
    → let value = (reported_setpoint n * 100) % 2 ^ 16 in
      (1800 ≤ value) × (value ≤ 3200) × (value % 100 ≡ 0) × ((value % 2 ^ 16 / 100) % 2 ^ 8 ≡ n)
unfolding reported_setpoint valid_setpoint
setpoint_back n h = ground arith

setpoint_request-send :
    (z : Zcl) (p : Profile) (now : ℕ) (m : Message) (value n : ℕ) (s : Service)
    → m.data_type ≡ z.type_int16
    → 1800 ≤ value
    → value ≤ 3200
    → value % 100 ≡ 0
    → (value % 2 ^ 16 / 100) % 2 ^ 8 ≡ n
    → setpoint_request z p now m value s
      ≡ send p now (record no_request { mask = control_setpoint; setpoint_c = n }) s
unfolding setpoint_request
setpoint_request-send z p now m value n s t low high whole e =
    let typed : not (m.data_type == z.type_int16) ≡ false = ground (arith, t) in
    let taken : (leb (2 ^ 15) (value % 2 ^ 16)
          || ltb (value % 2 ^ 16) 1800
          || ltb 3200 (value % 2 ^ 16)
          || not (value % 2 ^ 16 % 100 == 0))
        ≡ false =
      ground arith in
    rw (typed, taken, e) refl

-- Where the SDK's numbers of modes and fan speeds differ, and of a state with a setpoint from 18 to 32
-- degrees that is off, or is on with the mode Cool, Fan or Dry and the fan speed low or high, the device
-- reports what asks for this state when it is written back: the mode asks for the power and the mode
-- of a state that is on, and for the power off of one that is off; the fan mode asks for the fan speed
-- of a state that is on, and for nothing where it is off; and the setpoint, written with its type, is
-- sent to the bridge as a request for this setpoint, whatever the bridge's state is by then.
pub refresh_state-asked :
    (z : Zcl)
    → IsZcl z
    → (main_age panel_age : Option ℕ) (state : AcState) (a : Attributes) (p : Profile) (now : ℕ)
      (m : Message) (s : Service)
    → (state.power && not (is_control_mode state.mode && is_control_fan state.fan)) ≡ false
    → valid_setpoint state.setpoint_c ≡ true
    → m.data_type ≡ z.type_int16
    → let b = refresh_state z main_age panel_age state a in
      (mode_request z b.system_mode
        ≡ some (
            if state.power
            then record no_request {
              mask = bit_or control_power control_mode;
              power = true;
              mode = state.mode;
            }
            else record no_request { mask = control_power; power = false }))
      × (fan_request z b.fan_mode ≡ (
          if state.power
          then some (record no_request { mask = control_fan; fan = state.fan })
          else none))
      × (setpoint_request z p now m b.occupied_cooling_setpoint s
          ≡ send p now
              (record no_request { mask = control_setpoint; setpoint_c = state.setpoint_c })
              s)
unfolding refresh_state
refresh_state-asked z v main_age panel_age state a p now m s known valid typed =
    let (low, high, whole, same) = setpoint_back state.setpoint_c valid in
    (
      mode_back z v state ∙ asked_known state known,
      fan_back z v state ∙ asked_speed state known,
      setpoint_request-send z p now m _ state.setpoint_c s typed low high whole same,
    )

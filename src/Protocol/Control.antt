-- ===== src/Protocol/Control.antt =====
-- main/ac_protocol.c: a control request written into a frame of the panel or of the main board.
-- The stages stand for the `if` statements of the two functions, in their order.
use lin_tac09cpbpsl_esp32c.Common.{
  ℕ, ◌-◌, bit_and, bit_or, Bool, true, false, not, ◌&&◌, ◌||◌, List, get_or, set, has, Option, none,
  some, if◌then◌else◌,
}
use lin_tac09cpbpsl_esp32c.Protocol.Types.{Mode, Fan, PanelState, MainState, Request}
use lin_tac09cpbpsl_esp32c.Protocol.Wire.{
  panel_frame_size, main_frame_size, power_bit, feature_units_fahrenheit, feature_quiet,
  feature_timer, control_power, control_setpoint, control_mode, control_fan, control_raw_mode_fan,
  control_quiet, control_units_fahrenheit, control_timer,
}
use lin_tac09cpbpsl_esp32c.Protocol.Frame.{finalize, panel_to_main_mode_fan, main_to_panel_mode_fan}
use lin_tac09cpbpsl_esp32c.Protocol.Parse.{parse_panel, parse_main, valid_setpoint, encode_setpoint}

-- The three enumerators of `ac_mode_t` that a request may name.
unfoldable pub is_control_mode : Mode → Bool
is_control_mode Mode.unknown = false
is_control_mode _ = true

-- `fan == AC_FAN_LOW || fan == AC_FAN_HIGH`
unfoldable pub is_control_fan : Fan → Bool
is_control_fan Fan.low = true
is_control_fan Fan.high = true
is_control_fan _ = false

-- The enumerator's value, `(uint8_t)fan`.
unfoldable pub fan_code : Fan → ℕ
fan_code Fan.unknown = 0
fan_code Fan.low = 1
fan_code Fan.mode_default = 2
fan_code Fan.high = 3

-- The three early returns on a request with a field out of range.
unfoldable pub rejects : Request → Bool
unfolding is_control_mode is_control_fan valid_setpoint
rejects r =
    (has r.mask control_setpoint && not (valid_setpoint r.setpoint_c))
    || (has r.mask control_mode && not (is_control_mode r.mode))
    || (has r.mask control_fan && not (is_control_fan r.fan))

-- What `requested_mode_fan` reads of the panel state.
pub record Current : Type 0 where
  pub mode_fan_code : ℕ
  pub mode : Mode
  pub fan : Fan

-- The code for a mode and a fan speed, or `fallback` where the mode is not known.
unfoldable pub mode_fan_of : Mode → Fan → ℕ → ℕ
unfolding is_control_fan fan_code
mode_fan_of Mode.dry fan fallback = 0x43
mode_fan_of Mode.fan fan fallback = 0x22
mode_fan_of Mode.cool fan fallback =
    bit_or 0x30 (fan_code (if is_control_fan fan then fan else Fan.low))
mode_fan_of Mode.unknown fan fallback = fallback

-- `requested_mode_fan`
unfoldable pub requested_mode_fan : Current → Request → ℕ
unfolding mode_fan_of
requested_mode_fan current r =
    if has r.mask control_raw_mode_fan
    then r.raw_mode_fan_code
    else mode_fan_of (if has r.mask control_mode then r.mode else current.mode)
        (if has r.mask control_fan then r.fan else current.fan) current.mode_fan_code

-- `on ? (byte | flag) : (byte & (uint8_t)~flag)`
unfoldable pub set_flag : ℕ → Bool → ℕ → ℕ
set_flag flag on byte = if on then bit_or byte flag else bit_and byte (0xff - flag)

-- A command to switch on, over a remembered setpoint that is not valid.
unfoldable pub needs_bootstrap : ℕ → Request → Bool
needs_bootstrap setpoint_c r =
    has r.mask control_power && r.power && not (valid_setpoint setpoint_c)

abbrev pub mode_fan_mask : ℕ
mode_fan_mask = bit_or (bit_or control_mode control_fan) control_raw_mode_fan

-- Cool/Low at 18 degrees; `encoded` is the index of the second temperature byte.
unfoldable pub bootstrap_frame : ℕ → Bool → List ℕ → List ℕ
bootstrap_frame encoded boot frame =
    if boot then set (set (set frame 4 0x31) 6 18) encoded (encode_setpoint 18) else frame

unfoldable pub bootstrap_current : Bool → Current → Current
bootstrap_current boot current =
    if boot then record { mode_fan_code = 0x31; mode = Mode.cool; fan = Fan.low } else current

-- One `if` statement that sets or clears a flag of byte 5.
unfoldable pub write_flag : Request → ℕ → ℕ → Bool → List ℕ → List ℕ
unfolding set_flag
write_flag r control flag on frame =
    if has r.mask control then set frame 5 (set_flag flag on (get_or frame 5 0)) else frame

unfoldable pub write_setpoint : ℕ → Request → List ℕ → List ℕ
write_setpoint encoded r frame =
    if has r.mask control_setpoint
    then set (set frame 6 r.setpoint_c) encoded (encode_setpoint r.setpoint_c)
    else frame

-- The statements from the power bit to the timer bit.
unfoldable pub write_features : ℕ → Request → List ℕ → List ℕ
unfolding write_flag write_setpoint
write_features encoded r frame =
    let f1 = write_flag r control_power power_bit r.power frame in
    let f2 = write_setpoint encoded r f1 in
    let f3 = write_flag r control_quiet feature_quiet r.quiet f2 in
    let f4 = write_flag r control_units_fahrenheit feature_units_fahrenheit r.units_fahrenheit f3 in
    write_flag r control_timer feature_timer r.timer f4

unfoldable pub write_mode_fan : Request → ℕ → List ℕ → List ℕ
write_mode_fan r code frame = if has r.mask mode_fan_mask then set frame 4 code else frame

-- The body of `ac_protocol_apply_control` after its early returns.
unfoldable pub write_panel : PanelState → Request → Bool → List ℕ → List ℕ
unfolding bootstrap_frame bootstrap_current write_mode_fan write_features
write_panel state r event frame =
    let f0 = set frame 3 (if event then 0x12 else 0x11) in
    let boot = needs_bootstrap state.setpoint_c r in
    let f1 = bootstrap_frame 9 boot f0 in
    let current =
      bootstrap_current boot
        (record { mode_fan_code = state.mode_fan_code; mode = state.mode; fan = state.fan }) in
    let f2 = write_mode_fan r (requested_mode_fan current r) f1 in write_features 9 r f2

-- `ac_protocol_apply_control`: `none` is the return value false, which leaves the frame alone.
unfoldable pub apply_control : List ℕ → Request → Bool → Option (List ℕ)
apply_control frame r event = elim (parse_panel frame) [
  | none ↦ none
  | some state ↦
      if rejects r then none else some (finalize (write_panel state r event frame) panel_frame_size)
]

-- The body of `ac_protocol_apply_control_main` after its early returns.
unfoldable pub write_main : MainState → Request → Bool → List ℕ → List ℕ
unfolding bootstrap_frame bootstrap_current write_mode_fan write_features
write_main state r event frame =
    let f0 = set frame 3 (if event then 0x12 else 0x11) in
    let boot = needs_bootstrap state.display_temperature_c r in
    let f1 = bootstrap_frame 14 boot f0 in
    let current = bootstrap_current boot (record {
      mode_fan_code = main_to_panel_mode_fan state.mode_fan_code;
      mode = state.mode;
      fan = state.fan;
    }) in
    let f2 = write_mode_fan r (panel_to_main_mode_fan (requested_mode_fan current r)) f1 in
    write_features 14 r f2

-- `ac_protocol_apply_control_main`: `none` is the return value false.
unfoldable pub apply_control_main : List ℕ → Request → Bool → Option (List ℕ)
apply_control_main frame r event = elim (parse_main frame) [
  | none ↦ none
  | some state ↦
      if rejects r then none else some (finalize (write_main state r event frame) main_frame_size)
]

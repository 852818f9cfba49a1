-- ===== src/Protocol/Parse.antt =====
-- main/ac_protocol.c: decoding of the mode/fan byte and of whole frames.
use lin_tac09cpbpsl_esp32c.Common.{
  ℕ, ◌+◌, ◌*◌, ◌/◌, ◌%◌, ◌^◌, bit_and, Bool, not, ◌&&◌, ◌||◌, List, get_or, leb, ◌==◌, has, Option,
  none, some, if◌then◌else◌,
}
use lin_tac09cpbpsl_esp32c.Protocol.Types.{Mode, Fan, PanelState, MainState}
use lin_tac09cpbpsl_esp32c.Protocol.Wire.{panel_frame_size, main_frame_size, power_bit}
use lin_tac09cpbpsl_esp32c.Protocol.Frame.{checksum_valid, expected_size}

-- `decode_mode`: the high digit, where it is one of the three enumerators.
unfoldable pub decode_mode : ℕ → Mode
decode_mode mode_fan_code =
    let code = bit_and (mode_fan_code / 2 ^ 4) 0x0f in
    if code == 2
    then Mode.fan
    else if code == 3
    then Mode.cool
    else if code == 4
    then Mode.dry
    else Mode.unknown

-- `decode_fan`: the low digit, where it is one of the three enumerators.
unfoldable pub decode_fan : ℕ → Fan
decode_fan mode_fan_code =
    let code = bit_and mode_fan_code 0x0f in
    if code == 1
    then Fan.low
    else if code == 2
    then Fan.mode_default
    else if code == 3
    then Fan.high
    else Fan.unknown

-- The fields that `ac_protocol_parse_panel` reads from a frame that it accepts.
unfoldable pub panel_fields : List ℕ → PanelState
unfolding decode_mode decode_fan
panel_fields frame = record {
  event = get_or frame 3 0 == 0x12;
  power = has (get_or frame 5 0) power_bit;
  feature_flags = bit_and (get_or frame 5 0) 0x7f;
  mode_fan_code = get_or frame 4 0;
  mode = decode_mode (get_or frame 4 0);
  fan = decode_fan (get_or frame 4 0);
  setpoint_c = get_or frame 6 0;
  setpoint_encoded = get_or frame 9 0;
  flags_7 = get_or frame 7 0;
  flags_8 = get_or frame 8 0;
  flags_10 = get_or frame 10 0;
  flags_11 = get_or frame 11 0;
  flags_12 = get_or frame 12 0;
  flags_13 = get_or frame 13 0;
}

-- `ac_protocol_parse_panel`: `none` is the return value false, which writes no state.
unfoldable pub parse_panel : List ℕ → Option PanelState
parse_panel frame =
    if not (expected_size frame 3 == panel_frame_size)
      || not (checksum_valid frame panel_frame_size)
    then none
    else some (panel_fields frame)

-- The fields that `ac_protocol_parse_main` reads from a frame that it accepts.
unfoldable pub main_fields : List ℕ → MainState
unfolding decode_mode decode_fan
main_fields frame = record {
  event = get_or frame 3 0 == 0x12;
  power = has (get_or frame 5 0) power_bit;
  feature_flags = bit_and (get_or frame 5 0) 0x7f;
  mode_fan_code = get_or frame 4 0;
  mode = decode_mode (get_or frame 4 0);
  fan = decode_fan (get_or frame 4 0);
  display_temperature_c = get_or frame 6 0;
  operation_code = get_or frame 8 0;
  sensor_1_raw = get_or frame 11 0;
  sensor_2_raw = get_or frame 12 0;
  display_temperature_encoded = get_or frame 14 0;
  flags_7 = get_or frame 7 0;
  flags_9 = get_or frame 9 0;
  flags_10 = get_or frame 10 0;
  flags_13 = get_or frame 13 0;
  constant_15 = get_or frame 15 0;
}

-- `ac_protocol_parse_main`: `none` is the return value false, which writes no state.
unfoldable pub parse_main : List ℕ → Option MainState
parse_main frame =
    if not (expected_size frame 3 == main_frame_size) || not (checksum_valid frame main_frame_size)
    then none
    else some (main_fields frame)

-- `ac_protocol_valid_setpoint`
unfoldable pub valid_setpoint : ℕ → Bool
valid_setpoint setpoint_c = leb 18 setpoint_c && leb setpoint_c 32

-- `ac_protocol_encode_setpoint`: degrees Fahrenheit, cast to a byte.
unfoldable pub encode_setpoint : ℕ → ℕ
encode_setpoint setpoint_c = ((setpoint_c * 9 + 2) / 5 + 32) % 2 ^ 8

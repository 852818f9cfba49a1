-- ===== src/Protocol/Types.antt =====
-- main/ac_protocol.h: the enumerations and the structures.
use lin_tac09cpbpsl_esp32c.Common.{ℕ, Bool}

-- `ac_mode_t`
pub data Mode : Type 0 where
  unknown fan cool dry : Mode

-- `ac_fan_t`
pub data Fan : Type 0 where
  unknown low mode_default high : Fan

-- `ac_panel_state_t`
pub record PanelState : Type 0 where
  pub event : Bool
  pub power : Bool
  pub feature_flags : ℕ
  pub mode_fan_code : ℕ
  pub mode : Mode
  pub fan : Fan
  pub setpoint_c : ℕ
  pub setpoint_encoded : ℕ
  pub flags_7 : ℕ
  pub flags_8 : ℕ
  pub flags_10 : ℕ
  pub flags_11 : ℕ
  pub flags_12 : ℕ
  pub flags_13 : ℕ

-- `ac_main_state_t`
pub record MainState : Type 0 where
  pub event : Bool
  pub power : Bool
  pub feature_flags : ℕ
  pub mode_fan_code : ℕ
  pub mode : Mode
  pub fan : Fan
  pub display_temperature_c : ℕ
  pub operation_code : ℕ
  pub sensor_1_raw : ℕ
  pub sensor_2_raw : ℕ
  pub display_temperature_encoded : ℕ
  pub flags_7 : ℕ
  pub flags_9 : ℕ
  pub flags_10 : ℕ
  pub flags_13 : ℕ
  pub constant_15 : ℕ

-- `ac_control_request_t`
pub record Request : Type 0 where
  pub mask : ℕ
  pub power : Bool
  pub setpoint_c : ℕ
  pub mode : Mode
  pub fan : Fan
  pub raw_mode_fan_code : ℕ
  pub quiet : Bool
  pub units_fahrenheit : Bool
  pub timer : Bool

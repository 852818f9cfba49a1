-- ===== src/Protocol/Wire.antt =====
-- main/ac_protocol.h: the macros and the bits of `ac_control_mask_t`.
use lin_tac09cpbpsl_esp32c.Common.{ℕ}

abbrev pub header_0 : ℕ
header_0 = 0x54

abbrev pub header_1 : ℕ
header_1 = 0x44

abbrev pub xor_target : ℕ
xor_target = 0x10

abbrev pub panel_body_length : ℕ
panel_body_length = 0x0b

abbrev pub main_body_length : ℕ
main_body_length = 0x12

abbrev pub panel_frame_size : ℕ
panel_frame_size = 15

abbrev pub main_frame_size : ℕ
main_frame_size = 22

abbrev pub max_frame_size : ℕ
max_frame_size = 64

abbrev pub power_bit : ℕ
power_bit = 0x80

abbrev pub feature_units_fahrenheit : ℕ
feature_units_fahrenheit = 0x08

abbrev pub feature_quiet : ℕ
feature_quiet = 0x10

abbrev pub feature_timer : ℕ
feature_timer = 0x20

abbrev pub control_power : ℕ
control_power = 1

abbrev pub control_setpoint : ℕ
control_setpoint = 2

abbrev pub control_mode : ℕ
control_mode = 4

abbrev pub control_fan : ℕ
control_fan = 8

abbrev pub control_raw_mode_fan : ℕ
control_raw_mode_fan = 16

abbrev pub control_quiet : ℕ
control_quiet = 32

abbrev pub control_units_fahrenheit : ℕ
control_units_fahrenheit = 64

abbrev pub control_timer : ℕ
control_timer = 128

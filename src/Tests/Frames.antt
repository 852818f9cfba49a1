-- ===== src/Tests/Frames.antt =====
-- main/ac_protocol.c at the frames of tests/protocol_host_test.c.
use lin_tac09cpbpsl_esp32c.Common.{
  ℕ, ◌+◌, ◌<◌, get_or, ◌≡◌, refl, true, false, List, [], ◌∷◌, length, some, has,
}
use lin_tac09cpbpsl_esp32c.Protocol.Types.{Mode, Fan, PanelState, Request, MainState}
use lin_tac09cpbpsl_esp32c.Protocol.Wire.{panel_frame_size, main_frame_size}
use lin_tac09cpbpsl_esp32c.Protocol.Frame.{xor, xor_loop, known_size, checksum_valid, expected_size}
use lin_tac09cpbpsl_esp32c.Protocol.Parse.{
  parse_panel, panel_fields, valid_setpoint, main_fields, parse_main,
}
use lin_tac09cpbpsl_esp32c.Protocol.Control.{
  rejects, apply_control, is_control_mode, is_control_fan, apply_control_main,
}
use lin_tac09cpbpsl_esp32c.Protocol.Readback.{Applied, apply_control-Applied}
use lin_tac09cpbpsl_esp32c.Bridge.Match.{panel_state_matches_request}
use lin_tac09cpbpsl_esp32c.Bridge.Merge.{is_exclusive}
use lin_tac09cpbpsl_esp32c.Bridge.Shown.{apply_control-shows}
use lin_tac09cpbpsl_esp32c.Protocol.ReadbackMain.{AppliedMain, apply_control_main-AppliedMain}

-- Cool/Low at 18 degrees, switched off: `panel_off`.
abbrev pub captured_panel : List ℕ
captured_panel =
    0x54 ∷ 0x44 ∷ 0x0b ∷ 0x11 ∷ 0x31 ∷ 0x00 ∷ 0x12 ∷ 0x00 ∷ 0x00 ∷ 0x40 ∷ 0x00 ∷ 0x00 ∷ 0x00 ∷ 0x00
    ∷ 0x79 ∷ []

-- The same state, as the main board shows it: `main_off`.
abbrev pub captured_main : List ℕ
captured_main =
    0x54 ∷ 0x44 ∷ 0x12 ∷ 0x11 ∷ 0x31 ∷ 0x00 ∷ 0x12 ∷ 0x00 ∷ 0x00 ∷ 0x00 ∷ 0x00 ∷ 0x2c ∷ 0x2c ∷ 0x00
    ∷ 0x40 ∷ 0x0a ∷ 0x00 ∷ 0x00 ∷ 0x00 ∷ 0x00 ∷ 0x00 ∷ 0x6a ∷ []

-- Power on, Cool/High at 24 degrees, quiet.
abbrev pub cool_24 : Request
cool_24 = record {
  mask = 0x2f;
  power = true;
  setpoint_c = 24;
  mode = Mode.cool;
  fan = Fan.high;
  raw_mode_fan_code = 0;
  quiet = true;
  units_fahrenheit = false;
  timer = false;
}

captured_panel-parses : parse_panel captured_panel ≡ some (panel_fields captured_panel)
unfolding parse_panel expected_size checksum_valid known_size xor xor_loop
captured_panel-parses = refl

cool_24-accepted : rejects cool_24 ≡ false
unfolding rejects has valid_setpoint is_control_mode is_control_fan
cool_24-accepted = refl

cool_24-exclusive : is_exclusive cool_24 ≡ true
unfolding is_exclusive has
cool_24-exclusive = refl

apply_control-shows_example :
    (out : List ℕ) × (new : PanelState) × (apply_control captured_panel cool_24 true ≡ some out)
    × (parse_panel out ≡ some new)
    × (panel_state_matches_request new cool_24 ≡ true)
apply_control-shows_example =
    apply_control-shows captured_panel cool_24 true refl captured_panel-parses cool_24-accepted
      cool_24-exclusive

apply_control-Applied_example :
    (out : List ℕ) × (apply_control captured_panel cool_24 true ≡ some out)
    × (length out ≡ panel_frame_size)
    × (new : PanelState) × (parse_panel out ≡ some new)
    × Applied (panel_fields captured_panel) cool_24 true new
apply_control-Applied_example =
    apply_control-Applied captured_panel cool_24 true refl captured_panel-parses cool_24-accepted

captured_main-parses : parse_main captured_main ≡ some (main_fields captured_main)
unfolding parse_main expected_size checksum_valid known_size xor xor_loop
captured_main-parses = refl

apply_control_main-AppliedMain_example :
    (out : List ℕ) × (apply_control_main captured_main cool_24 true ≡ some out)
    × (length out ≡ main_frame_size)
    × (new : MainState) × (parse_main out ≡ some new)
    × AppliedMain (main_fields captured_main) cool_24 true new
    × ((k : ℕ) → 15 < k → k + 1 < main_frame_size → get_or out k 0 ≡ get_or captured_main k 0)
apply_control_main-AppliedMain_example =
    apply_control_main-AppliedMain captured_main cool_24 true refl captured_main-parses
      cool_24-accepted

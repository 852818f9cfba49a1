-- ===== src/Bridge/Match.antt =====
-- main/bridge_service.c: whether a decoded state shows what a request asks for.
use lin_tac09cpbpsl_esp32c.Common.{Bool, true, false, ◌&&◌, ◌==◌, same, has, if◌then◌else◌}
use lin_tac09cpbpsl_esp32c.Protocol.Types.{Mode, Fan, PanelState, MainState, Request}
use lin_tac09cpbpsl_esp32c.Protocol.Wire.{
  feature_units_fahrenheit, feature_quiet, feature_timer, control_power, control_setpoint,
  control_mode, control_fan, control_raw_mode_fan, control_quiet, control_units_fahrenheit,
  control_timer,
}
use lin_tac09cpbpsl_esp32c.Protocol.Frame.{panel_to_main_mode_fan}

-- `==` of `ac_mode_t`
unfoldable pub same_mode : Mode → Mode → Bool
same_mode Mode.unknown Mode.unknown = true
same_mode Mode.fan Mode.fan = true
same_mode Mode.cool Mode.cool = true
same_mode Mode.dry Mode.dry = true
same_mode _ _ = false

-- `==` of `ac_fan_t`
unfoldable pub same_fan : Fan → Fan → Bool
same_fan Fan.unknown Fan.unknown = true
same_fan Fan.low Fan.low = true
same_fan Fan.mode_default Fan.mode_default = true
same_fan Fan.high Fan.high = true
same_fan _ _ = false

-- `mode == AC_MODE_COOL`
unfoldable pub is_cool : Mode → Bool
is_cool Mode.cool = true
is_cool _ = false

-- One `if` of the chain: the test counts only where the request has the field.
unfoldable pub wants : Bool → Bool → Bool
wants asked holds = if asked then holds else true

-- `panel_state_matches_request`
unfoldable pub panel_state_matches_request : PanelState → Request → Bool
unfolding wants
panel_state_matches_request state r =
    wants (has r.mask control_power) (same state.power r.power)
    && wants (has r.mask control_setpoint) (state.setpoint_c == r.setpoint_c)
    && wants (has r.mask control_mode) (same_mode state.mode r.mode)
    && wants (has r.mask control_fan && is_cool state.mode) (same_fan state.fan r.fan)
    && wants (has r.mask control_raw_mode_fan) (state.mode_fan_code == r.raw_mode_fan_code)
    && wants (has r.mask control_quiet) (same (has state.feature_flags feature_quiet) r.quiet)
    && wants (has r.mask control_units_fahrenheit)
        (same (has state.feature_flags feature_units_fahrenheit) r.units_fahrenheit)
    && wants (has r.mask control_timer) (same (has state.feature_flags feature_timer) r.timer)

-- The `confirmed` of `update_main_state`.
unfoldable pub main_state_confirms : MainState → Request → Bool
unfolding wants
main_state_confirms parsed r =
    wants (has r.mask control_power) (same parsed.power r.power)
    && wants (has r.mask control_setpoint)
        (is_cool parsed.mode && parsed.display_temperature_c == r.setpoint_c)
    && wants (has r.mask control_mode) (same_mode parsed.mode r.mode)
    && wants (has r.mask control_fan && is_cool parsed.mode) (same_fan parsed.fan r.fan)
    && wants (has r.mask control_raw_mode_fan)
        (parsed.mode_fan_code == panel_to_main_mode_fan r.raw_mode_fan_code)
    && wants (has r.mask control_quiet) (same (has parsed.feature_flags feature_quiet) r.quiet)
    && wants (has r.mask control_units_fahrenheit)
        (same (has parsed.feature_flags feature_units_fahrenheit) r.units_fahrenheit)
    && wants (has r.mask control_timer) (same (has parsed.feature_flags feature_timer) r.timer)

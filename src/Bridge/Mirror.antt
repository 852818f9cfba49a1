-- ===== src/Bridge/Mirror.antt =====
-- main/bridge_service.c: `set_panel_to_main_hardware_mirror_enabled`. The drivers' calls belong to
-- ESP-IDF: their results are arguments, and a call that succeeds has its effect.
use lin_tac09cpbpsl_esp32c.Common.{ℕ, Bool, true, false, not, ◌==◌, same, if◌then◌else◌}
use lin_tac09cpbpsl_esp32c.Bridge.Types.{Profile, Route, Service}

-- The `esp_err_t` of each driver call of one run, 0 for `ESP_OK`; the calls that undo the others
-- are best effort.
pub record Results : Type 0 where
  pub pin : ℕ
  pub rise : ℕ
  pub fall : ℕ
  pub undo_rise : ℕ
  pub undo_fall : ℕ
  pub undo_pin : ℕ

-- What a call leaves of a switch: the wanted value, if the call succeeded.
unfoldable pub after_call : ℕ → Bool → Bool → Bool
after_call result wanted old = if result == 0 then wanted else old

-- The UART's TX pin is disconnected before the channels are enabled.
unfoldable pub enable_mirror : Results → Route → ℕ × Route
unfolding after_call
enable_mirror d route =
    if not (d.pin == 0)
    then (d.pin, route)
    else if not (d.rise == 0)
    then (d.rise, record route { uart_on = after_call d.undo_pin true false })
    else if not (d.fall == 0)
    then (
      d.fall,
      record route {
        rise_on = after_call d.undo_rise false true;
        uart_on = after_call d.undo_pin true false;
      },
    )
    else (0, record { rise_on = true; fall_on = true; uart_on = false; enabled = true })

-- The UART's TX pin is connected after both channels are disabled.
unfoldable pub disable_mirror : Results → Route → ℕ × Route
unfolding after_call
disable_mirror d route =
    if not (d.rise == 0)
    then (d.rise, route)
    else if not (d.fall == 0)
    then (d.fall, record route { rise_on = after_call d.undo_rise true false })
    else if not (d.pin == 0)
    then (
      d.pin,
      record route {
        rise_on = after_call d.undo_rise true false;
        fall_on = after_call d.undo_fall true false;
      },
    )
    else (0, record { rise_on = false; fall_on = false; uart_on = true; enabled = false })

-- `set_panel_to_main_hardware_mirror_enabled`; a build without the panel's hardware route has the
-- second definition, which does nothing.
unfoldable pub set_mirror_enabled : Profile → Results → Bool → Route → ℕ × Route
unfolding enable_mirror disable_mirror
set_mirror_enabled p d on route =
    if not p.panel_hardware_forward
    then (0, route)
    else if same route.enabled on
    then (0, route)
    else if on
    then enable_mirror d route
    else disable_mirror d route

-- The calls that restore the route, whose result is only reported.
unfoldable pub restore_mirror : Profile → Results → Service → Service
restore_mirror p d s = record s { route = (set_mirror_enabled p d true s.route).1 }

-- ===== src/Bridge/Rollback.antt =====
-- main/bridge_service.c: what a failed switch of the hardware route leaves behind.
use lin_tac09cpbpsl_esp32c.Common.{◌≡◌, Bool, true, not, ◌&&◌, ◌==◌, if◌then◌else◌, arith}
use lin_tac09cpbpsl_esp32c.Bridge.Types.{Profile, Route}
use lin_tac09cpbpsl_esp32c.Bridge.Mirror.{
  Results, after_call, enable_mirror, disable_mirror, set_mirror_enabled,
}

-- Both edge channels carry the panel's line, and the UART's pin does not, or the other way round.
pub record IsRoute (route : Route) : Type 0 where
  pub rise : route.rise_on ≡ route.enabled
  pub fall : route.fall_on ≡ route.enabled
  pub uart : route.uart_on ≡ not route.enabled

-- The calls that undo the others succeed.
unfoldable pub undoes : Results → Bool
undoes d = d.undo_rise == 0 && d.undo_fall == 0 && d.undo_pin == 0

-- A switch of the route that starts from a consistent one, and whose undoing calls succeed, ends in
-- a consistent one whichever of its calls fails: the wanted one, if the function reports success in
-- a build that has the route, and else the one that it started from.
pub set_mirror_enabled-IsRoute :
    (p : Profile) (d : Results) (on : Bool) (route : Route)
    → IsRoute route
    → undoes d ≡ true
    → let (result, t) = set_mirror_enabled p d on route in
      IsRoute t
      × (t.enabled ≡ (if p.panel_hardware_forward && result == 0 then on else route.enabled))
unfolding set_mirror_enabled enable_mirror disable_mirror after_call undoes
set_mirror_enabled-IsRoute p d on route v h = (
  record {
    rise = ground (arith, v.rise, v.fall, v.uart);
    fall = ground (arith, v.rise, v.fall, v.uart);
    uart = ground (arith, v.rise, v.fall, v.uart);
  },
  ground (arith, v.rise, v.fall, v.uart),
)

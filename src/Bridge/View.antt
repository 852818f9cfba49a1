-- ===== src/Bridge/View.antt =====
-- main/bridge_service.c: `bridge_service_get_ac_state`, the state as the clients see it. The levels
-- and the edge counters of the pads, which it adds, belong to the probes.
use lin_tac09cpbpsl_esp32c.Common.{
  ℕ, ◌-◌, ◌/◌, ◌<◌, ◌≡◌, Bool, true, ◌&&◌, Option, none, some, leb, ◌==◌, if◌then◌else◌, arith,
}
use lin_tac09cpbpsl_esp32c.Bridge.Types.{AcState, Service}
use lin_tac09cpbpsl_esp32c.Bridge.Queue.{link_fresh_ms, is_fresh, links_fresh}

-- `main_age_ms` and `panel_age_ms`; `none` is -1. A difference that is negative in C is 0 here, and
-- passes the test on the age as it does there.
unfoldable pub age_ms : ℕ → ℕ → Option ℕ
age_ms now time = if time == 0 then none else some ((now - time) / 1000)

-- `age_ms <= BRIDGE_LINK_FRESH_MS`
unfoldable pub is_recent : Option ℕ → Bool
is_recent none = true
is_recent (some age) = leb age link_fresh_ms

-- `bridge_service_get_ac_state`, with the two ages.
unfoldable pub get_ac_state : ℕ → Service → AcState × Option ℕ × Option ℕ
unfolding age_ms is_recent
get_ac_state now s =
    let main_age = age_ms now s.main_frame_time_us in
    let panel_age = age_ms now s.panel_frame_time_us in
    (
      record (s.state) {
        main_valid = s.state.main_valid && is_recent main_age;
        panel_valid = s.state.panel_valid && is_recent panel_age;
      },
      main_age,
      panel_age,
    )

-- Once each side has sent a frame, the clients see both links as valid exactly while
-- `bridge_service_queue_control` takes them as fresh.
pub get_ac_state-links_fresh :
    (now : ℕ) (s : Service)
    → 0 < s.main_frame_time_us
    → 0 < s.panel_frame_time_us
    → let state = (get_ac_state now s).0 in
      (state.main_valid && state.panel_valid) ≡ links_fresh now s
unfolding get_ac_state age_ms is_recent links_fresh is_fresh
get_ac_state-links_fresh now s h k = ground arith

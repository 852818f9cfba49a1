-- ===== src/Bridge/Tasks.antt =====
-- main/bridge_service.c: one round of `control_takeover_task` and of `control_watchdog_task`.
use lin_tac09cpbpsl_esp32c.Common.{
  ℕ, ◌-◌, ◌/◌, Bool, true, false, not, ◌&&◌, ltb, leb, ◌==◌, if◌then◌else◌,
}
use lin_tac09cpbpsl_esp32c.Bridge.Types.{Profile, CommandStatus, Service}
use lin_tac09cpbpsl_esp32c.Bridge.Mirror.{Results, set_mirror_enabled, restore_mirror}
use lin_tac09cpbpsl_esp32c.Bridge.Update.{inc32, closed_overlay, close_command, finish_command}

-- BRIDGE_STREAM_TIMEOUT_US
abbrev pub stream_timeout_us : ℕ
stream_timeout_us = 30000

-- BRIDGE_COMMAND_CONFIRM_TIMEOUT_MS
abbrev pub confirm_timeout_ms : ℕ
confirm_timeout_ms = 5000

-- The tests of the takeover task before it takes the route: a pending takeover, and no byte of
-- the panel for the whole gap between frames.
unfoldable pub takeover_due : ℕ → Service → Bool
takeover_due now s =
    let reference =
      if not (s.panel_last_byte_us == 0) then s.panel_last_byte_us else s.overlay.queued_time_us in
    s.overlay.active
    && s.overlay.takeover_pending
    && not (reference == 0)
    && not (ltb (now - reference) stream_timeout_us)

-- The second critical section, after the driver's `result`.
unfoldable pub takeover_finish : ℕ → Service → Service
unfolding closed_overlay close_command
takeover_finish result s =
    if result == 0 && s.overlay.active && s.overlay.takeover_pending
    then record s {
      overlay = record (s.overlay) { takeover_pending = false; takeover_ready = true };
    }
    else if not (result == 0) && s.overlay.active
    then close_command CommandStatus.cancelled (closed_overlay s.overlay) s
    else s

-- The route is switched off between the two critical sections.
unfoldable pub takeover_switch : Profile → Results → Service → ℕ × Service
takeover_switch p d s =
    let (result, route) = set_mirror_enabled p d false s.route in
    (result, record s { route = route })

-- One round of `control_takeover_task` that no other task interrupts.
unfoldable pub takeover_round : Profile → Results → ℕ → Service → Service
unfolding takeover_finish takeover_switch
takeover_round p d now s =
    if takeover_due now s
    then (let (result, t) = takeover_switch p d s in takeover_finish result t)
    else s

-- The test of the watchdog.
unfoldable pub watchdog_due : ℕ → Service → Bool
watchdog_due now s =
    s.overlay.confirmation_pending
    && ltb 0 s.overlay.queued_time_us
    && leb confirm_timeout_ms ((now - s.overlay.queued_time_us) / 1000)

unfoldable pub count_timeout : Service → Service
count_timeout s = record s {
  state = record (s.state) { command_timeouts = inc32 s.state.command_timeouts };
}

-- One round of `control_watchdog_task`.
unfoldable pub watchdog_round : Profile → Results → ℕ → Service → Service
unfolding finish_command count_timeout
watchdog_round p d now s =
    if watchdog_due now s
    then restore_mirror p d (count_timeout (finish_command CommandStatus.timed_out s))
    else s

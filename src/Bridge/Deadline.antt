-- ===== src/Bridge/Deadline.antt =====
-- main/bridge_service.c: what `control_watchdog_task` does to a command before and after its
-- deadline.
use lin_tac09cpbpsl_esp32c.Common.{
  ℕ, ◌+◌, ◌-◌, ◌/◌, ◌≤◌, ◌<◌, ◌≡◌, refl, true, false, ◌⊎◌, leb, arith,
}
use lin_tac09cpbpsl_esp32c.Bridge.Types.{Profile, CommandStatus, Service}
use lin_tac09cpbpsl_esp32c.Bridge.Mirror.{Results, restore_mirror}
use lin_tac09cpbpsl_esp32c.Bridge.Update.{inc32, no_request, finish_command}
use lin_tac09cpbpsl_esp32c.Bridge.Tasks.{
  confirm_timeout_ms, watchdog_due, count_timeout, watchdog_round,
}
use lin_tac09cpbpsl_esp32c.Bridge.Command.{command}
use lin_tac09cpbpsl_esp32c.Bridge.Invariant.{IsValid}

-- 5 s in microseconds.
abbrev pub deadline_us : ℕ
deadline_us = 5000000

elapsed :
    (now queued : ℕ)
    → leb confirm_timeout_ms ((now - queued) / 1000) ≡ leb deadline_us (now - queued)
elapsed now queued = ground arith

due_of :
    (now : ℕ) (s : Service)
    → IsValid (command s)
    → s.overlay.active ≡ true
    → s.overlay.queued_time_us + deadline_us ≤ now
    → watchdog_due now s ≡ true
unfolding watchdog_due
due_of now s v a h = ground (arith, elapsed now s.overlay.queued_time_us, v.confirm, v.queued a)

-- From five seconds after it was queued on, an active command is ended by the next round of the
-- watchdog: it is shown as timed out, no request is left, and the time-out is counted.
pub watchdog_round-expires :
    (p : Profile) (d : Results) (now : ℕ) (s : Service)
    → IsValid (command s)
    → s.overlay.active ≡ true
    → s.overlay.queued_time_us + deadline_us ≤ now
    → let t = watchdog_round p d now s in
      (t.overlay.active ≡ false)
      × (t.state.command_pending ≡ false)
      × (t.state.command_status ≡ CommandStatus.timed_out)
      × (t.state.command_timeouts ≡ inc32 s.state.command_timeouts)
      × (t.overlay.request ≡ no_request)
unfolding watchdog_round restore_mirror finish_command count_timeout
watchdog_round-expires p d now s v a h = rw (due_of now s v a h) (refl, refl, refl, refl, refl)

-- Before the deadline of an active command, and where there is none, a round of the watchdog
-- changes nothing at all.
pub watchdog_round-early :
    (p : Profile) (d : Results) (now : ℕ) (s : Service)
    → IsValid (command s)
    → (s.overlay.active ≡ false) ⊎ (now < s.overlay.queued_time_us + deadline_us)
    → watchdog_round p d now s ≡ s
unfolding watchdog_round watchdog_due
watchdog_round-early p d now s v h = ground (arith, elapsed now s.overlay.queued_time_us, v.confirm)

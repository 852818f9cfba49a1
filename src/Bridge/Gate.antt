-- ===== src/Bridge/Gate.antt =====
-- main/bridge_service.c: what `bridge_service_queue_control` lets through, and what the hardware
-- interlock does to a command.
use lin_tac09cpbpsl_esp32c.Common.{
  ℕ, ◌≡◌, refl, ◌∙◌, ◌↔◌, Bool, true, false, not, ◌&&◌, ◌==◌, has, Bool-cases, inl, inr, arith,
}
use lin_tac09cpbpsl_esp32c.Protocol.Types.{Request}
use lin_tac09cpbpsl_esp32c.Protocol.Wire.{control_timer}
use lin_tac09cpbpsl_esp32c.Protocol.Control.{rejects}
use lin_tac09cpbpsl_esp32c.Bridge.Types.{Profile, Service}
use lin_tac09cpbpsl_esp32c.Bridge.Mirror.{Results, restore_mirror}
use lin_tac09cpbpsl_esp32c.Bridge.Update.{closed_overlay, close_command}
use lin_tac09cpbpsl_esp32c.Bridge.Queue.{
  EspErr, mitm_active, links_fresh, setpoint_out_of_mode, queue_control, set_hardware_ready,
}
use lin_tac09cpbpsl_esp32c.Bridge.Command.{command}
use lin_tac09cpbpsl_esp32c.Bridge.Invariant.{IsValid}

-- What a request must meet to be taken.
unfoldable pub admits : Profile → ℕ → Request → Service → Bool
admits p now r s =
    not (r.mask == 0)
    && mitm_active p s.hardware_ready
    && not (rejects r)
    && not (has r.mask control_timer)
    && links_fresh now s
    && not (setpoint_out_of_mode r s)

-- A request is taken exactly where every check passes.
pub queue_control-ok_iff :
    (p : Profile) (now : ℕ) (r : Request) (s : Service)
    → ((queue_control p now r s).0 ≡ EspErr.ok) ↔ (admits p now r s ≡ true)
unfolding queue_control admits
queue_control-ok_iff p now r s = ground arith

-- A request that is not taken leaves the service as it was, and no number is given out.
pub queue_control-refused :
    (p : Profile) (now : ℕ) (r : Request) (s : Service)
    → admits p now r s ≡ false
    → ((queue_control p now r s).1 ≡ 0) × ((queue_control p now r s).2 ≡ s)
unfolding queue_control admits
queue_control-refused p now r s h = ground arith

-- While the translator's interlock is open no request is taken, whatever the profile.
pub queue_control-closed :
    (p : Profile) (now : ℕ) (r : Request) (s : Service)
    → s.hardware_ready ≡ false
    → (queue_control p now r s).2 ≡ s
unfolding queue_control mitm_active
queue_control-closed p now r s h = ground arith

mitm_active-closed : (p : Profile) → mitm_active p false ≡ false
unfolding mitm_active
mitm_active-closed p = ground arith

-- Withdrawing the hardware leaves no command active and no takeover under way, and the next
-- request is refused.
pub set_hardware_ready-closed :
    (p q : Profile) (d : Results) (s : Service) (now : ℕ) (r : Request)
    → IsValid (command s)
    → let t = set_hardware_ready p d false s in
      (t.overlay.active ≡ false)
      × (t.overlay.takeover_pending ≡ false)
      × (t.overlay.takeover_ready ≡ false)
      × (t.state.command_pending ≡ false)
      × (t.state.mitm_active ≡ false)
      × ((queue_control q now r t).2 ≡ t)
unfolding set_hardware_ready restore_mirror mitm_active closed_overlay close_command
set_hardware_ready-closed p q d s now r v = elim (Bool-cases s.overlay.active) [
  | inl e ↦ rw e (refl, refl, refl, refl, mitm_active-closed p, queue_control-closed q now r _ refl)
  | inr e ↦ rw e (
    refl,
    ground (arith, v.takeover_active),
    ground (arith, v.takeover_active),
    v.pending ∙ e,
    mitm_active-closed p,
    queue_control-closed q now r _ refl,
  )
]

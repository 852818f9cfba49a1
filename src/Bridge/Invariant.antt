-- ===== src/Bridge/Invariant.antt =====
-- main/bridge_service.c: the invariant of the command.
use lin_tac09cpbpsl_esp32c.Common.{
  ℕ, ◌<◌, ◌≡◌, refl, Bool, true, false, not, ◌&&◌, ◌||◌, Bool-cases, ◌⊎◌, inl, inr, ◌==◌,
  if◌then◌else◌, arith, has,
}
use lin_tac09cpbpsl_esp32c.Protocol.Types.{Request}
use lin_tac09cpbpsl_esp32c.Bridge.Types.{Profile, CommandStatus, Overlay, Service}
use lin_tac09cpbpsl_esp32c.Bridge.Update.{no_request, closed_overlay, close_command, finish_command}
use lin_tac09cpbpsl_esp32c.Bridge.Queue.{EspErr, accept_control, queue_control}
use lin_tac09cpbpsl_esp32c.Bridge.Merge.{IsSound, merge_request-IsSound, no_request-IsSound}
use lin_tac09cpbpsl_esp32c.Bridge.Tasks.{takeover_finish}
use lin_tac09cpbpsl_esp32c.Bridge.Frames.{cancel_by_panel, take_event}
use lin_tac09cpbpsl_esp32c.Bridge.Command.{Command, command}
use lin_tac09cpbpsl_esp32c.Protocol.Control.{rejects}
use lin_tac09cpbpsl_esp32c.Protocol.Wire.{control_timer}

-- `command_status == BRIDGE_COMMAND_PENDING`
unfoldable pub is_pending : CommandStatus → Bool
is_pending CommandStatus.pending = true
is_pending _ = false

-- The public fields agree with the overlay, at most one of the takeover flags is set and only for
-- an active command, and the request in the overlay is sound.
pub record IsValid (c : Command) : Type 0 where
  pub override : c.override_active ≡ c.overlay.active
  pub pending : c.command_pending ≡ c.overlay.active
  pub confirm : c.overlay.confirmation_pending ≡ c.overlay.active
  pub status : is_pending c.command_status ≡ c.overlay.active
  pub one_takeover : (c.overlay.takeover_pending && c.overlay.takeover_ready) ≡ false
  pub takeover_active :
      ((c.overlay.takeover_pending || c.overlay.takeover_ready) && not c.overlay.active) ≡ false
  pub numbered : c.command_sequence ≡ c.overlay.sequence
  pub queued : c.overlay.active ≡ true → 0 < c.overlay.queued_time_us
  pub sound : IsSound c.overlay.request

base-IsSound :
    (o : Overlay) → IsSound o.request → IsSound (if o.active then o.request else no_request)
base-IsSound o h = elim (Bool-cases o.active) [ inl e ↦ rw e h | inr e ↦ rw e no_request-IsSound ]

-- The ends of a command.
module _ (s : Service) (v : IsValid (command s)) where
  pub finish-IsValid :
      (x : CommandStatus) → is_pending x ≡ false → IsValid (command (finish_command x s))
  unfolding finish_command
  finish-IsValid x h = record {
    override = refl;
    pending = refl;
    confirm = refl;
    status = h;
    one_takeover = refl;
    takeover_active = refl;
    numbered = v.numbered;
    queued = λ e. cc e;
    sound = no_request-IsSound;
  }

  pub cancel_by_panel-IsValid : IsValid (command (cancel_by_panel s))
  unfolding cancel_by_panel is_pending
  cancel_by_panel-IsValid = record {
    override = refl;
    pending = refl;
    confirm = refl;
    status = refl;
    one_takeover = refl;
    takeover_active = refl;
    numbered = v.numbered;
    queued = λ e. cc e;
    sound = v.sound;
  }

  pub take_event-IsValid : (p : Profile) → IsValid (command (take_event p s))
  unfolding take_event
  take_event-IsValid p =
      elim (Bool-cases (s.overlay.active && s.overlay.event_pending && not p.panel_loop_control)) [
        | inl e ↦ rw e (record {
          override = v.override;
          pending = v.pending;
          confirm = v.confirm;
          status = v.status;
          one_takeover = v.one_takeover;
          takeover_active = v.takeover_active;
          numbered = v.numbered;
          queued = v.queued;
          sound = v.sound;
        })
        | inr e ↦ rw e v
      ]

  pub closed-IsValid :
      (t : ℕ)
      → IsValid (
          command (
            close_command CommandStatus.cancelled
              (record (closed_overlay s.overlay) { queued_time_us = t })
              s))
  unfolding closed_overlay close_command is_pending
  closed-IsValid t = record {
    override = refl;
    pending = refl;
    confirm = refl;
    status = refl;
    one_takeover = refl;
    takeover_active = refl;
    numbered = v.numbered;
    queued = λ e. cc e;
    sound = v.sound;
  }

  pub takeover_finish-IsValid : (result : ℕ) → IsValid (command (takeover_finish result s))
  unfolding takeover_finish
  takeover_finish-IsValid result =
      elim (Bool-cases (result == 0 && s.overlay.active && s.overlay.takeover_pending)) [
        | inl e ↦ rw e (record {
          override = v.override;
          pending = v.pending;
          confirm = v.confirm;
          status = v.status;
          one_takeover = refl;
          takeover_active = ground arith;
          numbered = v.numbered;
          queued = v.queued;
          sound = v.sound;
        })
        | inr e ↦ elim (Bool-cases (not (result == 0) && s.overlay.active)) [
          | inl f ↦ rw (e, f) (closed-IsValid s.overlay.queued_time_us)
          | inr f ↦ rw (e, f) v
        ]
      ]

  pub accept_control-IsValid :
      (p : Profile) (now : ℕ) (r : Request)
      → 0 < now
      → IsSound r
      → IsValid (command (accept_control p now r s))
  unfolding accept_control is_pending
  accept_control-IsValid p now r h k = record {
    override = refl;
    pending = refl;
    confirm = refl;
    status = refl;
    one_takeover = ground arith;
    takeover_active = ground arith;
    numbered = refl;
    queued = λ e. h;
    sound = merge_request-IsSound _ r (base-IsSound s.overlay v.sound) k;
  }

-- What the checks of `queue_control` let through.
pub queue_control_cases :
    (p : Profile) (now : ℕ) (r : Request) (s : Service)
    → ((queue_control p now r s).0 ≡ EspErr.ok)
        × ((queue_control p now r s).2 ≡ accept_control p now r s)
        × (rejects r ≡ false)
        × (has r.mask control_timer ≡ false)
      ⊎ ((queue_control p now r s).2 ≡ s)
unfolding queue_control
queue_control_cases p now r s = ground arith

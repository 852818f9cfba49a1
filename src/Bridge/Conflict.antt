-- ===== src/Bridge/Conflict.antt =====
-- main/bridge_service.c: a request merged into a command that is still pending, and whether any
-- frame of the main board can confirm the result.
use lin_tac09cpbpsl_esp32c.Common.{ℕ, ◌≡◌, refl, ◌∙◌, ap, true, false, ◌&&◌, has, arith}
use lin_tac09cpbpsl_esp32c.Protocol.Types.{Mode, MainState, Request}
use lin_tac09cpbpsl_esp32c.Protocol.Wire.{control_setpoint, control_mode}
use lin_tac09cpbpsl_esp32c.Bridge.Types.{Profile, Service}
use lin_tac09cpbpsl_esp32c.Bridge.Match.{same_mode, is_cool, wants, main_state_confirms}
use lin_tac09cpbpsl_esp32c.Bridge.Queue.{
  EspErr, merge_request, queued_overlay, accept_control, queue_control,
}
use lin_tac09cpbpsl_esp32c.Bridge.Merge.{merge_request-mask, merge_request-fields}

same_mode-is_cool : (a b : Mode) → is_cool b ≡ false → (is_cool a && same_mode a b) ≡ false
unfolding is_cool same_mode
same_mode-is_cool Mode.unknown b h = refl
same_mode-is_cool Mode.fan b h = refl
same_mode-is_cool Mode.dry b h = refl
same_mode-is_cool Mode.cool Mode.unknown h = refl
same_mode-is_cool Mode.cool Mode.fan h = refl
same_mode-is_cool Mode.cool Mode.dry h = refl
same_mode-is_cool Mode.cool Mode.cool h = h

-- A request for a setpoint together with a mode other than Cool is confirmed by no frame.
main_state_confirms-conflict :
    (parsed : MainState) (r : Request)
    → has r.mask control_setpoint ≡ true
    → has r.mask control_mode ≡ true
    → is_cool r.mode ≡ false
    → main_state_confirms parsed r ≡ false
unfolding main_state_confirms wants
main_state_confirms-conflict parsed r a b c = ground (arith, same_mode-is_cool parsed.mode r.mode c)

accepted :
    (p : Profile) (now : ℕ) (r : Request) (s : Service)
    → (queue_control p now r s).0 ≡ EspErr.ok
    → (queue_control p now r s).2 ≡ accept_control p now r s
unfolding queue_control
accepted p now r s h = ground arith

-- A request for a mode other than Cool that is taken while an earlier setpoint is not confirmed
-- yet gives a command that no frame of the main board confirms.
pub queue_control-unconfirmable :
    (p : Profile) (now : ℕ) (r : Request) (s : Service) (parsed : MainState)
    → s.overlay.active ≡ true
    → has s.overlay.request.mask control_setpoint ≡ true
    → has r.mask control_mode ≡ true
    → is_cool r.mode ≡ false
    → (queue_control p now r s).0 ≡ EspErr.ok
    → main_state_confirms parsed (queue_control p now r s).2.overlay.request ≡ false
unfolding accept_control queued_overlay
queue_control-unconfirmable p now r s parsed a b c e ok =
    let n = merge_request s.overlay.request r in
    let mask = merge_request-mask s.overlay.request r in
    rw (accepted p now r s ok) (
      rw a (
        main_state_confirms-conflict parsed n (mask.1 ∙ ground arith) (mask.2 ∙ ground arith)
          (ap is_cool (merge_request-fields s.overlay.request r).1 ∙ rw c e)))

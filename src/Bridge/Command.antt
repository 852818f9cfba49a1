-- ===== src/Bridge/Command.antt =====
-- main/bridge_service.c: the command that the service holds, and what each handler does to it.
use lin_tac09cpbpsl_esp32c.Common.{
  ℕ, ◌≡◌, refl, ◌∙◌, inl, inr, Bool, true, false, ◌&&◌, List, none, some, Option-cases,
  if◌then◌else◌,
}
use lin_tac09cpbpsl_esp32c.Protocol.Parse.{parse_panel, parse_main}
use lin_tac09cpbpsl_esp32c.Bridge.Types.{Profile, CommandStatus, Overlay, Effect, Service}
use lin_tac09cpbpsl_esp32c.Bridge.Match.{main_state_confirms}
use lin_tac09cpbpsl_esp32c.Bridge.Mirror.{Results, restore_mirror}
use lin_tac09cpbpsl_esp32c.Bridge.Update.{
  emit, count_checksum_error, count_framing_error, update_panel_state, record_main, finish_command,
  update_main_state,
}

-- The fields of the state that belong to the command.
pub record Command : Type 0 where
  pub overlay : Overlay
  pub override_active : Bool
  pub command_pending : Bool
  pub command_sequence : ℕ
  pub command_status : CommandStatus

abbrev pub command : Service → Command
command s = record {
  overlay = s.overlay;
  override_active = s.state.override_active;
  command_pending = s.state.command_pending;
  command_sequence = s.state.command_sequence;
  command_status = s.state.command_status;
}

-- The helpers that leave the command alone.
pub command-emit : (e : Effect) (s : Service) → command (emit e s) ≡ command s
unfolding emit
command-emit e s = refl

pub command-count_checksum_error : (s : Service) → command (count_checksum_error s) ≡ command s
unfolding count_checksum_error
command-count_checksum_error s = refl

pub command-count_framing_error : (s : Service) → command (count_framing_error s) ≡ command s
unfolding count_framing_error
command-count_framing_error s = refl

pub command-if :
    (b : Bool) (s t u : Service)
    → command s ≡ command u
    → command t ≡ command u
    → command (if b then s else t) ≡ command u
command-if true s t u h k = h
command-if false s t u h k = k

command-push :
    (b : Bool) (s t : Service) → command (if b then s else t) ≡ (if b then command s else command t)
command-push true s t = refl
command-push false s t = refl

-- A frame of the panel, taken into the state, leaves the command alone.
pub command-update_panel_state :
    (now : ℕ) (frame forwarded : List ℕ) (injected emulated : Bool) (s : Service)
    → command (update_panel_state now frame forwarded injected emulated s) ≡ command s
unfolding update_panel_state
command-update_panel_state now frame forwarded injected emulated s =
    elim (Option-cases (parse_panel frame)) [
      | inl e ↦ rw (e, update_panel_state) refl
      | inr (parsed, e) ↦ rw (e, update_panel_state) (command-if _ _ _ s refl refl)
    ]

-- What a frame of the main board does to the command: it confirms it, or leaves it alone.
unfoldable pub confirmed_by : List ℕ → Service → Bool
confirmed_by frame s = elim (parse_main frame) [
  | none ↦ false
  | some parsed ↦ s.overlay.confirmation_pending && main_state_confirms parsed s.overlay.request
]

pub command-update_main_state :
    (p : Profile) (d : Results) (now : ℕ) (frame : List ℕ) (s : Service)
    → command (update_main_state p d now frame s) ≡ (
        if confirmed_by frame s
        then command (finish_command CommandStatus.confirmed s)
        else command s)
unfolding update_main_state restore_mirror confirmed_by
command-update_main_state p d now frame s = elim (Option-cases (parse_main frame)) [
  | inl e ↦ rw (e, update_main_state, confirmed_by) refl
  | inr (parsed, e) ↦
      let t = record_main parsed frame now s in
      let confirmed =
        s.overlay.confirmation_pending && main_state_confirms parsed s.overlay.request in
      let v = restore_mirror p d (finish_command CommandStatus.confirmed t) in
      let u = if confirmed then v else t in
      rw (e, update_main_state, confirmed_by)
        (command-if _ _ _ u refl refl ∙ command-push confirmed v t)
]

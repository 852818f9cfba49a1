-- ===== src/Bridge/Frames.antt =====
-- main/bridge_service.c: `process_complete_frame`, as the profiles of main/CMakeLists.txt build it
-- (no tap injection, no edge forwarding by interrupts, no forced OFF state at boot).
use lin_tac09cpbpsl_esp32c.Common.{
  ℕ, ◌-◌, Bool, true, false, not, ◌&&◌, List, length, take, drop, Option, none, some, ◌==◌,
  if◌then◌else◌,
}
use lin_tac09cpbpsl_esp32c.Protocol.Types.{PanelState}
use lin_tac09cpbpsl_esp32c.Protocol.Wire.{panel_frame_size, main_frame_size}
use lin_tac09cpbpsl_esp32c.Protocol.Frame.{checksum_valid}
use lin_tac09cpbpsl_esp32c.Protocol.Parse.{parse_panel}
use lin_tac09cpbpsl_esp32c.Protocol.Control.{apply_control, apply_control_main}
use lin_tac09cpbpsl_esp32c.Bridge.Types.{
  Profile, CommandStatus, Side, Overlay, Kind, Effect, Service,
}
use lin_tac09cpbpsl_esp32c.Bridge.Match.{panel_state_matches_request}
use lin_tac09cpbpsl_esp32c.Bridge.Mirror.{Results, restore_mirror}
use lin_tac09cpbpsl_esp32c.Bridge.Update.{
  same_bytes, emit, count_checksum_error, count_framing_error, update_panel_state,
  update_main_state, close_command,
}

unfoldable pub is_panel : Side → Bool
is_panel Side.panel = true
is_panel Side.main = false

-- The bytes that a build without the hybrid path passes on by itself.
unfoldable pub forward_panel_raw : Profile → Side → List ℕ → Service → Service
unfolding emit is_panel
forward_panel_raw p side bytes s =
    if p.bridge_active && not p.hybrid_bridge && is_panel side
    then emit (Effect.forward Side.main bytes) s
    else s

-- What goes on to the panel in place of a frame of the main board.
unfoldable pub panel_status : Profile → Overlay → List ℕ → List ℕ
panel_status p o frame =
    if p.panel_loop_control && o.active
    then elim (apply_control_main frame o.request o.event_pending) [
      | none ↦ frame
      | some status ↦ status
    ]
    else frame

-- A complete frame of the main board.
unfoldable pub process_main : Profile → Results → ℕ → List ℕ → Service → Service
unfolding panel_status emit
process_main p d now frame s =
    let t =
      if p.bridge_active
      then emit (Effect.forward Side.panel (panel_status p s.overlay frame)) s
      else s in
    update_main_state p d now frame t

-- `&frame[4]`, `AC_PANEL_FRAME_SIZE - 5U` bytes: without the event byte and the check byte.
unfoldable pub payload : List ℕ → List ℕ
payload frame = take (panel_frame_size - 5) (drop 4 frame)

-- A new action on the panel while a command is active, which is not the state that the command
-- itself has asked the panel for.
unfoldable pub panel_wins : Profile → PanelState → List ℕ → Service → Bool
unfolding payload
panel_wins p actual frame s =
    actual.event
    && s.state.panel_valid
    && not (same_bytes (payload frame) (payload s.state.panel_raw))
    && s.overlay.active
    && not (p.panel_loop_control && panel_state_matches_request actual s.overlay.request)

-- The overlay that the physical panel cancels.
unfoldable pub cancelled_overlay : Overlay → Overlay
cancelled_overlay o = record o {
  active = false;
  confirmation_pending = false;
  takeover_pending = false;
  takeover_ready = false;
}

unfoldable pub cancel_by_panel : Service → Service
unfolding cancelled_overlay close_command
cancel_by_panel s = close_command CommandStatus.cancelled (cancelled_overlay s.overlay) s

-- The event goes into one frame only.
unfoldable pub take_event : Profile → Service → Service
take_event p s =
    if s.overlay.active && s.overlay.event_pending && not p.panel_loop_control
    then record s { overlay = record (s.overlay) { event_pending = false } }
    else s

-- The frame with the command of the overlay `o` in it, if it is to be injected.
unfoldable pub injection : Overlay → List ℕ → Option (List ℕ)
injection o frame =
    if o.active && o.takeover_ready then apply_control frame o.request o.event_pending else none

-- The effects of an injection, or of a frame that is passed on unchanged.
unfoldable pub send_panel : Profile → Overlay → List ℕ → Option (List ℕ) → Service → Service
unfolding emit
send_panel p o frame none s = if p.hybrid_bridge then s else emit (Effect.forward Side.main frame) s
send_panel p o frame (some forwarded) s =
    let t = if p.hybrid_bridge then s else emit (Effect.forward Side.main forwarded) s in
    if o.event_pending then emit (Effect.publish Side.panel Kind.wifi_command forwarded) t else t

-- The part of the panel's branch that only an active bridge has: the frame that goes on, whether
-- a command is in it, and the service.
unfoldable pub bridge_panel :
    Profile → Results → PanelState → List ℕ → Service → Option (List ℕ) × Service
unfolding panel_wins cancel_by_panel take_event injection send_panel
bridge_panel p d actual frame s =
    let wins = panel_wins p actual frame s in
    let t = if wins then cancel_by_panel s else s in
    let u = take_event p t in
    let v = if wins then restore_mirror p d u else u in
    let out = injection t.overlay frame in (out, send_panel p t.overlay frame out v)

-- The frame that is recorded as forwarded.
unfoldable pub forwarded_frame : List ℕ → Option (List ℕ) → List ℕ
forwarded_frame frame none = frame
forwarded_frame frame (some forwarded) = forwarded

unfoldable pub is_injected : Option (List ℕ) → Bool
is_injected none = false
is_injected (some forwarded) = true

-- A frame of the panel that does not parse is passed on like one that no command is for.
unfoldable pub bridge_unparsed : Profile → List ℕ → Service → Service
unfolding take_event emit
bridge_unparsed p frame s =
    let t = take_event p s in if p.hybrid_bridge then t else emit (Effect.forward Side.main frame) t

-- A complete frame of the panel.
unfoldable pub process_panel : Profile → Results → ℕ → List ℕ → Service → Service
unfolding bridge_panel bridge_unparsed forwarded_frame is_injected
process_panel p d now frame s =
    let (out, t) =
      if p.bridge_active
      then elim (parse_panel frame) [
        | none ↦ (none, bridge_unparsed p frame s)
        | some actual ↦ bridge_panel p d actual frame s
      ]
      else (none, s) in
    update_panel_state now frame (forwarded_frame frame out) (is_injected out) false
      (record t { physical_panel_frame_time_us = now })

-- `process_complete_frame`
unfoldable pub process_complete_frame : Profile → Results → ℕ → Side → List ℕ → Service → Service
unfolding process_main process_panel forward_panel_raw is_panel emit count_checksum_error
    count_framing_error
process_complete_frame p d now side frame s =
    if not (checksum_valid frame (length frame))
    then emit (Effect.publish side Kind.checksum_error frame)
        (forward_panel_raw p side frame (count_checksum_error s))
    else if not (is_panel side) && length frame == main_frame_size
    then process_main p d now frame s
    else if is_panel side && length frame == panel_frame_size
    then process_panel p d now frame s
    else emit (Effect.publish side Kind.unexpected_length frame)
        (forward_panel_raw p side frame (count_framing_error s))

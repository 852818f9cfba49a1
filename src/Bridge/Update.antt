-- ===== src/Bridge/Update.antt =====
-- main/bridge_service.c: a complete frame of either side taken into the state, and the
-- confirmation of a command. One reading of the clock, `now`, serves for a whole handler.
use lin_tac09cpbpsl_esp32c.Common.{
  ℕ, ◌+◌, ◌%◌, ◌^◌, Bool, true, false, not, ◌&&◌, ◌||◌, List, [], ◌∷◌, none, some, ◌==◌,
  if◌then◌else◌,
}
use lin_tac09cpbpsl_esp32c.Protocol.Types.{Mode, Fan, PanelState, MainState, Request}
use lin_tac09cpbpsl_esp32c.Protocol.Parse.{parse_panel, parse_main}
use lin_tac09cpbpsl_esp32c.Bridge.Types.{
  Profile, CommandStatus, Side, Overlay, Kind, Effect, Service,
}
use lin_tac09cpbpsl_esp32c.Bridge.Match.{is_cool, main_state_confirms}
use lin_tac09cpbpsl_esp32c.Bridge.Mirror.{Results, restore_mirror}

-- `++` on an `uint32_t`
abbrev pub inc32 : ℕ → ℕ
inc32 n = (n + 1) % 2 ^ 32

-- `memcmp(a, b, n) == 0` on arrays of one length.
unfoldable pub same_bytes : List ℕ → List ℕ → Bool
same_bytes [] [] = true
same_bytes (x ∷ xs) (y ∷ ys) = x == y && same_bytes xs ys
same_bytes _ _ = false

-- `(ac_control_request_t){0}`
abbrev pub no_request : Request
no_request = record {
  mask = 0;
  power = false;
  setpoint_c = 0;
  mode = Mode.unknown;
  fan = Fan.unknown;
  raw_mode_fan_code = 0;
  quiet = false;
  units_fahrenheit = false;
  timer = false;
}

unfoldable pub emit : Effect → Service → Service
emit e s = record s { log = e ∷ s.log }

unfoldable pub count_checksum_error : Service → Service
count_checksum_error s = record s {
  state = record (s.state) { checksum_errors = inc32 s.state.checksum_errors };
}

unfoldable pub count_framing_error : Service → Service
count_framing_error s = record s {
  state = record (s.state) { framing_errors = inc32 s.state.framing_errors };
}

-- `parsed.event ? "event" : (first ? "initial" : "state_change")`
unfoldable pub kind_of : Bool → Bool → Kind
kind_of event first =
    if event then Kind.event else if first then Kind.initial else Kind.state_change

-- The assignments of `update_panel_state` under the lock.
unfoldable pub record_panel : PanelState → List ℕ → List ℕ → Bool → Bool → ℕ → Service → Service
record_panel parsed frame forwarded injected emulated now s = record s {
  state = record (s.state) {
    panel_raw = frame;
    forwarded_panel_raw = forwarded;
    panel_valid = true;
    panel_emulated = emulated;
    panel_event = parsed.event;
    setpoint_c = parsed.setpoint_c;
    panel_frames = inc32 s.state.panel_frames;
    injected_frames = if injected then inc32 s.state.injected_frames else s.state.injected_frames;
  };
  panel_frame_time_us = now;
}

-- `update_panel_state`
unfoldable pub update_panel_state : ℕ → List ℕ → List ℕ → Bool → Bool → Service → Service
unfolding record_panel count_checksum_error emit
update_panel_state now frame forwarded injected emulated s = elim (parse_panel frame) [
  | none ↦ count_checksum_error s
  | some parsed ↦
      let first = not s.state.panel_valid in
      let changed = first || not (same_bytes s.state.panel_raw frame) in
      let t = record_panel parsed frame forwarded injected emulated now s in
      if changed then emit (Effect.publish Side.panel (kind_of parsed.event first) frame) t else t
]

-- The assignments of `update_main_state` under the lock, up to the confirmation.
unfoldable pub record_main : MainState → List ℕ → ℕ → Service → Service
record_main parsed frame now s = record s {
  state = record (s.state) {
    main_raw = frame;
    main_valid = true;
    power = parsed.power;
    feature_flags = parsed.feature_flags;
    main_display_temperature_c = parsed.display_temperature_c;
    main_display_temperature_encoded = parsed.display_temperature_encoded;
    setpoint_c = if is_cool parsed.mode then parsed.display_temperature_c else s.state.setpoint_c;
    mode_fan_code = parsed.mode_fan_code;
    mode = parsed.mode;
    fan = parsed.fan;
    operation_code = parsed.operation_code;
    sensor_1_raw = parsed.sensor_1_raw;
    sensor_2_raw = parsed.sensor_2_raw;
    main_frames = inc32 s.state.main_frames;
  };
  main_frame_time_us = now;
}

-- The five flags of the overlay that the end of a command clears.
unfoldable pub closed_overlay : Overlay → Overlay
closed_overlay o = record o {
  active = false;
  event_pending = false;
  confirmation_pending = false;
  takeover_pending = false;
  takeover_ready = false;
}

-- The fields of the public state that the end of a command sets.
unfoldable pub close_command : CommandStatus → Overlay → Service → Service
close_command status o s = record s {
  overlay = o;
  state = record (s.state) {
    override_active = false;
    command_pending = false;
    command_status = status;
  };
}

-- A command that the main board confirmed, or that timed out, leaves no request behind.
unfoldable pub finish_command : CommandStatus → Service → Service
unfolding closed_overlay close_command
finish_command status s =
    close_command status
      (record (closed_overlay s.overlay) { queued_time_us = 0; request = no_request }) s

-- `update_main_state`
unfoldable pub update_main_state : Profile → Results → ℕ → List ℕ → Service → Service
unfolding record_main finish_command count_checksum_error emit
update_main_state p d now frame s = elim (parse_main frame) [
  | none ↦ count_checksum_error s
  | some parsed ↦
      let first = not s.state.main_valid in
      let changed = first || not (same_bytes s.state.main_raw frame) in
      let t = record_main parsed frame now s in
      let confirmed =
        s.overlay.confirmation_pending && main_state_confirms parsed s.overlay.request in
      let u =
        if confirmed then restore_mirror p d (finish_command CommandStatus.confirmed t) else t in
      if changed then emit (Effect.publish Side.main (kind_of parsed.event first) frame) u else u
]

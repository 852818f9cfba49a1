-- ===== src/Bridge/Queue.antt =====
-- main/bridge_service.c: `bridge_service_queue_control`, and the interlock of the hardware.
use lin_tac09cpbpsl_esp32c.Common.{
  ℕ, ◌-◌, ◌/◌, bit_and, bit_or, Bool, true, not, ◌&&◌, ltb, leb, ◌==◌, has, if◌then◌else◌,
}
use lin_tac09cpbpsl_esp32c.Protocol.Types.{Request}
use lin_tac09cpbpsl_esp32c.Protocol.Wire.{
  control_power, control_setpoint, control_mode, control_fan, control_raw_mode_fan, control_quiet,
  control_units_fahrenheit, control_timer,
}
use lin_tac09cpbpsl_esp32c.Protocol.Control.{rejects}
use lin_tac09cpbpsl_esp32c.Bridge.Types.{Profile, CommandStatus, Overlay, Service}
use lin_tac09cpbpsl_esp32c.Bridge.Match.{is_cool}
use lin_tac09cpbpsl_esp32c.Bridge.Mirror.{Results, restore_mirror}
use lin_tac09cpbpsl_esp32c.Bridge.Update.{inc32, no_request, closed_overlay, close_command}

-- The results of the service's functions, `esp_err_t`.
pub data EspErr : Type 0 where
  ok invalid_arg not_supported invalid_state : EspErr

-- BRIDGE_LINK_FRESH_MS
abbrev pub link_fresh_ms : ℕ
link_fresh_ms = 1000

-- `bridge_service_mitm_active`
unfoldable pub mitm_active : Profile → Bool → Bool
mitm_active p hardware_ready = p.bridge_active && p.control_verified && hardware_ready

-- `(now - time) / 1000 <= BRIDGE_LINK_FRESH_MS`. Where `now` is the earlier time, the difference
-- is negative in C and 0 here, and the test holds of both.
unfoldable pub is_fresh : ℕ → ℕ → Bool
is_fresh now time = ltb 0 time && leb ((now - time) / 1000) link_fresh_ms

-- `links_fresh`
unfoldable pub links_fresh : ℕ → Service → Bool
unfolding is_fresh
links_fresh now s =
    s.state.main_valid
    && s.state.panel_valid
    && is_fresh now s.main_frame_time_us
    && is_fresh now s.panel_frame_time_us

-- A setpoint goes with the mode Cool alone, the requested or the current one.
unfoldable pub setpoint_out_of_mode : Request → Service → Bool
setpoint_out_of_mode r s =
    has r.mask control_setpoint
    && not (is_cool (if has r.mask control_mode then r.mode else s.state.mode))

-- `mask & ~bits` of an `uint32_t`
unfoldable pub clear_bits : ℕ → ℕ → ℕ
clear_bits mask bits = bit_and mask (0xffff_ffff - bits)

-- The mask of the overlay's request before the new mask is added: a mode or a fan speed drops the
-- raw code, and a raw code drops both.
unfoldable pub merged_mask : ℕ → ℕ → ℕ
unfolding clear_bits
merged_mask old mask =
    let m1 = if has mask control_mode then clear_bits old control_raw_mode_fan else old in
    let m2 = if has mask control_fan then clear_bits m1 control_raw_mode_fan else m1 in
    if has mask control_raw_mode_fan then clear_bits m2 (bit_or control_mode control_fan) else m2

-- The fields of a new request replace those of the overlay's.
unfoldable pub merge_request : Request → Request → Request
unfolding merged_mask
merge_request o r = record {
  mask = bit_or (merged_mask o.mask r.mask) r.mask;
  power = if has r.mask control_power then r.power else o.power;
  setpoint_c = if has r.mask control_setpoint then r.setpoint_c else o.setpoint_c;
  mode = if has r.mask control_mode then r.mode else o.mode;
  fan = if has r.mask control_fan then r.fan else o.fan;
  raw_mode_fan_code =
      if has r.mask control_raw_mode_fan then r.raw_mode_fan_code else o.raw_mode_fan_code;
  quiet = if has r.mask control_quiet then r.quiet else o.quiet;
  units_fahrenheit =
      if has r.mask control_units_fahrenheit then r.units_fahrenheit else o.units_fahrenheit;
  timer = if has r.mask control_timer then r.timer else o.timer;
}

-- The overlay with a new request in it.
unfoldable pub queued_overlay : Profile → ℕ → Request → Overlay → Overlay
unfolding merge_request
queued_overlay p now r o = record {
  active = true;
  event_pending = true;
  confirmation_pending = true;
  takeover_pending = p.panel_hardware_forward && not p.panel_loop_control;
  takeover_ready = not p.panel_hardware_forward && not p.panel_loop_control;
  sequence = inc32 o.sequence;
  queued_time_us = now;
  request = merge_request (if o.active then o.request else no_request) r;
}

-- The assignments of `bridge_service_queue_control` under the lock.
unfoldable pub accept_control : Profile → ℕ → Request → Service → Service
unfolding queued_overlay
accept_control p now r s = record s {
  overlay = queued_overlay p now r s.overlay;
  state = record (s.state) {
    override_active = true;
    command_pending = true;
    command_status = CommandStatus.pending;
    command_sequence = inc32 s.overlay.sequence;
  };
}

-- `bridge_service_queue_control`: the result, the assigned sequence number and the new state.
unfoldable pub queue_control : Profile → ℕ → Request → Service → EspErr × ℕ × Service
queue_control p now r s =
    if r.mask == 0
    then (EspErr.invalid_arg, 0, s)
    else if not (mitm_active p s.hardware_ready)
    then (EspErr.not_supported, 0, s)
    else if rejects r
    then (EspErr.invalid_arg, 0, s)
    else if has r.mask control_timer
    then (EspErr.not_supported, 0, s)
    else if not (links_fresh now s)
    then (EspErr.invalid_state, 0, s)
    else if setpoint_out_of_mode r s
    then (EspErr.invalid_state, 0, s)
    else (EspErr.ok, inc32 s.overlay.sequence, accept_control p now r s)

-- `bridge_service_set_hardware_ready`
unfoldable pub set_hardware_ready : Profile → Results → Bool → Service → Service
unfolding mitm_active closed_overlay close_command
set_hardware_ready p d ready s =
    let t = record s {
      hardware_ready = ready;
      state = record (s.state) { mitm_active = mitm_active p ready };
    } in
    let u =
      if not ready && s.overlay.active
      then close_command CommandStatus.cancelled
          (record (closed_overlay s.overlay) { queued_time_us = 0 }) t
      else t in
    if not ready then restore_mirror p d u else u

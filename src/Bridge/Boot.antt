-- ===== src/Bridge/Boot.antt =====
-- main/bridge_service.c: the static variables at the start of the service.
use lin_tac09cpbpsl_esp32c.Common.{false, not, [], replicate}
use lin_tac09cpbpsl_esp32c.Protocol.Types.{Mode, Fan}
use lin_tac09cpbpsl_esp32c.Protocol.Wire.{panel_frame_size, main_frame_size}
use lin_tac09cpbpsl_esp32c.Bridge.Types.{Profile, CommandStatus, Overlay, AcState, Route, Service}
use lin_tac09cpbpsl_esp32c.Bridge.Update.{no_request}
use lin_tac09cpbpsl_esp32c.Bridge.Queue.{mitm_active}
use lin_tac09cpbpsl_esp32c.Bridge.Stream.{Stream}

-- `s_state` after `bridge_service_start` has cleared it, in the build `p`.
unfoldable pub boot_state : Profile → AcState
boot_state p = record {
  main_valid = false;
  panel_valid = false;
  power = false;
  feature_flags = 0;
  setpoint_c = 0;
  main_display_temperature_c = 0;
  main_display_temperature_encoded = 0;
  mode_fan_code = 0;
  mode = Mode.unknown;
  fan = Fan.unknown;
  operation_code = 0;
  sensor_1_raw = 0;
  sensor_2_raw = 0;
  panel_event = false;
  panel_emulated = false;
  mitm_active = mitm_active p (not p.nts0104_preflight);
  override_active = false;
  command_pending = false;
  command_sequence = 0;
  command_status = CommandStatus.none;
  command_timeouts = 0;
  main_frames = 0;
  panel_frames = 0;
  main_rx_bytes = 0;
  panel_rx_bytes = 0;
  checksum_errors = 0;
  framing_errors = 0;
  injected_frames = 0;
  main_raw = replicate main_frame_size 0;
  panel_raw = replicate panel_frame_size 0;
  forwarded_panel_raw = replicate panel_frame_size 0;
}

abbrev pub boot_overlay : Overlay
boot_overlay = record {
  active = false;
  event_pending = false;
  confirmation_pending = false;
  takeover_pending = false;
  takeover_ready = false;
  sequence = 0;
  queued_time_us = 0;
  request = no_request;
}

-- The service before its tasks start; `route` is what the start code of the profile has made.
unfoldable pub boot : Profile → Route → Service
unfolding boot_state
boot p route = record {
  overlay = boot_overlay;
  state = boot_state p;
  hardware_ready = not p.nts0104_preflight;
  main_frame_time_us = 0;
  panel_frame_time_us = 0;
  physical_panel_frame_time_us = 0;
  panel_last_byte_us = 0;
  route = route;
  log = [];
}

-- `frame_stream_t stream = {0}` of `stream_task`
unfoldable pub empty_stream : Stream
empty_stream = record {
  bytes = [];
  expected = 0;
  last_byte_us = 0;
  synchronized = false;
  overlay_frame = replicate panel_frame_size 0;
  overlay_valid = false;
  burst_sent = false;
}

-- ===== src/Bridge/Types.antt =====
-- main/bridge_service.h and main/bridge_service.c: build profile, state and command overlay.
use lin_tac09cpbpsl_esp32c.Common.{ℕ, Bool, List}
use lin_tac09cpbpsl_esp32c.Protocol.Types.{Mode, Fan, Request}

-- The KLIMA_* switches that the profiles of main/CMakeLists.txt set differently and that the
-- modelled code reads.
pub record Profile : Type 0 where
  pub bridge_active : Bool
  pub hybrid_bridge : Bool
  pub control_verified : Bool
  pub panel_hardware_forward : Bool
  pub panel_loop_control : Bool
  pub nts0104_preflight : Bool

-- `bridge_command_status_t`
pub data CommandStatus : Type 0 where
  none pending confirmed timed_out cancelled : CommandStatus

-- `stream_side_t`, which also names the UART that the side's bytes come from.
pub data Side : Type 0 where
  panel main : Side

-- `control_overlay_t`
pub record Overlay : Type 0 where
  pub active : Bool
  pub event_pending : Bool
  pub confirmation_pending : Bool
  pub takeover_pending : Bool
  pub takeover_ready : Bool
  pub sequence : ℕ
  pub queued_time_us : ℕ
  pub request : Request

-- `bridge_ac_state_t`, without the levels and edge counts of the pads.
pub record AcState : Type 0 where
  pub main_valid : Bool
  pub panel_valid : Bool
  pub power : Bool
  pub feature_flags : ℕ
  pub setpoint_c : ℕ
  pub main_display_temperature_c : ℕ
  pub main_display_temperature_encoded : ℕ
  pub mode_fan_code : ℕ
  pub mode : Mode
  pub fan : Fan
  pub operation_code : ℕ
  pub sensor_1_raw : ℕ
  pub sensor_2_raw : ℕ
  pub panel_event : Bool
  pub panel_emulated : Bool
  pub mitm_active : Bool
  pub override_active : Bool
  pub command_pending : Bool
  pub command_sequence : ℕ
  pub command_status : CommandStatus
  pub command_timeouts : ℕ
  pub main_frames : ℕ
  pub panel_frames : ℕ
  pub main_rx_bytes : ℕ
  pub panel_rx_bytes : ℕ
  pub checksum_errors : ℕ
  pub framing_errors : ℕ
  pub injected_frames : ℕ
  pub main_raw : List ℕ
  pub panel_raw : List ℕ
  pub forwarded_panel_raw : List ℕ

-- The `kind` of `publish_frame`.
pub data Kind : Type 0 where
  initial state_change event wifi_command : Kind
  checksum_error unexpected_length bad_header overflow bad_length timeout : Kind

-- What the handlers send out: bytes to a UART, and frames to `publish_frame`.
pub data Effect : Type 0 where
  forward : Side → List ℕ → Effect
  publish : Side → Kind → List ℕ → Effect

-- The ETM route from the panel to the main board: the two edge channels, the TX pin of the main
-- UART, and `s_panel_to_main_hardware_mirror_enabled`.
pub record Route : Type 0 where
  pub rise_on : Bool
  pub fall_on : Bool
  pub uart_on : Bool
  pub enabled : Bool

-- The file's static variables, with the effects so far, the newest first.
pub record Service : Type 0 where
  pub overlay : Overlay
  pub state : AcState
  pub hardware_ready : Bool
  pub main_frame_time_us : ℕ
  pub panel_frame_time_us : ℕ
  pub physical_panel_frame_time_us : ℕ
  pub panel_last_byte_us : ℕ
  pub route : Route
  pub log : List Effect

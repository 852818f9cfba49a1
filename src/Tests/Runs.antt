-- ===== src/Tests/Runs.antt =====
-- main/bridge_service.c in short runs.
use lin_tac09cpbpsl_esp32c.Common.{
  ◌≡◌, ◌<◌, refl, true, false, length, some, has, if◌then◌else◌, arith, ◌&&◌, ◌==◌,
}
use lin_tac09cpbpsl_esp32c.Protocol.Types.{Mode, Request}
use lin_tac09cpbpsl_esp32c.Protocol.Wire.{main_frame_size, control_setpoint, control_mode}
use lin_tac09cpbpsl_esp32c.Protocol.Parse.{main_fields, valid_setpoint}
use lin_tac09cpbpsl_esp32c.Protocol.Control.{rejects, is_control_mode, is_control_fan}
use lin_tac09cpbpsl_esp32c.Bridge.Types.{Profile, CommandStatus, Side, Route, Service}
use lin_tac09cpbpsl_esp32c.Bridge.Match.{is_cool, main_state_confirms}
use lin_tac09cpbpsl_esp32c.Bridge.Mirror.{Results, set_mirror_enabled}
use lin_tac09cpbpsl_esp32c.Bridge.Rollback.{IsRoute, undoes, set_mirror_enabled-IsRoute}
use lin_tac09cpbpsl_esp32c.Bridge.Update.{inc32, no_request}
use lin_tac09cpbpsl_esp32c.Bridge.Queue.{
  EspErr, mitm_active, is_fresh, links_fresh, setpoint_out_of_mode, clear_bits, merged_mask,
  merge_request, queued_overlay, accept_control, queue_control, set_hardware_ready,
}
use lin_tac09cpbpsl_esp32c.Bridge.Merge.{is_exclusive, no_request-IsSound}
use lin_tac09cpbpsl_esp32c.Bridge.Tasks.{watchdog_round}
use lin_tac09cpbpsl_esp32c.Bridge.Stream.{Stream, consume_byte}
use lin_tac09cpbpsl_esp32c.Bridge.Boot.{boot, boot_state, empty_stream}
use lin_tac09cpbpsl_esp32c.Bridge.Command.{command}
use lin_tac09cpbpsl_esp32c.Bridge.Invariant.{is_pending, IsValid}
use lin_tac09cpbpsl_esp32c.Bridge.Handlers.{queue_control-IsValid}
use lin_tac09cpbpsl_esp32c.Bridge.Framing.{IsFramed, consume_byte-IsFramed}
use lin_tac09cpbpsl_esp32c.Bridge.Round.{InStep, stream_round, stream_round-InStep}
use lin_tac09cpbpsl_esp32c.Bridge.Reach.{Step, Reach, Reach-IsValid}
use lin_tac09cpbpsl_esp32c.Bridge.Deadline.{watchdog_round-expires}
use lin_tac09cpbpsl_esp32c.Bridge.Conflict.{queue_control-unconfirmable}
use lin_tac09cpbpsl_esp32c.Tests.Frames.{captured_main, cool_24}

-- The profile MITM_NTS of main/CMakeLists.txt.
abbrev pub mitm_nts : Profile
mitm_nts = record {
  bridge_active = true;
  hybrid_bridge = true;
  control_verified = true;
  panel_hardware_forward = true;
  panel_loop_control = true;
  nts0104_preflight = true;
}

abbrev pub etm_route : Route
etm_route = record { rise_on = true; fall_on = true; uart_on = false; enabled = true }

abbrev pub all_ok : Results
all_ok = record { pin = 0; rise = 0; fall = 0; undo_rise = 0; undo_fall = 0; undo_pin = 0 }

-- The service at 1 s, after a frame of each side in the mode Cool.
abbrev pub live : Service
live = record (boot mitm_nts etm_route) {
  state = record (boot_state mitm_nts) { main_valid = true; panel_valid = true; mode = Mode.cool };
  hardware_ready = true;
  main_frame_time_us = 900000;
  panel_frame_time_us = 950000;
}

live-IsValid : IsValid (command live)
unfolding boot boot_state is_pending
live-IsValid = record {
  override = refl;
  pending = refl;
  confirm = refl;
  status = refl;
  one_takeover = refl;
  takeover_active = refl;
  numbered = refl;
  queued = λ e. cc e;
  sound = no_request-IsSound;
}

cool_24-exclusive_run : is_exclusive cool_24 ≡ true
unfolding is_exclusive has
cool_24-exclusive_run = refl

-- The service with the request for 24 degrees in it.
abbrev waiting : Service
waiting = (queue_control mitm_nts 1000000 cool_24 live).2

waiting-IsValid : IsValid (command waiting)
waiting-IsValid =
    (queue_control-IsValid mitm_nts 1000000 cool_24 (omega arith) cool_24-exclusive_run
      (record { valid = live-IsValid })).valid

waiting-active : waiting.overlay.active ≡ true
unfolding queue_control mitm_active rejects has valid_setpoint is_control_mode is_control_fan
    links_fresh is_fresh setpoint_out_of_mode is_cool accept_control queued_overlay merge_request
    merged_mask clear_bits boot
waiting-active = refl

waiting-time : waiting.overlay.queued_time_us ≡ 1000000
unfolding queue_control mitm_active rejects has valid_setpoint is_control_mode is_control_fan
    links_fresh is_fresh setpoint_out_of_mode is_cool accept_control queued_overlay merge_request
    merged_mask clear_bits boot
waiting-time = refl

watchdog_round-expires_example :
    let t = watchdog_round mitm_nts all_ok 6000000 waiting in
    (t.overlay.active ≡ false)
    × (t.state.command_pending ≡ false)
    × (t.state.command_status ≡ CommandStatus.timed_out)
    × (t.state.command_timeouts ≡ inc32 waiting.state.command_timeouts)
    × (t.overlay.request ≡ no_request)
watchdog_round-expires_example =
    watchdog_round-expires mitm_nts all_ok 6000000 waiting waiting-IsValid waiting-active
      (rw waiting-time (omega arith))

-- The mode Fan, asked for while the setpoint of `cool_24` is not confirmed.
abbrev fan_only : Request
fan_only = record no_request { mask = 4; mode = Mode.fan }

waiting-setpoint : has waiting.overlay.request.mask control_setpoint ≡ true
unfolding queue_control mitm_active rejects has valid_setpoint is_control_mode is_control_fan
    links_fresh is_fresh setpoint_out_of_mode is_cool accept_control queued_overlay merge_request
    merged_mask clear_bits boot
waiting-setpoint = refl

fan_only-mode : has fan_only.mask control_mode ≡ true
unfolding has
fan_only-mode = refl

fan_only-is_cool : is_cool fan_only.mode ≡ false
unfolding is_cool
fan_only-is_cool = refl

fan_only-taken : (queue_control mitm_nts 1100000 fan_only waiting).0 ≡ EspErr.ok
unfolding queue_control mitm_active rejects has valid_setpoint is_control_mode is_control_fan
    links_fresh is_fresh setpoint_out_of_mode is_cool accept_control queued_overlay merge_request
    merged_mask clear_bits boot
fan_only-taken = refl

queue_control-unconfirmable_example :
    main_state_confirms
      (main_fields captured_main)
      (queue_control mitm_nts 1100000 fan_only waiting).2.overlay.request
    ≡ false
queue_control-unconfirmable_example =
    queue_control-unconfirmable mitm_nts 1100000 fan_only waiting (main_fields captured_main)
      waiting-active waiting-setpoint fan_only-mode fan_only-is_cool fan_only-taken

empty_stream-IsFramed : IsFramed empty_stream
unfolding empty_stream
empty_stream-IsFramed = record { short = λ h. refl; long = λ h. elim h [ ] }

consume_byte-IsFramed_example :
    (t : Stream) × (u : Service) × (consume_byte mitm_nts all_ok Side.main 1000000 0x54 empty_stream
        live
      ≡ some (t, u))
    × IsFramed t
    × (length t.bytes < main_frame_size)
consume_byte-IsFramed_example =
    consume_byte-IsFramed mitm_nts all_ok Side.main 1000000 0x54 empty_stream live
      empty_stream-IsFramed

-- The hardware becomes ready, a request is queued, and the watchdog runs.
abbrev started : Service
started = set_hardware_ready mitm_nts all_ok true (boot mitm_nts etm_route)

abbrev asked : Service
asked = (queue_control mitm_nts 1000000 cool_24 started).2

Reach-IsValid_example : IsValid (command (watchdog_round mitm_nts all_ok 7000000 asked))
Reach-IsValid_example = Reach-IsValid mitm_nts etm_route (
    Reach.next
      (Reach.next (Reach.next Reach.here (Step.ready (boot mitm_nts etm_route) all_ok true))
        (Step.queue started 1000000 cool_24 (omega arith) cool_24-exclusive_run))
      (Step.watchdog asked all_ok 7000000))

stream_round-InStep_example :
    InStep (stream_round mitm_nts all_ok Side.main 1000000 captured_main empty_stream live)
stream_round-InStep_example =
    stream_round-InStep mitm_nts all_ok Side.main 1000000 captured_main empty_stream live
      empty_stream-IsFramed live-IsValid

-- The falling edge's channel cannot be switched off.
abbrev fall_fails : Results
fall_fails = record all_ok { fall = 1 }

etm_route-IsRoute : IsRoute etm_route
etm_route-IsRoute = record { rise = refl; fall = refl; uart = refl }

fall_fails-undoes : undoes fall_fails ≡ true
unfolding undoes
fall_fails-undoes = refl

set_mirror_enabled-IsRoute_example :
    let (result, t) = set_mirror_enabled mitm_nts fall_fails false etm_route in
    IsRoute t
    × (t.enabled
        ≡ (if mitm_nts.panel_hardware_forward && result == 0 then false else etm_route.enabled))
set_mirror_enabled-IsRoute_example =
    set_mirror_enabled-IsRoute mitm_nts fall_fails false etm_route etm_route-IsRoute
      fall_fails-undoes

-- ===== src/Tests/Parts.antt =====
-- main/nts0104_preflight.c, main/main.c and main/telemetry.c in short runs.
use lin_tac09cpbpsl_esp32c.Common.{
  ℕ, ◌-◌, ◌≡◌, refl, true, false, List, [], ◌∷◌, length, none, some, ltb, ◌&&◌, if◌then◌else◌,
  arith,
}
use lin_tac09cpbpsl_esp32c.Bridge.Types.{Profile, Route}
use lin_tac09cpbpsl_esp32c.Bridge.Queue.{mitm_active}
use lin_tac09cpbpsl_esp32c.Preflight.Interlock.{
  Gpio, Outcome, Reason, Context, Driver, default_config, cleared, supply_contract_is_valid,
  set_reason, close_oe, gpio_in_range, init, self_test, can_enable, enable,
}
use lin_tac09cpbpsl_esp32c.Preflight.Inv.{IsSafe, Step, Reach, Reach-IsSafe, enable-again}
use lin_tac09cpbpsl_esp32c.Preflight.Startup.{Start, app_start, all_well, app_start-ready}
use lin_tac09cpbpsl_esp32c.Telemetry.{telemetry_get_after}
use lin_tac09cpbpsl_esp32c.Telemetry.Ring.{
  publish_all, line_at, next_line, telemetry_get_after-publish_all,
}

-- `s_ctx` as the program starts.
abbrev zero_context : Context
zero_context = record {
  config = record { oe_gpio = Gpio.number 0; vdda_mv = 0; vddb_mv = 0 };
  initialized = false;
  oe_enabled = false;
  supply_contract_valid = false;
  self_test_passed = false;
  reason = Reason.no_reason;
  oe_driven = false;
}

abbrev low : Driver
low = record { result = 0; level = 0 }

abbrev high : Driver
high = record { result = 0; level = 1 }

zero_context-IsSafe : IsSafe zero_context
zero_context-IsSafe = record {
  after_self_test = λ e. cc e;
  after_contract = λ e. cc e;
  after_init = λ e. cc e;
  declared = λ e. cc e;
  driven = λ e. cc e;
  driven_as_shown = λ e. refl;
}

-- Armed, tested and enabled, on a target with 31 pins.
abbrev armed : Context
armed = (init 31 low default_config zero_context).1

abbrev tested : Context
tested = (self_test low armed).1

Reach-IsSafe_example : IsSafe (enable high tested).1
Reach-IsSafe_example =
    Reach-IsSafe {n = 31}
      (Reach.next
        (Reach.next (Reach.next Reach.here (Step.init_call zero_context low default_config))
          (Step.self_test_call armed low))
        (Step.enable_call tested high))
      zero_context-IsSafe

tested-enabled : (enable high tested).0 ≡ Outcome.ok
unfolding enable can_enable self_test init cleared supply_contract_is_valid default_config
    gpio_in_range set_reason close_oe
tested-enabled = refl

enable-again_example :
    let again = enable high (enable high tested).1 in
    (again.0 ≡ Outcome.invalid_state)
    × (again.1.oe_enabled ≡ false)
    × (again.1.reason ≡ Reason.enabled)
enable-again_example = enable-again high high tested tested-enabled

abbrev mitm_nts : Profile
mitm_nts = record {
  bridge_active = true;
  hybrid_bridge = true;
  control_verified = true;
  panel_hardware_forward = true;
  panel_loop_control = true;
  nts0104_preflight = true;
}

abbrev etm_route : Route
etm_route = record { rise_on = true; fall_on = true; uart_on = false; enabled = true }

abbrev good_start : Start
good_start = record {
  gpio_num_max = 31;
  at_init = low;
  at_self_test = low;
  at_enable = high;
  bridge_result = 0;
  mirror = record { pin = 0; rise = 0; fall = 0; undo_rise = 0; undo_fall = 0; undo_pin = 0 };
}

app_start-ready_example :
    let (end, s) = app_start mitm_nts true good_start etm_route zero_context in
    (s.hardware_ready ≡ all_well true good_start)
    × (end.oe_enabled ≡ all_well true good_start)
    × (mitm_active mitm_nts s.hardware_ready
        ≡ (mitm_active mitm_nts true && all_well true good_start))
    × (s.state.mitm_active ≡ (mitm_active mitm_nts true && all_well true good_start))
app_start-ready_example = app_start-ready mitm_nts true good_start etm_route zero_context

abbrev three_lines : List (List ℕ)
three_lines = (67 ∷ []) ∷ (66 ∷ []) ∷ (65 ∷ []) ∷ []

telemetry_get_after-publish_all_example : telemetry_get_after true 1 (publish_all three_lines) ≡ (
    if ltb 1 (length three_lines)
    then some (record {
      sequence = next_line (length three_lines) 1;
      text = line_at three_lines (next_line (length three_lines) 1 - 1);
    })
    else none)
telemetry_get_after-publish_all_example =
    telemetry_get_after-publish_all three_lines 1 (omega arith) (omega arith)

-- ===== src/Preflight/Startup.antt =====
-- main/main.c: the order in which `app_main` arms the interlock, starts the bridge and enables the
-- translator's outputs. The services of the network, which it starts before the interlock and after
-- it, touch neither; nor does the call of `bridge_service_set_hardware_ready` in
-- `nts0104_preflight_before_bridge` leave a trace, since the variables are set at the bridge's start.
use lin_tac09cpbpsl_esp32c.Common.{
  ℕ, ◌≡◌, Bool, true, false, not, ◌&&◌, ltb, ◌==◌, if◌then◌else◌, arith, Bool-cases, inl, inr,
}
use lin_tac09cpbpsl_esp32c.Bridge.Types.{Profile, Route, Service}
use lin_tac09cpbpsl_esp32c.Bridge.Mirror.{Results, restore_mirror}
use lin_tac09cpbpsl_esp32c.Bridge.Update.{close_command}
use lin_tac09cpbpsl_esp32c.Preflight.Inv.{IsSafe, init-IsSafe, self_test-IsSafe, enable-IsSafe}
use lin_tac09cpbpsl_esp32c.Bridge.Queue.{mitm_active, set_hardware_ready}
use lin_tac09cpbpsl_esp32c.Bridge.Boot.{boot}
use lin_tac09cpbpsl_esp32c.Preflight.Interlock.{
  Outcome, Context, Driver, default_config, init, self_test, can_enable, enable, disable,
  gpio_in_range, supply_contract_is_valid, cleared, set_reason, close_oe,
}

-- `result == ESP_OK`
unfoldable pub is_ok : Outcome → Bool
is_ok Outcome.ok = true
is_ok _ = false

-- What ESP-IDF does in the three operations of one start, and the pins that the target has.
pub record Start : Type 0 where
  pub gpio_num_max : ℕ
  pub at_init : Driver
  pub at_self_test : Driver
  pub at_enable : Driver
  pub bridge_result : ℕ
  pub mirror : Results

-- The self-test, and then the outputs.
unfoldable pub enable_outputs : Start → Context → Outcome × Context
enable_outputs d c =
    let (result, tested) = self_test d.at_self_test c in
    if is_ok result && can_enable tested
    then enable d.at_enable tested
    else if is_ok result
    then (Outcome.invalid_state, tested)
    else (result, tested)

-- `nts0104_preflight_after_bridge`, in a build whose KLIMA_NTS0104_OUTPUTS_ENABLED is `outputs`.
unfoldable pub after_bridge : Profile → Bool → Start → Context → Service → Context × Service
unfolding enable_outputs
after_bridge p outputs d c s =
    if not outputs
    then ((disable c).1, set_hardware_ready p d.mirror false s)
    else (let (result, tried) = enable_outputs d c in
        if not (is_ok result)
        then ((disable tried).1, set_hardware_ready p d.mirror false s)
        else (tried, set_hardware_ready p d.mirror true s))

-- The part of `app_main` from `nts0104_preflight_before_bridge` to `nts0104_preflight_after_bridge`,
-- in a build with the interlock. `bridge_service_start`, whose result is `bridge_result`, leaves the
-- variables as `boot` has them.
unfoldable pub app_start : Profile → Bool → Start → Route → Context → Context × Service
unfolding after_bridge
app_start p outputs d route c =
    let armed = (init d.gpio_num_max d.at_init default_config c).1 in
    let s = boot p route in
    if not (d.bridge_result == 0)
    then ((disable armed).1, set_hardware_ready p d.mirror false s)
    else after_bridge p outputs d armed s

-- All that has to go well for the outputs to be enabled.
unfoldable pub all_well : Bool → Start → Bool
unfolding gpio_in_range
all_well outputs d =
    outputs
    && d.bridge_result == 0
    && ltb 3 d.gpio_num_max
    && d.at_init.result == 0
    && d.at_self_test.level == 0
    && d.at_enable.result == 0
    && d.at_enable.level == 1

init_default :
    (d : Start) (c : Context)
    → let armed = (init d.gpio_num_max d.at_init default_config c).1 in
      let on = ltb 3 d.gpio_num_max && d.at_init.result == 0 in
      (armed.initialized ≡ on) × (armed.supply_contract_valid ≡ on) × (armed.oe_enabled ≡ false)
unfolding init gpio_in_range default_config supply_contract_is_valid cleared set_reason close_oe
init_default d c = ground arith

self_test_result :
    (d : Driver) (c : Context)
    → let on = c.initialized && c.supply_contract_valid && d.level == 0 in
      (is_ok (self_test d c).0 ≡ on)
      × (((self_test d c).1.oe_enabled && c.initialized) ≡ false)
      × ((is_ok (self_test d c).0 && not (can_enable (self_test d c).1)) ≡ false)
unfolding self_test is_ok can_enable set_reason close_oe
self_test_result d c = ground arith

enable_result :
    (d : Driver) (c : Context)
    → can_enable c ≡ true
    → let on = d.result == 0 && d.level == 1 in
      (is_ok (enable d c).0 ≡ on) × ((enable d c).1.oe_enabled ≡ on)
unfolding enable is_ok can_enable set_reason close_oe
enable_result d c h = ground arith

enable_outputs_result :
    (d : Start) (c : Context)
    → let on =
        c.initialized
        && c.supply_contract_valid
        && d.at_self_test.level == 0
        && d.at_enable.result == 0
        && d.at_enable.level == 1 in
      (is_ok (enable_outputs d c).0 ≡ on)
      × ((is_ok (enable_outputs d c).0 && not (enable_outputs d c).1.oe_enabled) ≡ false)
unfolding enable_outputs
enable_outputs_result d c = ground (
  arith,
  self_test_result d.at_self_test c,
  enable_result d.at_enable (self_test d.at_self_test c).1,
)

disable-off : (c : Context) → IsSafe c → (disable c).1.oe_enabled ≡ false
unfolding disable set_reason close_oe
disable-off c v = ground (arith, v.after_self_test, v.after_contract, v.after_init)

enable_outputs-IsSafe : (d : Start) (c : Context) → IsSafe c → IsSafe (enable_outputs d c).1
unfolding enable_outputs
enable_outputs-IsSafe d c v =
    let tested = self_test-IsSafe d.at_self_test c v in
    let tried = enable-IsSafe d.at_enable (self_test d.at_self_test c).1 tested in
    elim (Bool-cases
      (is_ok (self_test d.at_self_test c).0 && can_enable (self_test d.at_self_test c).1)) [
        | inl e ↦ rw e tried
        | inr e ↦ elim (Bool-cases (is_ok (self_test d.at_self_test c).0)) [
          | inl g ↦ rw (e, g) tested
          | inr g ↦ rw (e, g) tested
        ]
      ]

hardware_ready_as :
    (p : Profile) (d : Results) (on : Bool) (s : Service)
    → let t = set_hardware_ready p d on s in
      (t.hardware_ready ≡ on) × (t.state.mitm_active ≡ mitm_active p on)
unfolding set_hardware_ready restore_mirror close_command
hardware_ready_as p d on s = ground arith

mitm_active-unready : (p : Profile) → mitm_active p false ≡ false
unfolding mitm_active
mitm_active-unready p = ground arith

-- After the start of a build with the interlock, in every profile, the bridge holds the hardware as
-- ready exactly where the translator's outputs are shown as enabled, and that is exactly where
-- everything went well: the build drives the outputs, the bridge started, the pin could be
-- configured, the self-test read it as low, and it was then raised and read back as high. The control
-- is active, and shown as active, exactly where everything went well and the profile has a control: in
-- a profile without one the outputs are enabled, and the control is not active.
pub app_start-ready :
    (p : Profile) (outputs : Bool) (d : Start) (route : Route) (c : Context)
    → let (end, s) = app_start p outputs d route c in
      (s.hardware_ready ≡ all_well outputs d)
      × (end.oe_enabled ≡ all_well outputs d)
      × (mitm_active p s.hardware_ready ≡ (mitm_active p true && all_well outputs d))
      × (s.state.mitm_active ≡ (mitm_active p true && all_well outputs d))
unfolding app_start after_bridge all_well gpio_in_range
app_start-ready p outputs d route c =
    let armed = (init d.gpio_num_max d.at_init default_config c).1 in
    let safe = init-IsSafe d.gpio_num_max d.at_init default_config c in
    let tried = (enable_outputs d armed).1 in
    ground (
      arith,
      init_default d c,
      enable_outputs_result d armed,
      disable-off armed safe,
      disable-off tried (enable_outputs-IsSafe d armed safe),
      hardware_ready_as p d.mirror true (boot p route),
      hardware_ready_as p d.mirror false (boot p route),
      mitm_active-unready p,
    )

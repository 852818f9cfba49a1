-- ===== src/Preflight/Interlock.antt =====
-- main/nts0104_preflight.c: the state of the interlock and its operations. The pin's driver belongs
-- to ESP-IDF: what it returns and reads are arguments.
use lin_tac09cpbpsl_esp32c.Common.{
  ℕ, Bool, true, false, not, ◌&&◌, ◌||◌, ltb, leb, ◌==◌, if◌then◌else◌,
}

-- `gpio_num_t`: GPIO_NUM_NC, which is -1, or the number of a pin.
pub data Gpio : Type 0 where
  not_connected : Gpio
  number : ℕ → Gpio

-- `nts0104_preflight_reason_t`
pub data Reason : Type 0 where
  no_reason not_initialized oe_held_low supply_contract_invalid vdda_gt_vddb : Reason
  self_test_failed ready enabled : Reason

-- The `esp_err_t` of the operations; `driver` passes on an error of the pin's driver.
pub data Outcome : Type 0 where
  ok invalid_arg invalid_state fail : Outcome
  driver : ℕ → Outcome

-- `nts0104_preflight_config_t`
pub record Config : Type 0 where
  pub oe_gpio : Gpio
  pub vdda_mv : ℕ
  pub vddb_mv : ℕ

-- `s_ctx`, its `status` without the copies that `init` makes of the configuration, and the level
-- that the pin was last told to drive.
pub record Context : Type 0 where
  pub config : Config
  pub initialized : Bool
  pub oe_enabled : Bool
  pub supply_contract_valid : Bool
  pub self_test_passed : Bool
  pub reason : Reason
  pub oe_driven : Bool

-- What the driver does in one operation: the result of `gpio_config` or `gpio_set_level`, 0 for
-- `ESP_OK`, and the level that `gpio_get_level` reads.
pub record Driver : Type 0 where
  pub result : ℕ
  pub level : ℕ

-- NTS0104_REQUIRED_VDDA_MV, NTS0104_REQUIRED_VDDB_MV
abbrev pub required_vdda_mv : ℕ
required_vdda_mv = 3300

abbrev pub required_vddb_mv : ℕ
required_vddb_mv = 5000

-- `nts0104_preflight_default_config`
unfoldable pub default_config : Config
default_config = record {
  oe_gpio = Gpio.number 3;
  vdda_mv = required_vdda_mv;
  vddb_mv = required_vddb_mv;
}

unfoldable pub set_reason : Reason → Context → Context
set_reason reason c = record c { reason = reason }

-- `close_oe`; its calls of the driver are best effort.
unfoldable pub close_oe : Context → Context
close_oe c = record c {
  oe_enabled = false;
  oe_driven = if c.initialized then false else c.oe_driven;
}

unfoldable pub supply_contract_is_valid : Config → Bool
supply_contract_is_valid c =
    c.vdda_mv == required_vdda_mv && c.vddb_mv == required_vddb_mv && leb c.vdda_mv c.vddb_mv

-- `oe_gpio >= 0 && oe_gpio < GPIO_NUM_MAX`
unfoldable pub gpio_in_range : ℕ → Gpio → Bool
gpio_in_range gpio_num_max Gpio.not_connected = false
gpio_in_range gpio_num_max (Gpio.number n) = ltb n gpio_num_max

-- `s_ctx = (nts0104_context_t){ .config = config }`
unfoldable pub cleared : Config → Context → Context
cleared config c = record {
  config = config;
  initialized = false;
  oe_enabled = false;
  supply_contract_valid = false;
  self_test_passed = false;
  reason = Reason.no_reason;
  oe_driven = c.oe_driven;
}

-- `nts0104_preflight_init`, for a target that has `gpio_num_max` pins.
unfoldable pub init : ℕ → Driver → Config → Context → Outcome × Context
unfolding cleared set_reason close_oe
init gpio_num_max d config before =
    let c = cleared config before in
    if not (gpio_in_range gpio_num_max config.oe_gpio) || config.vdda_mv == 0 || config.vddb_mv == 0
    then (Outcome.invalid_arg, set_reason Reason.not_initialized c)
    else if not (d.result == 0)
    then (Outcome.driver d.result, c)
    else (let valid = supply_contract_is_valid config in
        let armed = close_oe (record c { initialized = true; supply_contract_valid = valid }) in
        if not valid
        then (
          Outcome.invalid_state,
          set_reason
              (if ltb config.vddb_mv config.vdda_mv
                then Reason.vdda_gt_vddb
                else Reason.supply_contract_invalid)
              armed,
        )
        else (Outcome.ok, set_reason Reason.oe_held_low armed))

-- `nts0104_preflight_self_test`
unfoldable pub self_test : Driver → Context → Outcome × Context
unfolding set_reason close_oe
self_test d c =
    if not c.initialized
    then (Outcome.invalid_state, set_reason Reason.not_initialized c)
    else (let closed = close_oe c in
        if not c.supply_contract_valid || not (d.level == 0)
        then (
          Outcome.fail,
          set_reason Reason.self_test_failed (record closed { self_test_passed = false }),
        )
        else (Outcome.ok, set_reason Reason.ready (record closed { self_test_passed = true })))

-- `nts0104_preflight_can_enable`
unfoldable pub can_enable : Context → Bool
can_enable c = c.initialized && c.supply_contract_valid && c.self_test_passed && not c.oe_enabled

-- `nts0104_preflight_enable`
unfoldable pub enable : Driver → Context → Outcome × Context
unfolding set_reason close_oe
enable d c =
    if not (can_enable c)
    then (
      Outcome.invalid_state,
      if not c.initialized then set_reason Reason.not_initialized (close_oe c) else close_oe c,
    )
    else if not (d.result == 0) || not (d.level == 1)
    then (
      if d.result == 0 then Outcome.fail else Outcome.driver d.result,
      set_reason Reason.self_test_failed (close_oe (record c { oe_driven = true })),
    )
    else (Outcome.ok, set_reason Reason.enabled (record c { oe_enabled = true; oe_driven = true }))

-- `nts0104_preflight_disable`
unfoldable pub disable : Context → Outcome × Context
unfolding set_reason close_oe
disable c =
    if not c.initialized
    then (Outcome.invalid_state, set_reason Reason.not_initialized c)
    else (Outcome.ok, set_reason Reason.oe_held_low (close_oe c))

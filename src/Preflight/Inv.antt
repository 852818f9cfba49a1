-- ===== src/Preflight/Inv.antt =====
-- main/nts0104_preflight.c: when the output enable can be on, in any order of the operations.
use lin_tac09cpbpsl_esp32c.Common.{ℕ, ◌≡◌, ◌↔◌, true, false, ◌&&◌, ◌==◌, arith}
use lin_tac09cpbpsl_esp32c.Preflight.Interlock.{
  Outcome, Reason, Config, Context, Driver, set_reason, close_oe, supply_contract_is_valid, cleared,
  init, self_test, can_enable, enable, disable,
}

-- The output enable is shown as on only after an initialisation with the declared supplies and a
-- passed self-test, and then the pin is driven high; a self-test passes only then, too.
pub record IsSafe (c : Context) : Type 0 where
  pub after_self_test : c.oe_enabled ≡ true → c.self_test_passed ≡ true
  pub after_contract : c.self_test_passed ≡ true → c.supply_contract_valid ≡ true
  pub after_init : c.supply_contract_valid ≡ true → c.initialized ≡ true
  pub declared : c.supply_contract_valid ≡ true → supply_contract_is_valid c.config ≡ true
  pub driven : c.oe_enabled ≡ true → c.oe_driven ≡ true
  pub driven_as_shown : c.initialized ≡ true → c.oe_driven ≡ c.oe_enabled

-- One call of an operation, whatever the driver does in it.
pub data Step (gpio_num_max : ℕ) : Context → Context → Type 0 where
  init_call :
      (c : Context) (d : Driver) (config : Config)
      → Step gpio_num_max c (init gpio_num_max d config c).1
  self_test_call : (c : Context) (d : Driver) → Step gpio_num_max c (self_test d c).1
  enable_call : (c : Context) (d : Driver) → Step gpio_num_max c (enable d c).1
  disable_call : (c : Context) → Step gpio_num_max c (disable c).1

pub init-IsSafe :
    (n : ℕ) (d : Driver) (config : Config) (c : Context) → IsSafe (init n d config c).1
unfolding init cleared set_reason close_oe
init-IsSafe n d config c = record {
  after_self_test = ground arith;
  after_contract = ground arith;
  after_init = ground arith;
  declared = ground arith;
  driven = ground arith;
  driven_as_shown = ground arith;
}

pub self_test-IsSafe : (d : Driver) (c : Context) → IsSafe c → IsSafe (self_test d c).1
unfolding self_test set_reason close_oe
self_test-IsSafe d c v = record {
  after_self_test = ground (arith, v.after_self_test, v.after_contract, v.after_init);
  after_contract = ground (arith, v.after_contract);
  after_init = ground (arith, v.after_init);
  declared = ground (arith, v.declared);
  driven = ground (arith, v.driven);
  driven_as_shown = ground (arith, v.driven_as_shown);
}

pub enable-IsSafe : (d : Driver) (c : Context) → IsSafe c → IsSafe (enable d c).1
unfolding enable can_enable set_reason close_oe
enable-IsSafe d c v = record {
  after_self_test = ground (arith, v.after_self_test, v.after_contract, v.after_init);
  after_contract = ground (arith, v.after_contract);
  after_init = ground (arith, v.after_init);
  declared = ground (arith, v.declared);
  driven = ground (arith, v.driven);
  driven_as_shown = ground (arith, v.driven_as_shown);
}

pub disable-IsSafe : (c : Context) → IsSafe c → IsSafe (disable c).1
unfolding disable set_reason close_oe
disable-IsSafe c v = record {
  after_self_test = ground (arith, v.after_self_test, v.after_contract, v.after_init);
  after_contract = ground (arith, v.after_contract);
  after_init = ground (arith, v.after_init);
  declared = ground (arith, v.declared);
  driven = ground (arith, v.driven);
  driven_as_shown = ground (arith, v.driven_as_shown);
}

-- The states that calls reach from the start of the program, where all is zero.
pub data Reach (gpio_num_max : ℕ) (start : Context) : Context → Type 0 where
  here : Reach gpio_num_max start start
  next :
      {c e : Context}
      → Reach gpio_num_max start c
      → Step gpio_num_max c e
      → Reach gpio_num_max start e

Step-IsSafe : {n : ℕ} {c e : Context} → Step n c e → IsSafe c → IsSafe e
Step-IsSafe {n} (init_call c d config) v = init-IsSafe n d config c
Step-IsSafe (self_test_call c d) v = self_test-IsSafe d c v
Step-IsSafe (enable_call c d) v = enable-IsSafe d c v
Step-IsSafe (disable_call c) v = disable-IsSafe c v

-- In every state that calls of the operations reach from a safe one, in any order and whatever the
-- driver does, the output enable is shown as on only after a passed self-test under the declared
-- supplies, and the pin of an initialised interlock is driven as shown.
pub Reach-IsSafe : {n : ℕ} {c e : Context} → Reach n c e → IsSafe c → IsSafe e
Reach-IsSafe here v = v
Reach-IsSafe (next r st) v = Step-IsSafe st (Reach-IsSafe r v)

-- The output enable is raised by `enable` alone, and only where the self-test has passed, the
-- supplies are the declared ones, and the driver both takes the level and reads it back.
pub enable-ok_iff :
    (d : Driver) (c : Context)
    → ((enable d c).1.oe_enabled ≡ true) ↔ ((can_enable c && d.result == 0 && d.level == 1) ≡ true)
unfolding enable can_enable set_reason close_oe
enable-ok_iff d c = ground arith

-- A second call of `enable` while the output is on switches it off and reports an error, but the
-- shown reason stays `enabled`.
pub enable-again :
    (d e : Driver) (c : Context)
    → (enable d c).0 ≡ Outcome.ok
    → let again = enable e (enable d c).1 in
      (again.0 ≡ Outcome.invalid_state)
      × (again.1.oe_enabled ≡ false)
      × (again.1.reason ≡ Reason.enabled)
unfolding enable can_enable set_reason close_oe
enable-again d e c h = ground arith

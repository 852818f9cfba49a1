-- ===== src/Protocol/Flags.antt =====
-- What the flag statements of `ac_protocol_apply_control` make of the feature byte.
use lin_tac09cpbpsl_esp32c.Common.{
  ℕ, ◌-◌, bit_and, ◌≡◌, refl, ◌∙◌, ap, Bool, true, false, has, if◌then◌else◌, arith,
}
use lin_tac09cpbpsl_esp32c.Common.Bits.{has-bit_or, has-bit_and, has-zero}
use lin_tac09cpbpsl_esp32c.Protocol.Types.{Request}
use lin_tac09cpbpsl_esp32c.Protocol.Wire.{
  power_bit, feature_units_fahrenheit, feature_quiet, feature_timer, control_power, control_quiet,
  control_units_fahrenheit, control_timer,
}
use lin_tac09cpbpsl_esp32c.Protocol.Control.{set_flag}

-- A flag reads back as it was written.
has-set_flag :
    (flag : ℕ) (on : Bool) (x : ℕ)
    → has flag flag ≡ true
    → bit_and (0xff - flag) flag ≡ 0
    → has (set_flag flag on x) flag ≡ on
unfolding set_flag
has-set_flag flag true x h k = ground (arith, has-bit_or x flag flag)
has-set_flag flag false x h k = ground (arith, has-bit_and x (0xff - flag) flag, has-zero x)

-- The other flags of the byte stay as they are.
has-set_flag_other :
    (flag other : ℕ) (on : Bool) (x : ℕ)
    → has flag other ≡ false
    → bit_and (0xff - flag) other ≡ other
    → has (set_flag flag on x) other ≡ has x other
unfolding set_flag
has-set_flag_other flag other true x h k = ground (arith, has-bit_or x flag other)
has-set_flag_other flag other false x h k = ground (arith, has-bit_and x (0xff - flag) other)

-- One flag statement, on the byte alone.
unfoldable pub flag_value : Request → ℕ → ℕ → Bool → ℕ → ℕ
flag_value r control flag on x = if has r.mask control then set_flag flag on x else x

-- The byte after the four flag statements.
unfoldable pub feature_byte : Request → ℕ → ℕ
feature_byte r x =
    let x1 = flag_value r control_power power_bit r.power x in
    let x2 = flag_value r control_quiet feature_quiet r.quiet x1 in
    let x3 = flag_value r control_units_fahrenheit feature_units_fahrenheit r.units_fahrenheit x2 in
    flag_value r control_timer feature_timer r.timer x3

module _ (r : Request) (control flag : ℕ) (on : Bool) (x : ℕ) where
  has-flag_value :
      has flag flag ≡ true
      → bit_and (0xff - flag) flag ≡ 0
      → has (flag_value r control flag on x) flag ≡ (if has r.mask control then on else has x flag)
  unfolding flag_value
  has-flag_value h k = ground (arith, has-set_flag flag on x)

  has-flag_value_other :
      (other : ℕ)
      → has flag other ≡ false
      → bit_and (0xff - flag) other ≡ other
      → has (flag_value r control flag on x) other ≡ has x other
  unfolding flag_value
  has-flag_value_other other h k = ground (arith, has-set_flag_other flag other on x)

-- Each flag of the new byte is the requested one where the request has it, and else the old one.
pub feature_byte_flags :
    (r : Request) (x : ℕ)
    → (has (feature_byte r x) power_bit
        ≡ (if has r.mask control_power then r.power else has x power_bit))
      × (has (feature_byte r x) feature_quiet
          ≡ (if has r.mask control_quiet then r.quiet else has x feature_quiet))
      × (has (feature_byte r x) feature_units_fahrenheit ≡ (
          if has r.mask control_units_fahrenheit
          then r.units_fahrenheit
          else has x feature_units_fahrenheit))
      × (has (feature_byte r x) feature_timer
          ≡ (if has r.mask control_timer then r.timer else has x feature_timer))
unfolding feature_byte has
feature_byte_flags r x =
    let x1 = flag_value r control_power power_bit r.power x in
    let x2 = flag_value r control_quiet feature_quiet r.quiet x1 in
    let x3 = flag_value r control_units_fahrenheit feature_units_fahrenheit r.units_fahrenheit x2 in
    let of_power = has-flag_value r control_power power_bit r.power x refl refl in
    let of_quiet = has-flag_value r control_quiet feature_quiet r.quiet x1 refl refl in
    let of_units =
      has-flag_value r control_units_fahrenheit feature_units_fahrenheit r.units_fahrenheit x2 refl
        refl in
    let of_timer = has-flag_value r control_timer feature_timer r.timer x3 refl refl in
    let past_power = has-flag_value_other r control_power power_bit r.power x in
    let past_quiet = has-flag_value_other r control_quiet feature_quiet r.quiet x1 in
    let past_units =
      has-flag_value_other r control_units_fahrenheit feature_units_fahrenheit r.units_fahrenheit
        x2 in
    let past_timer = has-flag_value_other r control_timer feature_timer r.timer x3 in
    (
      past_timer power_bit refl refl
          ∙ past_units power_bit refl refl
          ∙ past_quiet power_bit refl refl
          ∙ of_power,
      past_timer feature_quiet refl refl
          ∙ past_units feature_quiet refl refl
          ∙ of_quiet
          ∙ ap (λ b. if has r.mask control_quiet then r.quiet else b)
              (past_power feature_quiet refl refl),
      past_timer feature_units_fahrenheit refl refl
          ∙ of_units
          ∙ ap (λ b. if has r.mask control_units_fahrenheit then r.units_fahrenheit else b)
              (past_quiet feature_units_fahrenheit refl refl
                ∙ past_power feature_units_fahrenheit refl refl),
      of_timer
          ∙ ap (λ b. if has r.mask control_timer then r.timer else b)
              (past_units feature_timer refl refl
                ∙ past_quiet feature_timer refl refl
                ∙ past_power feature_timer refl refl),
    )

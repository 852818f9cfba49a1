-- ===== src/Bridge/Shown.antt =====
-- The frame that `ac_protocol_apply_control` makes, against the test of
-- `panel_state_matches_request` in main/bridge_service.c.
use lin_tac09cpbpsl_esp32c.Common.{
  ℕ, bit_or, ◌≡◌, refl, sym, ◌∙◌, Bool, true, false, ◌&&◌, ◌||◌, ◌==◌, has, same, if◌then◌else◌,
  arith, List, length, some, subst, same_refl, ==_refl, inl, inr, Bool-cases,
}
use lin_tac09cpbpsl_esp32c.Common.Bits.{has-mask}
use lin_tac09cpbpsl_esp32c.Protocol.Types.{PanelState, Request}
use lin_tac09cpbpsl_esp32c.Protocol.Wire.{
  panel_frame_size, control_power, control_setpoint, control_mode, control_fan,
  control_raw_mode_fan, control_quiet, control_units_fahrenheit, control_timer, feature_quiet,
  feature_units_fahrenheit, feature_timer,
}
use lin_tac09cpbpsl_esp32c.Protocol.Parse.{decode_mode, parse_panel, panel_fields}
use lin_tac09cpbpsl_esp32c.Protocol.Control.{
  rejects, mode_fan_mask, apply_control, needs_bootstrap, bootstrap_current,
}
use lin_tac09cpbpsl_esp32c.Protocol.Written.{panel_code, parse_panel_parts}
use lin_tac09cpbpsl_esp32c.Protocol.Readback.{Applied, apply_control-Applied}
use lin_tac09cpbpsl_esp32c.Bridge.Codes.{CodeShows, requested_mode_fan-shows, wants_if}
use lin_tac09cpbpsl_esp32c.Bridge.Match.{
  same_mode, same_fan, is_cool, wants, panel_state_matches_request,
}
use lin_tac09cpbpsl_esp32c.Bridge.Merge.{is_exclusive}

-- Reading the tests of `panel_state_matches_request` off the contract.
wants-same :
    (asked b old new : Bool) → b ≡ (if asked then new else old) → wants asked (same b new) ≡ true
unfolding wants
wants-same true b old new h = rw h (same_refl new)
wants-same false b old new h = refl

wants-equal :
    (asked : Bool) (x old new : ℕ)
    → x ≡ (if asked then new else old)
    → wants asked (x == new) ≡ true
unfolding wants
wants-equal true x old new h = rw h (==_refl new)
wants-equal false x old new h = refl

mode_fan_mask-has :
    (r : Request)
    → has r.mask mode_fan_mask
      ≡ (has r.mask control_mode || has r.mask control_fan || has r.mask control_raw_mode_fan)
mode_fan_mask-has r = ground (
  arith,
  has-mask r.mask (bit_or control_mode control_fan) control_raw_mode_fan,
  has-mask r.mask control_mode control_fan,
)

wants_code :
    (r : Request) (x old : ℕ) (code : ℕ)
    → x ≡ (if has r.mask mode_fan_mask then code else old)
    → CodeShows code r
    → CodeShows x r
wants_code r x old code h k = elim (Bool-cases (has r.mask mode_fan_mask)) [
  | inl e ↦ subst (λ y. CodeShows y r) (sym (h ∙ rw e refl)) k
  | inr e ↦
      let none_asked = sym e ∙ mode_fan_mask-has r in
      record {
        mode_shown = wants_if _ _ (λ g. ground arith);
        fan_shown = wants_if _ _ (λ g. ground arith);
        raw_shown = wants_if _ _ (λ g. ground arith);
      }
]

all_true :
    (a b c d e f g h : Bool)
    → a ≡ true
    → b ≡ true
    → c ≡ true
    → d ≡ true
    → e ≡ true
    → f ≡ true
    → g ≡ true
    → h ≡ true
    → (a && b && c && d && e && f && g && h) ≡ true
all_true a b c d e f g h p q r s t u v w = rw (p, q, r, s, t, u, v, w) refl

boot_mode :
    (boot : Bool) (state : PanelState)
    → state.mode ≡ decode_mode state.mode_fan_code
    → let c =
        bootstrap_current boot
          (record { mode_fan_code = state.mode_fan_code; mode = state.mode; fan = state.fan }) in
      (c.mode ≡ decode_mode c.mode_fan_code)
unfolding bootstrap_current decode_mode
boot_mode true state m = refl
boot_mode false state m = m

panel_code-shows :
    (state : PanelState) (r : Request)
    → state.mode ≡ decode_mode state.mode_fan_code
    → rejects r ≡ false
    → is_exclusive r ≡ true
    → CodeShows (panel_code state r) r
unfolding panel_code
panel_code-shows state r m ok x =
    requested_mode_fan-shows _ r (boot_mode (needs_bootstrap state.setpoint_c r) state m) ok x

Applied-shows :
    (state : PanelState) (r : Request) (event : Bool) (new : PanelState)
    → state.mode ≡ decode_mode state.mode_fan_code
    → rejects r ≡ false
    → is_exclusive r ≡ true
    → Applied state r event new
    → panel_state_matches_request new r ≡ true
unfolding panel_state_matches_request
Applied-shows state r event new m ok x a =
    let code = panel_code state r in
    let c = wants_code r new.mode_fan_code _ code a.code_as (panel_code-shows state r m ok x) in
    let mode : wants (has r.mask control_mode) (same_mode new.mode r.mode) ≡ true =
      rw a.mode_as c.mode_shown in
    let fan : wants (has r.mask control_fan && is_cool new.mode) (same_fan new.fan r.fan) ≡ true =
      rw (a.mode_as, a.fan_as) c.fan_shown in
    let boot = needs_bootstrap state.setpoint_c r in
    let quiet =
      wants-same (has r.mask control_quiet) (has new.feature_flags feature_quiet)
        (has state.feature_flags feature_quiet) r.quiet a.quiet_as in
    let units =
      wants-same (has r.mask control_units_fahrenheit)
        (has new.feature_flags feature_units_fahrenheit)
        (has state.feature_flags feature_units_fahrenheit) r.units_fahrenheit a.units_as in
    let timer =
      wants-same (has r.mask control_timer) (has new.feature_flags feature_timer)
        (has state.feature_flags feature_timer) r.timer a.timer_as in
    let setpoint =
      wants-equal (has r.mask control_setpoint) new.setpoint_c
        (if boot then 18 else state.setpoint_c) r.setpoint_c a.setpoint_as in
    let power = wants-same (has r.mask control_power) new.power state.power r.power a.power_as in
    all_true _ _ _ _ _ _ _ _ power setpoint mode fan c.raw_shown quiet units timer

-- A request in range that names a mode in one way only is written by `ac_protocol_apply_control`
-- into any frame of the panel that parses, and the result parses to a state that shows all that
-- was asked for, by the service's own test.
pub apply_control-shows :
    (f : List ℕ) (r : Request) (event : Bool) {state : PanelState}
    → length f ≡ panel_frame_size
    → parse_panel f ≡ some state
    → rejects r ≡ false
    → is_exclusive r ≡ true
    → (out : List ℕ) × (new : PanelState) × (apply_control f r event ≡ some out)
      × (parse_panel out ≡ some new)
      × (panel_state_matches_request new r ≡ true)
unfolding panel_fields
apply_control-shows f r event {state} l p ok x =
    let (out, e, _, new, parsed, a) = apply_control-Applied f r event l p ok in
    let fields = (parse_panel_parts f p).4 in
    (out, new, e, parsed, Applied-shows state r event new (rw fields refl) ok x a)

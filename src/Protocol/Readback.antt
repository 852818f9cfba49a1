-- ===== src/Protocol/Readback.antt =====
-- A request written into a frame by `ac_protocol_apply_control`, and the frame read by the parser
-- of the panel's frames.
use lin_tac09cpbpsl_esp32c.Common.{
  ℕ, bit_and, ◌≡◌, refl, sym, ◌∙◌, ap, Bool, true, false, List, get_or, length, has, ◌==◌, subst,
  none, ◌↔◌, ◌⊎◌, some, if◌then◌else◌, arith,
}
use lin_tac09cpbpsl_esp32c.Common.Bits.{has-bit_and}
use lin_tac09cpbpsl_esp32c.Protocol.Types.{PanelState, Request}
use lin_tac09cpbpsl_esp32c.Protocol.Wire.{
  panel_frame_size, power_bit, feature_units_fahrenheit, feature_quiet, feature_timer,
  control_power, control_setpoint, control_quiet, control_units_fahrenheit, control_timer,
}
use lin_tac09cpbpsl_esp32c.Protocol.Parse.{
  decode_mode, decode_fan, panel_fields, parse_panel, encode_setpoint,
}
use lin_tac09cpbpsl_esp32c.Protocol.Control.{mode_fan_mask, rejects, needs_bootstrap, apply_control}
use lin_tac09cpbpsl_esp32c.Protocol.Flags.{feature_byte_flags}
use lin_tac09cpbpsl_esp32c.Protocol.Bytes.{written}
use lin_tac09cpbpsl_esp32c.Protocol.Written.{
  IsWritten, parse_panel_parts, parse_panel_of, panel_code, apply_control-IsWritten,
}

-- What a decoded panel state becomes by a request: the contract of `ac_protocol_apply_control`.
pub record Applied (state : PanelState) (r : Request) (event : Bool) (new : PanelState)
    : Type 0 where
  pub event_as : new.event ≡ event
  pub power_as : new.power ≡ (if has r.mask control_power then r.power else state.power)
  pub quiet_as :
      has new.feature_flags feature_quiet
      ≡ (if has r.mask control_quiet then r.quiet else has state.feature_flags feature_quiet)
  pub units_as : has new.feature_flags feature_units_fahrenheit ≡ (
      if has r.mask control_units_fahrenheit
      then r.units_fahrenheit
      else has state.feature_flags feature_units_fahrenheit)
  pub timer_as :
      has new.feature_flags feature_timer
      ≡ (if has r.mask control_timer then r.timer else has state.feature_flags feature_timer)
  pub code_as : new.mode_fan_code ≡ (
      if has r.mask mode_fan_mask
      then panel_code state r
      else if needs_bootstrap state.setpoint_c r
      then 0x31
      else state.mode_fan_code)
  pub mode_as : new.mode ≡ decode_mode new.mode_fan_code
  pub fan_as : new.fan ≡ decode_fan new.mode_fan_code
  pub setpoint_as : new.setpoint_c ≡ (
      if has r.mask control_setpoint
      then r.setpoint_c
      else if needs_bootstrap state.setpoint_c r
      then 18
      else state.setpoint_c)
  pub encoded_as : new.setpoint_encoded ≡ (
      if has r.mask control_setpoint
      then encode_setpoint r.setpoint_c
      else if needs_bootstrap state.setpoint_c r
      then encode_setpoint 18
      else state.setpoint_encoded)
  pub kept_7 : new.flags_7 ≡ state.flags_7
  pub kept_8 : new.flags_8 ≡ state.flags_8
  pub kept_10 : new.flags_10 ≡ state.flags_10
  pub kept_11 : new.flags_11 ≡ state.flags_11
  pub kept_12 : new.flags_12 ≡ state.flags_12
  pub kept_13 : new.flags_13 ≡ state.flags_13

-- The flags below the power bit survive the mask 0x7f of the parser.
pub has-feature_flags : (x m : ℕ) → bit_and 0x7f m ≡ m → has (bit_and x 0x7f) m ≡ has x m
has-feature_flags x m h = rw (has-bit_and x 0x7f m, h)

pub masked :
    (x y m : ℕ) (b on : Bool)
    → bit_and 0x7f m ≡ m
    → has x m ≡ (if b then on else has y m)
    → has (bit_and x 0x7f) m ≡ (if b then on else has (bit_and y 0x7f) m)
masked x y m b on h e = rw (has-feature_flags x m h, has-feature_flags y m h) e

-- The event byte as the parser sees it.
pub event_code : (event : Bool) → ((if event then 0x12 else 0x11) == 0x12) ≡ event
event_code true = refl
event_code false = refl

fields-Applied :
    (f : List ℕ) (r : Request) (event : Bool) (out : List ℕ)
    → let state = panel_fields f in
      IsWritten f panel_frame_size 9
        (needs_bootstrap state.setpoint_c r)
        (panel_code state r)
        r
        event
        out
      → Applied state r event (panel_fields out)
unfolding written panel_fields
fields-Applied f r event out w =
    let (power, quiet, units, timer) = feature_byte_flags r (get_or f 5 0) in
    let byte_5 = w.bytes 5 (omega arith) in
    record {
      event_as = ap (λ x. x == 0x12) (w.bytes 3 (omega arith)) ∙ event_code event;
      power_as = ap (λ x. has x power_bit) byte_5 ∙ power;
      quiet_as =
          masked (get_or out 5 0) (get_or f 5 0) feature_quiet (has r.mask control_quiet) r.quiet
            refl (ap (λ x. has x feature_quiet) byte_5 ∙ quiet);
      units_as =
          masked (get_or out 5 0) (get_or f 5 0) feature_units_fahrenheit
            (has r.mask control_units_fahrenheit) r.units_fahrenheit refl
            (ap (λ x. has x feature_units_fahrenheit) byte_5 ∙ units);
      timer_as =
          masked (get_or out 5 0) (get_or f 5 0) feature_timer (has r.mask control_timer) r.timer
            refl (ap (λ x. has x feature_timer) byte_5 ∙ timer);
      code_as = w.bytes 4 (omega arith);
      mode_as = refl;
      fan_as = refl;
      setpoint_as = w.bytes 6 (omega arith);
      encoded_as = w.bytes 9 (omega arith);
      kept_7 = w.bytes 7 (omega arith);
      kept_8 = w.bytes 8 (omega arith);
      kept_10 = w.bytes 10 (omega arith);
      kept_11 = w.bytes 11 (omega arith);
      kept_12 = w.bytes 12 (omega arith);
      kept_13 = w.bytes 13 (omega arith);
    }

-- A request that is not out of range is written into a frame that parses: the new frame has the
-- size of the panel's frames and parses, too. The power, the three known flags, the code, the
-- setpoint and its encoding are the requested ones, those of a cold start, or the old ones, the
-- mode and the fan speed go with the code, and the bytes without a known meaning are kept.
pub apply_control-Applied :
    (f : List ℕ) (r : Request) (event : Bool) {state : PanelState}
    → length f ≡ panel_frame_size
    → parse_panel f ≡ some state
    → rejects r ≡ false
    → (out : List ℕ) × (apply_control f r event ≡ some out)
      × (length out ≡ panel_frame_size)
      × (new : PanelState) × (parse_panel out ≡ some new)
      × Applied state r event new
unfolding written
apply_control-Applied f r event {state} l p ok =
    let (out, e, w) = apply_control-IsWritten f r event l p ok in
    let (h0, h1, h2, check, fields) = parse_panel_parts f p in
    (
      out,
      e,
      w.size_kept,
      panel_fields out,
      parse_panel_of out (w.bytes 0 (omega arith) ∙ h0) (w.bytes 1 (omega arith) ∙ h1)
          (w.bytes 2 (omega arith) ∙ h2) w.check_right,
      subst (λ s. Applied s r event (panel_fields out)) (sym fields)
          (fields-Applied f r event out (
            subst
              (λ s.
                IsWritten f panel_frame_size 9 (needs_bootstrap s.setpoint_c r) (panel_code s r) r
                  event out)
              fields w)),
    )

-- No frame comes out exactly where the given frame does not parse or a field of the request is out
-- of range.
pub apply_control-eq-none :
    (f : List ℕ) (r : Request) (event : Bool)
    → (apply_control f r event ≡ none) ↔ ((parse_panel f ≡ none) ⊎ (rejects r ≡ true))
unfolding apply_control
apply_control-eq-none f r event = ground arith

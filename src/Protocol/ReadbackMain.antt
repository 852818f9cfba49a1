-- ===== src/Protocol/ReadbackMain.antt =====
-- A request written into a frame by `ac_protocol_apply_control_main`, and the frame read by the
-- parser of the main board's frames.
use lin_tac09cpbpsl_esp32c.Common.{
  ℕ, ◌+◌, ◌<◌, ◌≡◌, refl, sym, ◌∙◌, ap, Bool, true, false, List, get_or, length, has, ◌==◌, subst,
  some, if◌then◌else◌, arith,
}
use lin_tac09cpbpsl_esp32c.Protocol.Types.{MainState, Request}
use lin_tac09cpbpsl_esp32c.Protocol.Wire.{
  main_frame_size, power_bit, feature_units_fahrenheit, feature_quiet, feature_timer, control_power,
  control_setpoint, control_quiet, control_units_fahrenheit, control_timer,
}
use lin_tac09cpbpsl_esp32c.Protocol.Frame.{
  checksum_valid, expected_size, finalize, panel_to_main_mode_fan, main_to_panel_mode_fan,
}
use lin_tac09cpbpsl_esp32c.Protocol.Parse.{
  decode_mode, decode_fan, main_fields, parse_main, encode_setpoint,
}
use lin_tac09cpbpsl_esp32c.Protocol.Control.{
  mode_fan_mask, rejects, needs_bootstrap, bootstrap_current, requested_mode_fan, write_main,
  apply_control_main,
}
use lin_tac09cpbpsl_esp32c.Protocol.Flags.{feature_byte_flags}
use lin_tac09cpbpsl_esp32c.Protocol.Bytes.{written, body-byte}
use lin_tac09cpbpsl_esp32c.Protocol.Written.{IsWritten, IsWritten-finalize}
use lin_tac09cpbpsl_esp32c.Protocol.Readback.{masked, event_code}

-- What the parser of the main board's frames requires, and what it reads.
parse_main_parts :
    (f : List ℕ) {state : MainState}
    → parse_main f ≡ some state
    → (get_or f 0 0 ≡ 0x54)
      × (get_or f 1 0 ≡ 0x44)
      × (get_or f 2 0 ≡ 0x12)
      × (checksum_valid f main_frame_size ≡ true)
      × (state ≡ main_fields f)
unfolding parse_main expected_size
parse_main_parts f h = ground arith

parse_main_of :
    (f : List ℕ)
    → get_or f 0 0 ≡ 0x54
    → get_or f 1 0 ≡ 0x44
    → get_or f 2 0 ≡ 0x12
    → checksum_valid f main_frame_size ≡ true
    → parse_main f ≡ some (main_fields f)
unfolding parse_main expected_size
parse_main_of f a b c d = ground arith

-- The code that the request asks the main board for, from what its frame showed.
unfoldable pub main_code : MainState → Request → ℕ
main_code state r = panel_to_main_mode_fan (
    requested_mode_fan
      (bootstrap_current (needs_bootstrap state.display_temperature_c r) (record {
        mode_fan_code = main_to_panel_mode_fan state.mode_fan_code;
        mode = state.mode;
        fan = state.fan;
      }))
      r)

apply_control_main-eq :
    (f : List ℕ) (r : Request) (event : Bool) {state : MainState}
    → parse_main f ≡ some state
    → rejects r ≡ false
    → apply_control_main f r event ≡ some (finalize (write_main state r event f) main_frame_size)
unfolding apply_control_main
apply_control_main-eq f r event p ok = rw (p, apply_control_main) (rw ok)

apply_control_main-IsWritten :
    (f : List ℕ) (r : Request) (event : Bool) {state : MainState}
    → length f ≡ main_frame_size
    → parse_main f ≡ some state
    → rejects r ≡ false
    → (out : List ℕ) × (apply_control_main f r event ≡ some out)
      × IsWritten f main_frame_size 14
          (needs_bootstrap state.display_temperature_c r)
          (main_code state r)
          r
          event
          out
unfolding write_main main_code
apply_control_main-IsWritten f r event {state} l p ok =
    let boot = needs_bootstrap state.display_temperature_c r in
    let code = main_code state r in
    let g = write_main state r event f in
    let body = λ (j : ℕ). body-byte r f 14 code j boot event (omega arith) (omega arith) in
    (
      finalize g main_frame_size,
      apply_control_main-eq f r event p ok,
      IsWritten-finalize f g main_frame_size 14 boot code r event (omega arith)
          (parse_main_parts f p).3 ((body 0).0 ∙ l) (λ j. (body j).1),
    )

-- What a decoded state of the main board becomes by a request: the contract of
-- `ac_protocol_apply_control_main`.
pub record AppliedMain (state : MainState) (r : Request) (event : Bool) (new : MainState)
    : Type 0 where
  pub event_as : new.event ≡ event
  pub power_as : new.power ≡ (if has r.mask control_power then r.power else state.power)
  pub quiet_as :
      has new.feature_flags feature_quiet
      ≡ (if has r.mask control_quiet then r.quiet else has state.feature_flags feature_quiet)
  pub units_as : has new.feature_flags feature_units_fahrenheit ≡ (
      if has r.mask control_units_fahrenheit
      then r.units_fahrenheit
      else has state.feature_flags feature_units_fahrenheit)
  pub timer_as :
      has new.feature_flags feature_timer
      ≡ (if has r.mask control_timer then r.timer else has state.feature_flags feature_timer)
  pub code_as : new.mode_fan_code ≡ (
      if has r.mask mode_fan_mask
      then main_code state r
      else if needs_bootstrap state.display_temperature_c r
      then 0x31
      else state.mode_fan_code)
  pub mode_as : new.mode ≡ decode_mode new.mode_fan_code
  pub fan_as : new.fan ≡ decode_fan new.mode_fan_code
  pub temperature_as : new.display_temperature_c ≡ (
      if has r.mask control_setpoint
      then r.setpoint_c
      else if needs_bootstrap state.display_temperature_c r
      then 18
      else state.display_temperature_c)
  pub encoded_as : new.display_temperature_encoded ≡ (
      if has r.mask control_setpoint
      then encode_setpoint r.setpoint_c
      else if needs_bootstrap state.display_temperature_c r
      then encode_setpoint 18
      else state.display_temperature_encoded)
  pub kept_operation : new.operation_code ≡ state.operation_code
  pub kept_sensor_1 : new.sensor_1_raw ≡ state.sensor_1_raw
  pub kept_sensor_2 : new.sensor_2_raw ≡ state.sensor_2_raw
  pub kept_7 : new.flags_7 ≡ state.flags_7
  pub kept_9 : new.flags_9 ≡ state.flags_9
  pub kept_10 : new.flags_10 ≡ state.flags_10
  pub kept_13 : new.flags_13 ≡ state.flags_13
  pub kept_15 : new.constant_15 ≡ state.constant_15

fields-AppliedMain :
    (f : List ℕ) (r : Request) (event : Bool) (out : List ℕ)
    → let state = main_fields f in
      IsWritten f main_frame_size 14
        (needs_bootstrap state.display_temperature_c r)
        (main_code state r)
        r
        event
        out
      → AppliedMain state r event (main_fields out)
unfolding written main_fields
fields-AppliedMain f r event out w =
    let (power, quiet, units, timer) = feature_byte_flags r (get_or f 5 0) in
    let byte_5 = w.bytes 5 (omega arith) in
    let flag = λ (m : ℕ) (asked on : Bool). masked (get_or out 5 0) (get_or f 5 0) m asked on in
    record {
      event_as = ap (λ x. x == 0x12) (w.bytes 3 (omega arith)) ∙ event_code event;
      power_as = ap (λ x. has x power_bit) byte_5 ∙ power;
      quiet_as =
          flag feature_quiet (has r.mask control_quiet) r.quiet refl
            (ap (λ x. has x feature_quiet) byte_5 ∙ quiet);
      units_as =
          flag feature_units_fahrenheit (has r.mask control_units_fahrenheit) r.units_fahrenheit
            refl (ap (λ x. has x feature_units_fahrenheit) byte_5 ∙ units);
      timer_as =
          flag feature_timer (has r.mask control_timer) r.timer refl
            (ap (λ x. has x feature_timer) byte_5 ∙ timer);
      code_as = w.bytes 4 (omega arith);
      mode_as = refl;
      fan_as = refl;
      temperature_as = w.bytes 6 (omega arith);
      encoded_as = w.bytes 14 (omega arith);
      kept_operation = w.bytes 8 (omega arith);
      kept_sensor_1 = w.bytes 11 (omega arith);
      kept_sensor_2 = w.bytes 12 (omega arith);
      kept_7 = w.bytes 7 (omega arith);
      kept_9 = w.bytes 9 (omega arith);
      kept_10 = w.bytes 10 (omega arith);
      kept_13 = w.bytes 13 (omega arith);
      kept_15 = w.bytes 15 (omega arith);
    }

written-rest :
    (boot : Bool) (code : ℕ) (r : Request) (event : Bool) (k old : ℕ)
    → 15 < k
    → written 14 boot code r event k old ≡ old
unfolding written
written-rest boot code r event k old h = ground arith

-- A request that is not out of range is written into a frame of the main board that parses: the
-- new frame has the size of its frames and parses, too. The power, the three known flags, the
-- temperature and its encoding are the requested ones, those of a cold start, or the old ones; so
-- is the code, translated to the main board's where it is a requested one; the mode and the fan
-- speed go with the code. The operation code, the sensors, the bytes 7, 9, 10, 13 and 15 and those
-- from 16 to the check byte are kept.
pub apply_control_main-AppliedMain :
    (f : List ℕ) (r : Request) (event : Bool) {state : MainState}
    → length f ≡ main_frame_size
    → parse_main f ≡ some state
    → rejects r ≡ false
    → (out : List ℕ) × (apply_control_main f r event ≡ some out)
      × (length out ≡ main_frame_size)
      × (new : MainState) × (parse_main out ≡ some new)
      × AppliedMain state r event new
      × ((k : ℕ) → 15 < k → k + 1 < main_frame_size → get_or out k 0 ≡ get_or f k 0)
unfolding written
apply_control_main-AppliedMain f r event {state} l p ok =
    let (out, e, w) = apply_control_main-IsWritten f r event l p ok in
    let (h0, h1, h2, check, fields) = parse_main_parts f p in
    (
      out,
      e,
      w.size_kept,
      main_fields out,
      parse_main_of out (w.bytes 0 (omega arith) ∙ h0) (w.bytes 1 (omega arith) ∙ h1)
          (w.bytes 2 (omega arith) ∙ h2) w.check_right,
      subst (λ s. AppliedMain s r event (main_fields out)) (sym fields)
          (fields-AppliedMain f r event out (
            subst
              (λ s.
                IsWritten f main_frame_size 14 (needs_bootstrap s.display_temperature_c r)
                  (main_code s r) r event out)
              fields w)),
      λ k low high. w.bytes k high ∙ written-rest _ _ r event k (get_or f k 0) low,
    )

-- ===== src/Protocol/Bytes.antt =====
-- Every byte of a frame after the statements of `ac_protocol_apply_control` and
-- `ac_protocol_apply_control_main`.
use lin_tac09cpbpsl_esp32c.Common.{
  ℕ, ◌<◌, ◌≡◌, ap, ◌∙◌, Bool, List, get_or, set, length, length-set, get_or-set, has, ◌==◌,
  if◌then◌else◌, arith,
}
use lin_tac09cpbpsl_esp32c.Protocol.Types.{Request}
use lin_tac09cpbpsl_esp32c.Protocol.Wire.{
  power_bit, feature_units_fahrenheit, feature_quiet, feature_timer, control_power,
  control_setpoint, control_quiet, control_units_fahrenheit, control_timer,
}
use lin_tac09cpbpsl_esp32c.Protocol.Parse.{encode_setpoint}
use lin_tac09cpbpsl_esp32c.Protocol.Control.{
  mode_fan_mask, set_flag, bootstrap_frame, write_flag, write_setpoint, write_features,
  write_mode_fan,
}
use lin_tac09cpbpsl_esp32c.Protocol.Flags.{flag_value, feature_byte}

module _ (r : Request) (f : List ℕ) where
  write_flag-byte :
      (control flag : ℕ) (on : Bool) (j : ℕ)
      → 5 < length f
      → (length (write_flag r control flag on f) ≡ length f)
        × (get_or (write_flag r control flag on f) j 0
            ≡ (if 5 == j then flag_value r control flag on (get_or f 5 0) else get_or f j 0))
  unfolding write_flag flag_value
  write_flag-byte control flag on j h = ground (
    arith,
    get_or-set f 5 j (set_flag flag on (get_or f 5 0)) 0,
    length-set f 5 (set_flag flag on (get_or f 5 0)),
  )

  write_setpoint-byte :
      (encoded j : ℕ)
      → 6 < encoded
      → encoded < length f
      → (length (write_setpoint encoded r f) ≡ length f)
        × (get_or (write_setpoint encoded r f) j 0 ≡ (
            if has r.mask control_setpoint
            then if encoded == j
              then encode_setpoint r.setpoint_c
              else if 6 == j
              then r.setpoint_c
              else get_or f j 0
            else get_or f j 0))
  unfolding write_setpoint
  write_setpoint-byte encoded j h k = ground (
    arith,
    get_or-set f 6 j r.setpoint_c 0,
    length-set f 6 r.setpoint_c,
    length-set (set f 6 r.setpoint_c) encoded (encode_setpoint r.setpoint_c),
    get_or-set (set f 6 r.setpoint_c) encoded j (encode_setpoint r.setpoint_c) 0,
  )

  write_mode_fan-byte :
      (code j : ℕ)
      → 4 < length f
      → (length (write_mode_fan r code f) ≡ length f)
        × (get_or (write_mode_fan r code f) j 0 ≡ (
            if 4 == j
            then if has r.mask mode_fan_mask then code else get_or f 4 0
            else get_or f j 0))
  unfolding write_mode_fan
  write_mode_fan-byte code j h = ground (arith, get_or-set f 4 j code 0, length-set f 4 code)

  bootstrap_frame-byte :
      (encoded : ℕ) (boot : Bool) (j : ℕ)
      → 6 < encoded
      → encoded < length f
      → (length (bootstrap_frame encoded boot f) ≡ length f)
        × (get_or (bootstrap_frame encoded boot f) j 0 ≡ (
            if boot
            then if encoded == j
              then encode_setpoint 18
              else if 6 == j
              then 18
              else if 4 == j
              then 0x31
              else get_or f j 0
            else get_or f j 0))
  unfolding bootstrap_frame
  bootstrap_frame-byte encoded boot j h k = ground (
    arith,
    get_or-set f 4 j 0x31 0,
    length-set f 4 0x31,
    get_or-set (set f 4 0x31) 6 j 18 0,
    length-set (set f 4 0x31) 6 18,
    get_or-set (set (set f 4 0x31) 6 18) encoded j (encode_setpoint 18) 0,
    length-set (set (set f 4 0x31) 6 18) encoded (encode_setpoint 18),
  )

-- The byte at index `j` behind the statements, from the byte that was there before them.
unfoldable pub written : ℕ → Bool → ℕ → Request → Bool → ℕ → ℕ → ℕ
written encoded boot code r event j old =
    if 3 == j
    then if event then 0x12 else 0x11
    else if 4 == j
    then if has r.mask mode_fan_mask then code else if boot then 0x31 else old
    else if 5 == j
    then feature_byte r old
    else if 6 == j
    then if has r.mask control_setpoint then r.setpoint_c else if boot then 18 else old
    else if encoded == j
    then if has r.mask control_setpoint
      then encode_setpoint r.setpoint_c
      else if boot
      then encode_setpoint 18
      else old
    else old

feature_chain :
    (r : Request) (x x1 x2 x3 : ℕ)
    → x1 ≡ flag_value r control_power power_bit r.power x
    → x2 ≡ flag_value r control_quiet feature_quiet r.quiet x1
    → x3 ≡ flag_value r control_units_fahrenheit feature_units_fahrenheit r.units_fahrenheit x2
    → flag_value r control_timer feature_timer r.timer x3 ≡ feature_byte r x
unfolding feature_byte
feature_chain r x x1 x2 x3 e1 e2 e3 = cc

-- The statements from the power bit to the timer bit.
write_features-byte :
    (r : Request) (f : List ℕ) (encoded j : ℕ)
    → 6 < encoded
    → encoded < length f
    → (length (write_features encoded r f) ≡ length f)
      × (get_or (write_features encoded r f) j 0 ≡ (
          if 5 == j
          then feature_byte r (get_or f 5 0)
          else if has r.mask control_setpoint
          then if encoded == j
            then encode_setpoint r.setpoint_c
            else if 6 == j
            then r.setpoint_c
            else get_or f j 0
          else get_or f j 0))
unfolding write_features
write_features-byte r f encoded j h k =
    let f1 = write_flag r control_power power_bit r.power f in
    let f2 = write_setpoint encoded r f1 in
    let f3 = write_flag r control_quiet feature_quiet r.quiet f2 in
    let f4 = write_flag r control_units_fahrenheit feature_units_fahrenheit r.units_fahrenheit f3 in
    let (l1, e1) = write_flag-byte r f control_power power_bit r.power j (omega arith) in
    let (m1, d1) = write_flag-byte r f control_power power_bit r.power 5 (omega arith) in
    let (l2, e2) = write_setpoint-byte r f1 encoded j h (omega arith) in
    let (m2, d2) = write_setpoint-byte r f1 encoded 5 h (omega arith) in
    let (l3, e3) = write_flag-byte r f2 control_quiet feature_quiet r.quiet j (omega arith) in
    let (m3, d3) = write_flag-byte r f2 control_quiet feature_quiet r.quiet 5 (omega arith) in
    let (l4, e4) =
      write_flag-byte r f3 control_units_fahrenheit feature_units_fahrenheit r.units_fahrenheit j
        (omega arith) in
    let (m4, d4) =
      write_flag-byte r f3 control_units_fahrenheit feature_units_fahrenheit r.units_fahrenheit 5
        (omega arith) in
    let (l5, e5) = write_flag-byte r f4 control_timer feature_timer r.timer j (omega arith) in
    let setpoint_elsewhere : get_or f2 5 0 ≡ get_or f1 5 0 = ground arith in
    let byte_5 =
      feature_chain r (get_or f 5 0) (get_or f1 5 0) (get_or f3 5 0) (get_or f4 5 0) d1
        (d3 ∙ ap (flag_value r control_quiet feature_quiet r.quiet) setpoint_elsewhere) d4 in
    (omega arith, ground arith)

-- The whole body: the statements that the two functions have in common.
pub body-byte :
    (r : Request) (f : List ℕ) (encoded code j : ℕ) (boot event : Bool)
    → 6 < encoded
    → encoded < length f
    → let f0 = set f 3 (if event then 0x12 else 0x11) in
      let f2 = write_mode_fan r code (bootstrap_frame encoded boot f0) in
      (length (write_features encoded r f2) ≡ length f)
      × (get_or (write_features encoded r f2) j 0
          ≡ written encoded boot code r event j (get_or f j 0))
unfolding written
body-byte r f encoded code j boot event h k =
    let f0 = set f 3 (if event then 0x12 else 0x11) in
    let l0 = length-set f 3 (if event then 0x12 else 0x11) in
    let f1 = bootstrap_frame encoded boot f0 in
    let f2 = write_mode_fan r code f1 in
    let (l1, e1) = bootstrap_frame-byte r f0 encoded boot j h (omega arith) in
    let (m1, b4) = bootstrap_frame-byte r f0 encoded boot 4 h (omega arith) in
    let (n1, b5) = bootstrap_frame-byte r f0 encoded boot 5 h (omega arith) in
    let (l2, e2) = write_mode_fan-byte r f1 code j (omega arith) in
    let (m2, c5) = write_mode_fan-byte r f1 code 5 (omega arith) in
    let (l3, e3) = write_features-byte r f2 encoded j h (omega arith) in
    (
      omega arith,
      ground (
        arith,
        get_or-set f 3 j (if event then 0x12 else 0x11) 0,
        get_or-set f 3 5 (if event then 0x12 else 0x11) 0,
        get_or-set f 3 4 (if event then 0x12 else 0x11) 0,
      ),
    )

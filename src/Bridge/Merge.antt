-- ===== src/Bridge/Merge.antt =====
-- main/bridge_service.c: what the request in the overlay is after a new one has been merged in.
use lin_tac09cpbpsl_esp32c.Common.{
  ℕ, ◌-◌, bit_and, bit_or, ◌≡◌, refl, sym, ◌∙◌, Bool, true, false, not, ◌&&◌, ◌||◌, has,
  if◌then◌else◌, arith,
}
use lin_tac09cpbpsl_esp32c.Common.Bits.{has-bit_and, has-bit_or, has-zero}
use lin_tac09cpbpsl_esp32c.Protocol.Types.{Request}
use lin_tac09cpbpsl_esp32c.Protocol.Wire.{
  control_power, control_setpoint, control_mode, control_fan, control_raw_mode_fan, control_quiet,
  control_units_fahrenheit, control_timer,
}
use lin_tac09cpbpsl_esp32c.Protocol.Control.{is_control_mode, is_control_fan, rejects}
use lin_tac09cpbpsl_esp32c.Protocol.Parse.{valid_setpoint}
use lin_tac09cpbpsl_esp32c.Bridge.Queue.{clear_bits, merged_mask, merge_request}
use lin_tac09cpbpsl_esp32c.Bridge.Update.{no_request}

has-clear_bits :
    (mask bits m : ℕ) → has (clear_bits mask bits) m ≡ has mask (bit_and (0xffff_ffff - bits) m)
unfolding clear_bits
has-clear_bits mask bits m = has-bit_and mask (0xffff_ffff - bits) m

-- A bit that no rule clears.
merged_mask_other :
    (old mask m : ℕ)
    → bit_and (0xffff_ffff - control_raw_mode_fan) m ≡ m
    → bit_and (0xffff_ffff - bit_or control_mode control_fan) m ≡ m
    → has (merged_mask old mask) m ≡ has old m
unfolding merged_mask
merged_mask_other old mask m h k =
    let m1 = if has mask control_mode then clear_bits old control_raw_mode_fan else old in
    let m2 = if has mask control_fan then clear_bits m1 control_raw_mode_fan else m1 in
    ground (
      arith,
      has-clear_bits old control_raw_mode_fan m,
      has-clear_bits m1 control_raw_mode_fan m,
      has-clear_bits m2 (bit_or control_mode control_fan) m,
    )

-- The bits of a mode and of a fan speed: cleared by a raw code.
merged_mask_code :
    (old mask m : ℕ)
    → bit_and (0xffff_ffff - control_raw_mode_fan) m ≡ m
    → bit_and (0xffff_ffff - bit_or control_mode control_fan) m ≡ 0
    → has (merged_mask old mask) m ≡ (if has mask control_raw_mode_fan then false else has old m)
unfolding merged_mask
merged_mask_code old mask m h k =
    let m1 = if has mask control_mode then clear_bits old control_raw_mode_fan else old in
    let m2 = if has mask control_fan then clear_bits m1 control_raw_mode_fan else m1 in
    ground (
      arith,
      has-clear_bits old control_raw_mode_fan m,
      has-clear_bits m1 control_raw_mode_fan m,
      has-clear_bits m2 (bit_or control_mode control_fan) m,
      has-zero m2,
    )

-- The bit of a raw code: cleared by a mode or a fan speed.
merged_mask_raw :
    (old mask : ℕ)
    → has (merged_mask old mask) control_raw_mode_fan ≡ (
        if has mask control_mode || has mask control_fan
        then false
        else has old control_raw_mode_fan)
unfolding merged_mask
merged_mask_raw old mask =
    let m1 = if has mask control_mode then clear_bits old control_raw_mode_fan else old in
    let m2 = if has mask control_fan then clear_bits m1 control_raw_mode_fan else m1 in
    ground (
      arith,
      has-clear_bits old control_raw_mode_fan control_raw_mode_fan,
      has-clear_bits m1 control_raw_mode_fan control_raw_mode_fan,
      has-clear_bits m2 (bit_or control_mode control_fan) control_raw_mode_fan,
      has-zero old,
      has-zero m1,
    )

-- Every bit of the merged mask.
pub merge_request-mask :
    (o r : Request)
    → let has_new = λ (m : ℕ). has (merge_request o r).mask m in
      (has_new control_power ≡ (has o.mask control_power || has r.mask control_power))
      × (has_new control_setpoint ≡ (has o.mask control_setpoint || has r.mask control_setpoint))
      × (has_new control_mode ≡ (
          (if has r.mask control_raw_mode_fan then false else has o.mask control_mode)
          || has r.mask control_mode))
      × (has_new control_fan ≡ (
          (if has r.mask control_raw_mode_fan then false else has o.mask control_fan)
          || has r.mask control_fan))
      × (has_new control_raw_mode_fan ≡ (
          (if has r.mask control_mode || has r.mask control_fan
            then false
            else has o.mask control_raw_mode_fan)
          || has r.mask control_raw_mode_fan))
      × (has_new control_quiet ≡ (has o.mask control_quiet || has r.mask control_quiet))
      × (has_new control_units_fahrenheit
          ≡ (has o.mask control_units_fahrenheit || has r.mask control_units_fahrenheit))
      × (has_new control_timer ≡ (has o.mask control_timer || has r.mask control_timer))
unfolding merge_request
merge_request-mask o r =
    let split = has-bit_or (merged_mask o.mask r.mask) r.mask in
    (
      rw (split control_power, merged_mask_other o.mask r.mask control_power refl refl),
      rw (split control_setpoint, merged_mask_other o.mask r.mask control_setpoint refl refl),
      rw (split control_mode, merged_mask_code o.mask r.mask control_mode refl refl),
      rw (split control_fan, merged_mask_code o.mask r.mask control_fan refl refl),
      rw (split control_raw_mode_fan, merged_mask_raw o.mask r.mask),
      rw (split control_quiet, merged_mask_other o.mask r.mask control_quiet refl refl),
      rw (
        split control_units_fahrenheit,
        merged_mask_other o.mask r.mask control_units_fahrenheit refl refl,
      ),
      rw (split control_timer, merged_mask_other o.mask r.mask control_timer refl refl),
    )

-- The fields that go with the bits.
pub merge_request-fields :
    (o r : Request)
    → let n = merge_request o r in
      (n.setpoint_c ≡ (if has r.mask control_setpoint then r.setpoint_c else o.setpoint_c))
      × (n.mode ≡ (if has r.mask control_mode then r.mode else o.mode))
      × (n.fan ≡ (if has r.mask control_fan then r.fan else o.fan))
unfolding merge_request
merge_request-fields o r = (refl, refl, refl)

-- A raw code excludes a mode and a fan speed in one request.
unfoldable pub is_exclusive : Request → Bool
is_exclusive r =
    not (has r.mask control_raw_mode_fan && (has r.mask control_mode || has r.mask control_fan))

-- What the service may hold in its overlay: fields in range, no timer, and one way to name a mode.
pub record IsSound (r : Request) : Type 0 where
  pub in_range : rejects r ≡ false
  pub no_timer : has r.mask control_timer ≡ false
  pub one_code : is_exclusive r ≡ true

-- A field that was good, or was replaced by a good one, is good.
good_field {ℓ} :
    {A : Type ℓ} (good : A → Bool) (had asked now : Bool) (old new : A)
    → (had && not (good old)) ≡ false
    → (asked && not (good new)) ≡ false
    → (now ≡ true → (had || asked) ≡ true)
    → (now && not (good (if asked then new else old))) ≡ false
good_field good had asked false old new h k e = refl
good_field good had true true old new h k e = k
good_field good true false true old new h k e = h
good_field good false false true old new h k e = cc (e refl)

or_false : (a b c : Bool) → (a || b || c) ≡ false → (a ≡ false) × (b ≡ false) × (c ≡ false)
or_false a b c h = ground arith

false_or : (a b c : Bool) → a ≡ false → b ≡ false → c ≡ false → (a || b || c) ≡ false
false_or a b c h k e = ground arith

pub rejects_parts :
    (r : Request)
    → rejects r ≡ false
    → ((has r.mask control_setpoint && not (valid_setpoint r.setpoint_c)) ≡ false)
      × ((has r.mask control_mode && not (is_control_mode r.mode)) ≡ false)
      × ((has r.mask control_fan && not (is_control_fan r.fan)) ≡ false)
unfolding rejects
rejects_parts r h = or_false _ _ _ h

pub rejects_of_parts :
    (r : Request)
    → (has r.mask control_setpoint && not (valid_setpoint r.setpoint_c)) ≡ false
    → (has r.mask control_mode && not (is_control_mode r.mode)) ≡ false
    → (has r.mask control_fan && not (is_control_fan r.fan)) ≡ false
    → rejects r ≡ false
unfolding rejects
rejects_of_parts r a b c = false_or _ _ _ a b c

merge_request-rejects :
    (o r : Request) → rejects o ≡ false → rejects r ≡ false → rejects (merge_request o r) ≡ false
merge_request-rejects o r ho hr =
    let (o1, o2, o3) = rejects_parts o ho in
    let (r1, r2, r3) = rejects_parts r hr in
    let n = merge_request o r in
    let (e1, e2, e3) = merge_request-fields o r in
    let (_, m1, m2, m3, _, _, _, _) = merge_request-mask o r in
    rejects_of_parts n
      (rw e1 (
        good_field valid_setpoint (has o.mask control_setpoint) (has r.mask control_setpoint)
          (has n.mask control_setpoint) o.setpoint_c r.setpoint_c o1 r1 (λ h. sym m1 ∙ h)))
      (rw e2 (
        good_field is_control_mode (has o.mask control_mode) (has r.mask control_mode)
          (has n.mask control_mode) o.mode r.mode o2 r2 (λ h. ground arith)))
      (rw e3 (
        good_field is_control_fan (has o.mask control_fan) (has r.mask control_fan)
          (has n.mask control_fan) o.fan r.fan o3 r3 (λ h. ground arith)))

-- Merging a sound request into a sound one gives a sound one.
pub merge_request-IsSound : (o r : Request) → IsSound o → IsSound r → IsSound (merge_request o r)
unfolding is_exclusive
merge_request-IsSound o r ho hr = record {
  in_range = merge_request-rejects o r ho.in_range hr.in_range;
  no_timer = ground (arith, merge_request-mask o r);
  one_code = ground (arith, merge_request-mask o r);
}

pub no_request-IsSound : IsSound no_request
unfolding is_exclusive rejects has
no_request-IsSound = record { in_range = refl; no_timer = refl; one_code = refl }

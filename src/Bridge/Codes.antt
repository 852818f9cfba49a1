-- ===== src/Bridge/Codes.antt =====
-- main/ac_protocol.c: the code that `requested_mode_fan` makes, against the decoding of modes and
-- fan speeds.
use lin_tac09cpbpsl_esp32c.Common.{
  ℕ, ◌≡◌, refl, sym, ◌∙◌, ap, Bool, true, false, ◌&&◌, ◌==◌, has, if◌then◌else◌, arith, ==_refl,
  inl, inr, Bool-cases,
}
use lin_tac09cpbpsl_esp32c.Protocol.Types.{Mode, Fan, Request}
use lin_tac09cpbpsl_esp32c.Protocol.Wire.{control_mode, control_fan, control_raw_mode_fan}
use lin_tac09cpbpsl_esp32c.Protocol.Parse.{decode_mode, decode_fan}
use lin_tac09cpbpsl_esp32c.Protocol.Control.{
  is_control_mode, is_control_fan, fan_code, mode_fan_of, requested_mode_fan, rejects, Current,
}
use lin_tac09cpbpsl_esp32c.Bridge.Match.{same_mode, same_fan, is_cool, wants}
use lin_tac09cpbpsl_esp32c.Bridge.Merge.{is_exclusive, rejects_parts}

same_mode_refl : (m : Mode) → same_mode m m ≡ true
unfolding same_mode
same_mode_refl Mode.unknown = refl
same_mode_refl Mode.fan = refl
same_mode_refl Mode.cool = refl
same_mode_refl Mode.dry = refl

same_fan_refl : (f : Fan) → same_fan f f ≡ true
unfolding same_fan
same_fan_refl Fan.unknown = refl
same_fan_refl Fan.low = refl
same_fan_refl Fan.mode_default = refl
same_fan_refl Fan.high = refl

-- The code for a mode is decoded to that mode.
mode_fan_of-mode :
    (m : Mode) (f : Fan) (x : ℕ) → is_control_mode m ≡ true → decode_mode (mode_fan_of m f x) ≡ m
unfolding mode_fan_of decode_mode is_control_mode is_control_fan fan_code
mode_fan_of-mode Mode.unknown f x h = cc h
mode_fan_of-mode Mode.fan f x h = refl
mode_fan_of-mode Mode.dry f x h = refl
mode_fan_of-mode Mode.cool Fan.unknown x h = refl
mode_fan_of-mode Mode.cool Fan.low x h = refl
mode_fan_of-mode Mode.cool Fan.mode_default x h = refl
mode_fan_of-mode Mode.cool Fan.high x h = refl

-- In the mode Cool a fan speed that a request may name is decoded to itself.
mode_fan_of-fan :
    (m : Mode) (f : Fan) (x : ℕ)
    → (m ≡ Mode.unknown → decode_mode x ≡ m)
    → is_control_fan f ≡ true
    → is_cool (decode_mode (mode_fan_of m f x)) ≡ true
    → decode_fan (mode_fan_of m f x) ≡ f
unfolding mode_fan_of decode_fan is_control_fan fan_code is_cool decode_mode
mode_fan_of-fan Mode.unknown f x u h k = cc (sym k ∙ ap is_cool (u refl))
mode_fan_of-fan Mode.fan f x u h k = cc k
mode_fan_of-fan Mode.dry f x u h k = cc k
mode_fan_of-fan Mode.cool Fan.unknown x u h k = cc h
mode_fan_of-fan Mode.cool Fan.low x u h k = refl
mode_fan_of-fan Mode.cool Fan.mode_default x u h k = cc h
mode_fan_of-fan Mode.cool Fan.high x u h k = refl

-- What the request says of the mode and the fan speed, as a code shows it.
pub record CodeShows (code : ℕ) (r : Request) : Type 0 where
  pub mode_shown : wants (has r.mask control_mode) (same_mode (decode_mode code) r.mode) ≡ true
  pub fan_shown :
      wants
        (has r.mask control_fan && is_cool (decode_mode code))
        (same_fan (decode_fan code) r.fan)
      ≡ true
  pub raw_shown : wants (has r.mask control_raw_mode_fan) (code == r.raw_mode_fan_code) ≡ true

pub wants_if : (b c : Bool) → (b ≡ true → c ≡ true) → wants b c ≡ true
unfolding wants
wants_if true c h = h refl
wants_if false c h = refl

module _ (c : Current) (r : Request) (e : has r.mask control_raw_mode_fan ≡ false)
    (ok : rejects r ≡ false) where
  requested_mode : has r.mask control_mode ≡ true → decode_mode (requested_mode_fan c r) ≡ r.mode
  unfolding requested_mode_fan
  requested_mode h =
      let (_, km, _) = rejects_parts r ok in
      rw e (rw h (mode_fan_of-mode r.mode _ c.mode_fan_code (ground (arith, km))))

  unknown_kept :
      c.mode ≡ decode_mode c.mode_fan_code
      → let mode = if has r.mask control_mode then r.mode else c.mode in
        (mode ≡ Mode.unknown → decode_mode c.mode_fan_code ≡ mode)
  unfolding is_control_mode
  unknown_kept m =
      let (_, km, _) = rejects_parts r ok in
      elim (Bool-cases (has r.mask control_mode)) [
        | inl g ↦ rw g (λ u.
            let out : is_control_mode r.mode ≡ false = ap is_control_mode u in
            let bad : true ≡ false = ground (arith, km) in cc bad)
        | inr g ↦ rw g (λ u. sym m)
      ]

  requested_fan :
      (c.mode ≡ decode_mode c.mode_fan_code)
      → has r.mask control_fan ≡ true
      → is_cool (decode_mode (requested_mode_fan c r)) ≡ true
      → decode_fan (requested_mode_fan c r) ≡ r.fan
  unfolding requested_mode_fan
  requested_fan m h k =
      let (_, _, kf) = rejects_parts r ok in
      let mode = if has r.mask control_mode then r.mode else c.mode in
      let code = mode_fan_of mode r.fan c.mode_fan_code in
      let same_code : requested_mode_fan c r ≡ code = rw (e, h) refl in
      ap decode_fan same_code
      ∙ mode_fan_of-fan mode r.fan c.mode_fan_code (unknown_kept m) (ground (arith, kf))
          (sym (ap (λ x. is_cool (decode_mode x)) same_code) ∙ k)

pub requested_mode_fan-shows :
    (c : Current) (r : Request)
    → c.mode ≡ decode_mode c.mode_fan_code
    → rejects r ≡ false
    → is_exclusive r ≡ true
    → CodeShows (requested_mode_fan c r) r
unfolding is_exclusive requested_mode_fan
requested_mode_fan-shows c r m ok x = elim (Bool-cases (has r.mask control_raw_mode_fan)) [
  | inl e ↦ record {
    mode_shown = wants_if _ _ (λ h. ground arith);
    fan_shown = wants_if _ _ (λ h. ground arith);
    raw_shown = wants_if _ _ (λ h. rw e (==_refl r.raw_mode_fan_code));
  }
  | inr e ↦ record {
    mode_shown = wants_if _ _ (λ h. rw (requested_mode c r e ok h) (same_mode_refl r.mode));
    fan_shown =
        wants_if _ _
          (λ h. rw (requested_fan c r e ok m (ground arith) (ground arith)) (same_fan_refl r.fan));
    raw_shown = wants_if _ _ (λ h. cc (h, e));
  }
]

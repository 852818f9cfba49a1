-- ===== src/Clients/Web/Fields.antt =====
-- main/web_service.c: the ranges of the fields of a request to `control_handler`.
use lin_tac09cpbpsl_esp32c.Common.{
  ℕ, ◌%◌, ◌^◌, ◌≡◌, refl, bit_or, Bool, true, false, not, ◌&&◌, inl, inr, List, Option, none, some,
  has, Option-cases, arith,
}
use lin_tac09cpbpsl_esp32c.Common.Bits.{has-bit_or}
use lin_tac09cpbpsl_esp32c.Protocol.Types.{Mode, Fan, Request}
use lin_tac09cpbpsl_esp32c.Protocol.Wire.{
  control_power, control_setpoint, control_mode, control_fan, control_raw_mode_fan, control_quiet,
  control_units_fahrenheit, control_timer,
}
use lin_tac09cpbpsl_esp32c.Protocol.Parse.{valid_setpoint}
use lin_tac09cpbpsl_esp32c.Protocol.Control.{is_control_fan, is_control_mode}
use lin_tac09cpbpsl_esp32c.Bridge.Update.{no_request}
use lin_tac09cpbpsl_esp32c.Clients.Names.{parse_mode}
use lin_tac09cpbpsl_esp32c.Clients.Json.{Item, item_text, item_boolean, item_number}
use lin_tac09cpbpsl_esp32c.Clients.Mqtt.Issue.{parse_fan_name-known, number-valid}
use lin_tac09cpbpsl_esp32c.Clients.Web.{
  Items, field, store_power, store_setpoint, store_mode, store_fan, store_raw, store_quiet,
  store_units, item_mode, item_fan, read_fields,
}

-- The fields that are set are in range, and the timer is not among them.
pub record IsRanged (r : Request) : Type 0 where
  pub setpoint : (has r.mask control_setpoint && not (valid_setpoint r.setpoint_c)) ≡ false
  pub mode : (has r.mask control_mode && not (is_control_mode r.mode)) ≡ false
  pub fan : (has r.mask control_fan && not (is_control_fan r.fan)) ≡ false
  pub timer : has r.mask control_timer ≡ false

abbrev pub Ranged : Option Request → Type 0
Ranged none = Unit {0}
Ranged (some r) = IsRanged r

-- A field that is stored keeps a request in range where its store does.
field-Ranged {ℓ} :
    {A : Type ℓ} (parse : Option Item → Option A) (store : A → Request → Request)
    → ((item : Option Item) (a : A) (r : Request)
        → parse item ≡ some a
        → IsRanged r
        → IsRanged (store a r))
    → (item : Option Item) (o : Option Request) → Ranged o
    → Ranged (field parse store item o)
unfolding field
field-Ranged parse store keep item none v = tt
field-Ranged parse store keep none (some r) v = v
field-Ranged parse store keep (some item) (some r) v = elim (Option-cases (parse (some item))) [
  | inl e ↦ rw (e, field) tt
  | inr (a, e) ↦ rw (e, field) (keep (some item) a r e v)
]

-- A bit that is not among the new ones, and a field that is good.
kept :
    (mask new bit : ℕ) (bad : Bool)
    → has new bit ≡ false
    → (has mask bit && bad) ≡ false
    → (has (bit_or mask new) bit && bad) ≡ false
kept mask new bit bad h e = ground (arith, has-bit_or mask new bit)

kept_timer :
    (mask new : ℕ)
    → has new control_timer ≡ false
    → has mask control_timer ≡ false
    → has (bit_or mask new) control_timer ≡ false
kept_timer mask new h e = ground (arith, has-bit_or mask new control_timer)

good : (b ok : Bool) → ok ≡ true → (b && not ok) ≡ false
good b ok h = ground arith

store_power-IsRanged : (a : Bool) (r : Request) → IsRanged r → IsRanged (store_power a r)
unfolding store_power has
store_power-IsRanged a r v = record {
  setpoint = kept r.mask control_power control_setpoint _ refl v.setpoint;
  mode = kept r.mask control_power control_mode _ refl v.mode;
  fan = kept r.mask control_power control_fan _ refl v.fan;
  timer = kept_timer r.mask control_power refl v.timer;
}

store_setpoint-IsRanged :
    (a : ℕ) (r : Request)
    → valid_setpoint (a % 2 ^ 8) ≡ true
    → IsRanged r
    → IsRanged (store_setpoint a r)
unfolding store_setpoint has
store_setpoint-IsRanged a r h v = record {
  setpoint = good _ _ h;
  mode = kept r.mask control_setpoint control_mode _ refl v.mode;
  fan = kept r.mask control_setpoint control_fan _ refl v.fan;
  timer = kept_timer r.mask control_setpoint refl v.timer;
}

store_mode-IsRanged :
    (a : Mode) (r : Request) → is_control_mode a ≡ true → IsRanged r → IsRanged (store_mode a r)
unfolding store_mode has
store_mode-IsRanged a r h v = record {
  setpoint = kept r.mask control_mode control_setpoint _ refl v.setpoint;
  mode = good _ _ h;
  fan = kept r.mask control_mode control_fan _ refl v.fan;
  timer = kept_timer r.mask control_mode refl v.timer;
}

store_fan-IsRanged :
    (a : Fan) (r : Request) → is_control_fan a ≡ true → IsRanged r → IsRanged (store_fan a r)
unfolding store_fan has
store_fan-IsRanged a r h v = record {
  setpoint = kept r.mask control_fan control_setpoint _ refl v.setpoint;
  mode = kept r.mask control_fan control_mode _ refl v.mode;
  fan = good _ _ h;
  timer = kept_timer r.mask control_fan refl v.timer;
}

store_raw-IsRanged : (a : ℕ) (r : Request) → IsRanged r → IsRanged (store_raw a r)
unfolding store_raw has
store_raw-IsRanged a r v = record {
  setpoint = kept r.mask control_raw_mode_fan control_setpoint _ refl v.setpoint;
  mode = kept r.mask control_raw_mode_fan control_mode _ refl v.mode;
  fan = kept r.mask control_raw_mode_fan control_fan _ refl v.fan;
  timer = kept_timer r.mask control_raw_mode_fan refl v.timer;
}

store_quiet-IsRanged : (a : Bool) (r : Request) → IsRanged r → IsRanged (store_quiet a r)
unfolding store_quiet has
store_quiet-IsRanged a r v = record {
  setpoint = kept r.mask control_quiet control_setpoint _ refl v.setpoint;
  mode = kept r.mask control_quiet control_mode _ refl v.mode;
  fan = kept r.mask control_quiet control_fan _ refl v.fan;
  timer = kept_timer r.mask control_quiet refl v.timer;
}

store_units-IsRanged : (a : Bool) (r : Request) → IsRanged r → IsRanged (store_units a r)
unfolding store_units has
store_units-IsRanged a r v = record {
  setpoint = kept r.mask control_units_fahrenheit control_setpoint _ refl v.setpoint;
  mode = kept r.mask control_units_fahrenheit control_mode _ refl v.mode;
  fan = kept r.mask control_units_fahrenheit control_fan _ refl v.fan;
  timer = kept_timer r.mask control_units_fahrenheit refl v.timer;
}

parse_mode-known :
    (value : List ℕ) (mode : Mode) → parse_mode value ≡ some mode → is_control_mode mode ≡ true
unfolding parse_mode is_control_mode
parse_mode-known value mode = ground arith

item_mode-known :
    (item : Option Item) (mode : Mode) → item_mode item ≡ some mode → is_control_mode mode ≡ true
unfolding item_mode
item_mode-known item mode = elim (Option-cases (item_text item)) [
  | inl e ↦ rw (e, item_mode) (λ h. ground (arith, h))
  | inr (value, e) ↦ rw (e, item_mode) (parse_mode-known value mode)
]

item_fan-known :
    (item : Option Item) (fan : Fan) → item_fan item ≡ some fan → is_control_fan fan ≡ true
unfolding item_fan
item_fan-known item fan = elim (Option-cases (item_text item)) [
  | inl e ↦ rw (e, item_fan) (λ h. ground (arith, h))
  | inr (value, e) ↦ rw (e, item_fan) (parse_fan_name-known value fan)
]

start-IsRanged : IsRanged no_request
unfolding has
start-IsRanged = record { setpoint = refl; mode = refl; fan = refl; timer = refl }

pub read_fields-Ranged : (i : Items) → Ranged (read_fields i)
unfolding read_fields
read_fields-Ranged i =
    field-Ranged item_boolean store_units (λ item a r e v. store_units-IsRanged a r v)
      i.units_fahrenheit _
      (field-Ranged item_boolean store_quiet (λ item a r e v. store_quiet-IsRanged a r v) i.quiet _
        (field-Ranged (item_number 0 255) store_raw (λ item a r e v. store_raw-IsRanged a r v) i.raw
          _
          (field-Ranged item_fan store_fan
            (λ item a r e v. store_fan-IsRanged a r (item_fan-known item a e) v) i.fan _
            (field-Ranged item_mode store_mode
              (λ item a r e v. store_mode-IsRanged a r (item_mode-known item a e) v) i.mode _
              (field-Ranged (item_number 18 32) store_setpoint
                (λ item a r e v. store_setpoint-IsRanged a r (number-valid item a e) v) i.setpoint_c
                _
                (field-Ranged item_boolean store_power (λ item a r e v. store_power-IsRanged a r v)
                  i.power (some no_request) start-IsRanged))))))

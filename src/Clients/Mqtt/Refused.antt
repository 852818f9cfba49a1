-- ===== src/Clients/Mqtt/Refused.antt =====
-- main/mqtt_service.c: commands that the service or the bridge refuses.
use lin_tac09cpbpsl_esp32c.Common.{
  ℕ, ◌+◌, ◌-◌, ◌≡◌, refl, sym, ◌∙◌, ap, Bool, true, false, not, ◌&&◌, ◌||◌, inl, inr, List, Option,
  none, some, length, get_or, take, ltb, ◌==◌, same, has, if◌then◌else◌, Bool-cases, if_same, arith,
}
use lin_tac09cpbpsl_esp32c.Protocol.Types.{Mode, Request}
use lin_tac09cpbpsl_esp32c.Protocol.Wire.{control_setpoint, control_mode}
use lin_tac09cpbpsl_esp32c.Bridge.Types.{Profile, Service}
use lin_tac09cpbpsl_esp32c.Bridge.Match.{is_cool}
use lin_tac09cpbpsl_esp32c.Bridge.Queue.{queue_control, setpoint_out_of_mode}
use lin_tac09cpbpsl_esp32c.Clients.Issue.{is_taken}
use lin_tac09cpbpsl_esp32c.Clients.Names.{parse_mode_name, parse_fan_name}
use lin_tac09cpbpsl_esp32c.Clients.Json.{Library, item_text, item_boolean, item_number}
use lin_tac09cpbpsl_esp32c.Clients.Mqtt.Payload.{
  max_payload, c_string, is_space_only, skip_space, drop_space, parse_complete_json,
  parse_string_payload,
}
use lin_tac09cpbpsl_esp32c.Clients.Mqtt.{
  key_mode, key_target_temp, key_fan, key_power, with_mode, climate_request, queue_request,
  climate_payload,
}

-- Where the request of a chain of parsers comes from.
elim_some {ℓ} :
    {A : Type ℓ} (o : Option A) (g : A → Option Request) (r : Request)
    → elim o [ none ↦ none | some a ↦ g a ] ≡ some r
    → (a : A) × (g a ≡ some r)
elim_some none g r e = ground (arith, e)
elim_some (some a) g r e = (a, e)

with_mode-setpoint :
    (mode : Mode) (r : Request) → r.mask ≡ 11 → has (with_mode mode r).mask control_setpoint ≡ true
unfolding with_mode has
with_mode-setpoint Mode.unknown r h = rw h refl
with_mode-setpoint Mode.fan r h = rw h refl
with_mode-setpoint Mode.cool r h = rw h refl
with_mode-setpoint Mode.dry r h = rw h refl

if_some : (b : Bool) (r q : Request) → (if b then some q else none) ≡ some r → q ≡ r
if_some true r q e = ap (λ o. elim o [ none ↦ q | some x ↦ x ]) e
if_some false r q e = ground (arith, e)

climate_request-setpoint :
    (fields : List ℕ × ℕ × List ℕ × Bool) (r : Request)
    → climate_request fields ≡ some r
    → has r.mask control_setpoint ≡ true
unfolding climate_request
climate_request-setpoint (mode_name, temperature, fan_name, asked) r e =
    let (mode, e1) = elim_some (parse_mode_name mode_name) _ r e in
    let (fan, e2) = elim_some (parse_fan_name fan_name) _ r e1 in
    let same_request = if_some (same asked mode.1) r _ e2 in
    ap (λ q. has q.mask control_setpoint) (sym same_request) ∙ with_mode-setpoint mode.0 _ refl

climate_payload-setpoint :
    (j : Library) (bytes : List ℕ) (r : Request)
    → climate_payload j bytes ≡ some r
    → has r.mask control_setpoint ≡ true
unfolding climate_payload
climate_payload-setpoint j bytes r e =
    let (root, e1) = elim_some (parse_complete_json j bytes) _ r e in
    let (mode, e2) = elim_some (item_text (j.get root key_mode)) _ r e1 in
    let (temperature, e3) = elim_some (item_number 18 32 (j.get root key_target_temp)) _ r e2 in
    let (fan, e4) = elim_some (item_text (j.get root key_fan)) _ r e3 in
    let (power, e5) = elim_some (item_boolean (j.get root key_power)) _ r e4 in
    climate_request-setpoint (mode, temperature, fan, power) r e5

-- A climate command for the mode Fan or Dry is refused in every state of the service: it always
-- comes with a setpoint, which the bridge takes for the mode Cool alone.
pub climate_payload-refused :
    (j : Library) (bytes : List ℕ) (r : Request) (p : Profile) (now : ℕ) (s : Service)
    → climate_payload j bytes ≡ some r
    → has r.mask control_mode ≡ true
    → is_cool r.mode ≡ false
    → queue_request p now r s ≡ (false, s)
unfolding queue_request queue_control setpoint_out_of_mode is_taken
climate_payload-refused j bytes r p now s e m c =
    ground (arith, climate_payload-setpoint j bytes r e)

checked_object :
    (j : Library) (root v : j.Value) (b : Bool)
    → (if j.is_object root && b then some root else none) ≡ some v
    → j.is_object v ≡ true
checked_object j root v b = elim (Bool-cases (j.is_object root && b)) [
  | inl h ↦
      rw h
        (λ e. ap j.is_object (sym (ap (λ o. elim o [ none ↦ root | some x ↦ x ]) e)) ∙ ground arith)
  | inr h ↦ rw h (λ e. ground (arith, e))
]

parsed_object :
    (j : Library) (o : Option (j.Value × List ℕ)) (v : j.Value)
    → elim o [
      | none ↦ none
      | some (root, end) ↦
          if j.is_object root && is_space_only j (c_string end) then some root else none
    ]
      ≡ some v
    → j.is_object v ≡ true
parsed_object j none v e = ground (arith, e)
parsed_object j (some (root, end)) v e = checked_object j root v _ e

complete-object :
    (j : Library) (bytes : List ℕ) (v : j.Value)
    → parse_complete_json j bytes ≡ some v
    → j.is_object v ≡ true
unfolding parse_complete_json
complete-object j bytes v =
    elim (Bool-cases
      (length bytes == 0 || ltb max_payload (length bytes) || not (j.calloc (length bytes + 1)))) [
        | inl h ↦ rw h (λ e. ground (arith, e))
        | inr h ↦ rw h (λ e. parsed_object j (j.parse_opts bytes) v e)
      ]

no_string :
    (j : Library) (o : Option j.Value) (n : ℕ)
    → ((v : j.Value) → o ≡ some v → j.string_of v ≡ none)
    → elim o [
      | none ↦ none
      | some root ↦ elim (j.string_of root) [ none ↦ none | some value ↦ some (take n value) ]
    ]
      ≡ none
no_string j none n h = refl
no_string j (some root) n h = rw (h root refl) refl

-- A payload in quotes is refused as the name of a mode or a fan speed and as a switch: the text is
-- read as a JSON object, and an object is not a string.
pub parse_string_payload-quoted :
    (j : Library) (bytes : List ℕ) (out_len : ℕ)
    → ((v : j.Value) → j.is_object v ≡ true → j.string_of v ≡ none)
    → get_or (drop_space j (skip_space j bytes)) 0 0 ≡ 34
    → parse_string_payload j bytes out_len ≡ none
unfolding parse_string_payload
parse_string_payload-quoted j bytes out_len law q =
    let head : (get_or (drop_space j (skip_space j bytes)) 0 0 == 34) ≡ true = ground arith in
    rw head (
      rw
        (no_string j (parse_complete_json j (drop_space j (skip_space j bytes))) (out_len - 1)
          (λ v e. law v (complete-object j (drop_space j (skip_space j bytes)) v e)))
        (if_same _ none))

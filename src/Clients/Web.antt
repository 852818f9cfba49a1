-- ===== src/Clients/Web.antt =====
-- main/web_service.c: `control_handler`, and the token that authorizes a request. The HTTP server
-- belongs to ESP-IDF: the header and the body that it hands over are arguments.
pub mod Fields
pub mod Issue
pub mod Token
pub mod Buffer
pub mod Export
pub mod Line
pub mod Whole
pub mod Exported
pub mod Logs
pub mod Marker
pub mod Marked
pub mod Listed
pub mod Published
pub mod Ota
pub mod Updated
use lin_tac09cpbpsl_esp32c.Common.{
  ℕ, zero, suc, ◌+◌, ◌%◌, ◌^◌, bit_or, bit_xor, Bool, false, not, ◌&&◌, ◌||◌, List, [], ◌∷◌, Option,
  none, some, length, get_or, ltb, leb, ◌==◌, has, if◌then◌else◌,
}
use lin_tac09cpbpsl_esp32c.Protocol.Types.{Mode, Fan, Request}
use lin_tac09cpbpsl_esp32c.Protocol.Wire.{
  control_power, control_setpoint, control_mode, control_fan, control_raw_mode_fan, control_quiet,
  control_units_fahrenheit,
}
use lin_tac09cpbpsl_esp32c.Bridge.Types.{Profile, Service}
use lin_tac09cpbpsl_esp32c.Bridge.Update.{no_request}
use lin_tac09cpbpsl_esp32c.Bridge.Queue.{EspErr, mitm_active, queue_control}
use lin_tac09cpbpsl_esp32c.Clients.Names.{parse_mode, parse_fan_name}
use lin_tac09cpbpsl_esp32c.Clients.Json.{Item, Library, item_text, item_boolean, item_number}

-- The loop of `secure_token_equal`, with the rounds that are left. A missing character is 0.
unfoldable pub token_loop : List ℕ → List ℕ → ℕ → ℕ → ℕ → ℕ
token_loop expected candidate zero i difference = difference
token_loop expected candidate (suc rounds) i difference =
    token_loop expected candidate rounds (i + 1)
      (bit_or difference (bit_xor (get_or expected i 0) (get_or candidate i 0)))

-- `secure_token_equal`
unfoldable pub secure_token_equal : List ℕ → List ℕ → Bool
unfolding token_loop
secure_token_equal expected candidate =
    let rounds =
      if ltb (length candidate) (length expected) then length expected else length candidate in
    token_loop expected candidate rounds 0 (bit_xor (length expected) (length candidate)) == 0

-- `request_authorized`, with KLIMA_DEVICE_TOKEN, the length of the header, and its value where the
-- server can copy it.
unfoldable pub request_authorized : List ℕ → ℕ → Option (List ℕ) → Bool
unfolding secure_token_equal
request_authorized expected header_length header =
    if ltb (length expected) 24 || leb 128 (length expected)
    then false
    else if header_length == 0 || leb 128 header_length
    then false
    else elim header [ none ↦ false | some token ↦ secure_token_equal expected token ]

-- The keys power, setpoint_c, mode, fan, raw_mode_fan_code, quiet, units_fahrenheit, timer
pub record Items : Type 0 where
  pub power : Option Item
  pub setpoint_c : Option Item
  pub mode : Option Item
  pub fan : Option Item
  pub raw : Option Item
  pub quiet : Option Item
  pub units_fahrenheit : Option Item
  pub timer : Option Item

-- `if (valid && item)`: an item that is there must have the right type and range, and is stored.
unfoldable pub field {ℓ} :
    {A : Type ℓ}
    → (Option Item → Option A)
    → (A → Request → Request)
    → Option Item
    → Option Request
    → Option Request
field parse store item none = none
field parse store none (some r) = some r
field parse store (some item) (some r) = elim (parse (some item)) [
  | none ↦ none
  | some value ↦ some (store value r)
]

unfoldable pub store_power : Bool → Request → Request
store_power value r = record r { mask = bit_or r.mask control_power; power = value }

unfoldable pub store_setpoint : ℕ → Request → Request
store_setpoint value r = record r {
  mask = bit_or r.mask control_setpoint;
  setpoint_c = value % 2 ^ 8;
}

unfoldable pub store_mode : Mode → Request → Request
store_mode value r = record r { mask = bit_or r.mask control_mode; mode = value }

unfoldable pub store_fan : Fan → Request → Request
store_fan value r = record r { mask = bit_or r.mask control_fan; fan = value }

unfoldable pub store_raw : ℕ → Request → Request
store_raw value r = record r {
  mask = bit_or r.mask control_raw_mode_fan;
  raw_mode_fan_code = value % 2 ^ 8;
}

unfoldable pub store_quiet : Bool → Request → Request
store_quiet value r = record r { mask = bit_or r.mask control_quiet; quiet = value }

unfoldable pub store_units : Bool → Request → Request
store_units value r = record r {
  mask = bit_or r.mask control_units_fahrenheit;
  units_fahrenheit = value;
}

unfoldable pub item_mode : Option Item → Option Mode
item_mode item = elim (item_text item) [ none ↦ none | some value ↦ parse_mode value ]

unfoldable pub item_fan : Option Item → Option Fan
item_fan item = elim (item_text item) [ none ↦ none | some value ↦ parse_fan_name value ]

-- `control` after the seven fields, `none` where `valid` is false.
unfoldable pub read_fields : Items → Option Request
unfolding field store_power store_setpoint store_mode store_fan store_raw store_quiet store_units
    item_mode item_fan
read_fields i = field item_boolean store_units i.units_fahrenheit (
    field item_boolean store_quiet i.quiet (
      field (item_number 0 255) store_raw i.raw (
        field item_fan store_fan i.fan (
          field item_mode store_mode i.mode (
            field (item_number 18 32) store_setpoint i.setpoint_c
              (field item_boolean store_power i.power (some no_request)))))))

-- The test after them: no field at all, or two ways to name the mode.
unfoldable pub conflicts : Request → Bool
conflicts r =
    r.mask == 0 || (has r.mask control_raw_mode_fan && has r.mask (bit_or control_mode control_fan))

unfoldable pub control_fields : Items → Option Request
unfolding read_fields conflicts
control_fields i = elim (read_fields i) [
  | none ↦ none
  | some r ↦ if conflicts r then none else some r
]

-- The responses of `control_handler`.
pub data Response : Type 0 where
  unauthorized disabled bad_body bad_json timer_read_only bad_fields not_ready rejected : Response
  accepted : ℕ → Response

unfoldable pub response_for : EspErr → ℕ → Response
response_for EspErr.ok sequence = Response.accepted sequence
response_for EspErr.invalid_state sequence = Response.not_ready
response_for _ sequence = Response.rejected

-- The keys are looked up in the object.
abbrev pub items_of : (j : Library) → j.Value → Items
items_of j root = record {
  power = j.get root (112 ∷ 111 ∷ 119 ∷ 101 ∷ 114 ∷ []);
  setpoint_c = j.get root (115 ∷ 101 ∷ 116 ∷ 112 ∷ 111 ∷ 105 ∷ 110 ∷ 116 ∷ 95 ∷ 99 ∷ []);
  mode = j.get root (109 ∷ 111 ∷ 100 ∷ 101 ∷ []);
  fan = j.get root (102 ∷ 97 ∷ 110 ∷ []);
  raw = j.get root (
      114 ∷ 97 ∷ 119 ∷ 95 ∷ 109 ∷ 111 ∷ 100 ∷ 101 ∷ 95 ∷ 102 ∷ 97 ∷ 110 ∷ 95 ∷ 99 ∷ 111 ∷ 100 ∷ 101
      ∷ []);
  quiet = j.get root (113 ∷ 117 ∷ 105 ∷ 101 ∷ 116 ∷ []);
  units_fahrenheit = j.get root (
      117 ∷ 110 ∷ 105 ∷ 116 ∷ 115 ∷ 95 ∷ 102 ∷ 97 ∷ 104 ∷ 114 ∷ 101 ∷ 110 ∷ 104 ∷ 101 ∷ 105 ∷ 116
      ∷ []);
  timer = j.get root (116 ∷ 105 ∷ 109 ∷ 101 ∷ 114 ∷ []);
}

-- The part of `control_handler` after the JSON is parsed.
unfoldable pub control_object : Profile → ℕ → Items → Service → Response × Service
unfolding control_fields response_for
control_object p now i s = elim (i.timer) [
  | some item ↦ (Response.timer_read_only, s)
  | none ↦ elim (control_fields i) [
    | none ↦ (Response.bad_fields, s)
    | some r ↦ let (err, sequence, t) = queue_control p now r s in (response_for err sequence, t)
  ]
]

-- `control_handler`, with whether the request is authorized, and the body that was read, if any.
unfoldable pub control_handler :
    Library → Profile → ℕ → Bool → Option (List ℕ) → Service → Response × Service
unfolding control_object
control_handler j p now authorized body s =
    if not authorized
    then (Response.unauthorized, s)
    else if not (mitm_active p s.hardware_ready)
    then (Response.disabled, s)
    else elim body [
      | none ↦ (Response.bad_body, s)
      | some bytes ↦ elim (j.parse bytes) [
        | none ↦ (Response.bad_json, s)
        | some root ↦
            if not (j.is_object root)
            then (Response.bad_json, s)
            else control_object p now (items_of j root) s
      ]
    ]

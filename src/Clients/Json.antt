-- ===== src/Clients/Json.antt =====
-- What main/mqtt_service.c and main/web_service.c use of cJSON and of the C library: parameters.
use lin_tac09cpbpsl_esp32c.Common.{
  ℕ, ◌≤◌, ◌≡◌, Bool, not, ◌&&◌, ◌||◌, List, Option, none, some, leb, ◌==◌, if◌then◌else◌, arith,
}

-- An item of an object, as `cJSON_IsBool`, `cJSON_IsNumber` and `cJSON_IsString` tell them apart. A
-- number is its sign, its integer part, and whether there is a fraction.
pub data Item : Type 0 where
  boolean : Bool → Item
  number : Bool → ℕ → Bool → Item
  text : List ℕ → Item
  other : Item

-- cJSON: `cJSON_ParseWithLengthOpts` with what follows the value, `cJSON_Parse` and
-- `cJSON_ParseWithLength`, `cJSON_IsObject`, `valuestring` of a string, and
-- `cJSON_GetObjectItemCaseSensitive`; and `calloc`, with whether there is room for so many bytes. Of
-- the C library: `isspace`, `isdigit`, and `strtol` in base 10, with the
-- sign and the magnitude of the number, and the number of characters that it reads, 0 for none.
pub record Library : Type 1 where
  pub Value : Type 0
  pub parse_opts : List ℕ → Option (Value × List ℕ)
  pub parse : List ℕ → Option Value
  pub is_object : Value → Bool
  pub string_of : Value → Option (List ℕ)
  pub get : Value → List ℕ → Option Item
  pub calloc : ℕ → Bool
  pub is_space : ℕ → Bool
  pub is_digit : ℕ → Bool
  pub strtol : List ℕ → Bool × ℕ × ℕ

-- The contents of an item that is there and is a string, or a Boolean.
unfoldable pub item_text : Option Item → Option (List ℕ)
item_text (some (Item.text value)) = some value
item_text _ = none

unfoldable pub item_boolean : Option Item → Option Bool
item_boolean (some (Item.boolean value)) = some value
item_boolean _ = none

-- A whole number, as `valuedouble == valueint` asks, from `low` to `high`; the sign of 0 does not
-- count.
unfoldable pub item_number : ℕ → ℕ → Option Item → Option ℕ
item_number low high (some (Item.number negative whole fraction)) =
    if (not negative || whole == 0) && leb low whole && leb whole high && not fraction
    then some whole
    else none
item_number low high _ = none

pub item_number-range :
    (low high : ℕ) (item : Option Item) (n : ℕ)
    → item_number low high item ≡ some n
    → (low ≤ n) × (n ≤ high)
unfolding item_number
item_number-range low high none n e = ground (arith, e)
item_number-range low high (some (Item.boolean b)) n e = ground (arith, e)
item_number-range low high (some (Item.text t)) n e = ground (arith, e)
item_number-range low high (some Item.other) n e = ground (arith, e)
item_number-range low high (some (Item.number b w f)) n e = ground (arith, e)

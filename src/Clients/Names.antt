-- ===== src/Clients/Names.antt =====
-- The names of modes and fan speeds, of main/ac_protocol.c, main/mqtt_service.c and
-- main/web_service.c. A text is the list of its characters, without the zero byte at its end.
use lin_tac09cpbpsl_esp32c.Common.{
  ℕ, Bool, true, false, not, List, [], ◌∷◌, Option, none, some, if◌then◌else◌,
}
use lin_tac09cpbpsl_esp32c.Protocol.Types.{Mode, Fan}
use lin_tac09cpbpsl_esp32c.Bridge.Types.{AcState}
use lin_tac09cpbpsl_esp32c.Bridge.Update.{same_bytes}

-- off, cool, fan, fan_only, dry
abbrev pub text_off : List ℕ
text_off = 111 ∷ 102 ∷ 102 ∷ []

abbrev pub text_cool : List ℕ
text_cool = 99 ∷ 111 ∷ 111 ∷ 108 ∷ []

abbrev pub text_fan : List ℕ
text_fan = 102 ∷ 97 ∷ 110 ∷ []

abbrev pub text_fan_only : List ℕ
text_fan_only = 102 ∷ 97 ∷ 110 ∷ 95 ∷ 111 ∷ 110 ∷ 108 ∷ 121 ∷ []

abbrev pub text_dry : List ℕ
text_dry = 100 ∷ 114 ∷ 121 ∷ []

-- low, high, mode-default, unknown
abbrev pub text_low : List ℕ
text_low = 108 ∷ 111 ∷ 119 ∷ []

abbrev pub text_high : List ℕ
text_high = 104 ∷ 105 ∷ 103 ∷ 104 ∷ []

abbrev pub text_mode_default : List ℕ
text_mode_default = 109 ∷ 111 ∷ 100 ∷ 101 ∷ 45 ∷ 100 ∷ 101 ∷ 102 ∷ 97 ∷ 117 ∷ 108 ∷ 116 ∷ []

abbrev pub text_unknown : List ℕ
text_unknown = 117 ∷ 110 ∷ 107 ∷ 110 ∷ 111 ∷ 119 ∷ 110 ∷ []

-- ON, OFF
abbrev pub text_on : List ℕ
text_on = 79 ∷ 78 ∷ []

abbrev pub text_off_upper : List ℕ
text_off_upper = 79 ∷ 70 ∷ 70 ∷ []

-- `ac_protocol_mode_name`
unfoldable pub mode_name : Mode → List ℕ
mode_name Mode.fan = text_fan
mode_name Mode.cool = text_cool
mode_name Mode.dry = text_dry
mode_name Mode.unknown = text_unknown

-- `ac_protocol_fan_name`
unfoldable pub fan_name : Fan → List ℕ
fan_name Fan.low = text_low
fan_name Fan.mode_default = text_mode_default
fan_name Fan.high = text_high
fan_name Fan.unknown = text_unknown

-- `ha_mode_name`
unfoldable pub ha_mode_name : AcState → List ℕ
unfolding mode_name
ha_mode_name state =
    if not state.power
    then text_off
    else elim (state.mode) [ Mode.fan ↦ text_fan_only | mode ↦ mode_name mode ]

-- `ha_fan_name`
unfoldable pub ha_fan_name : AcState → List ℕ
ha_fan_name state = elim (state.fan) [
  | Fan.low ↦ text_low
  | Fan.high ↦ text_high
  | _ ↦ text_unknown
]

-- `parse_mode_name` of main/mqtt_service.c, with the mode and the power that it stores.
unfoldable pub parse_mode_name : List ℕ → Option (Mode × Bool)
parse_mode_name value =
    if same_bytes value text_off
    then some (Mode.unknown, false)
    else if same_bytes value text_cool
    then some (Mode.cool, true)
    else if same_bytes value text_fan_only
    then some (Mode.fan, true)
    else if same_bytes value text_dry
    then some (Mode.dry, true)
    else none

-- `parse_fan_name` of main/mqtt_service.c, and `parse_fan` of main/web_service.c.
unfoldable pub parse_fan_name : List ℕ → Option Fan
parse_fan_name value =
    if same_bytes value text_low
    then some Fan.low
    else if same_bytes value text_high
    then some Fan.high
    else none

-- `parse_mode` of main/web_service.c
unfoldable pub parse_mode : List ℕ → Option Mode
parse_mode value =
    if same_bytes value text_cool
    then some Mode.cool
    else if same_bytes value text_fan
    then some Mode.fan
    else if same_bytes value text_dry
    then some Mode.dry
    else none

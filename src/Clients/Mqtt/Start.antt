-- ===== src/Clients/Mqtt/Start.antt =====
-- main/mqtt_service.c: the topics of a device, and the start of the service.
use lin_tac09cpbpsl_esp32c.Common.{
  ℕ, ◌-◌, Bool, true, false, not, List, [], ◌∷◌, ◌++◌, take, Option, none, some, if◌then◌else◌,
  codes, hex_byte,
}
use lin_tac09cpbpsl_esp32c.Clients.Mqtt.{Topics}
use lin_tac09cpbpsl_esp32c.Clients.Mqtt.Events.{Client}

-- The suffixes of the topics.
abbrev pub suffix_climate : List ℕ
suffix_climate = codes "climate/set"

abbrev pub suffix_mode : List ℕ
suffix_mode = codes "climate/mode/set"

abbrev pub suffix_temperature : List ℕ
suffix_temperature = codes "climate/temperature/set"

abbrev pub suffix_fan : List ℕ
suffix_fan = codes "climate/fan/set"

abbrev pub suffix_power : List ℕ
suffix_power = codes "climate/power/set"

abbrev pub suffix_quiet : List ℕ
suffix_quiet = codes "feature/quiet/set"

abbrev pub suffix_units : List ℕ
suffix_units = codes "feature/units_fahrenheit/set"

abbrev pub base_name : List ℕ
base_name = codes "klima"

-- The size of `device_id`, and of the arrays for the topics.
abbrev pub device_id_size : ℕ
device_id_size = 32

abbrev pub topic_array_size : ℕ
topic_array_size = 96

-- `topic_from_suffix`: the text that `snprintf` puts into an array of this size.
unfoldable pub topic_from_suffix : ℕ → List ℕ → List ℕ → List ℕ
topic_from_suffix size device_id suffix =
    take (size - 1) (base_name ++ (47 ∷ device_id) ++ (47 ∷ suffix))

-- The topics that `mqtt_service_start` fills in.
unfoldable pub topics_of : List ℕ → Topics
unfolding topic_from_suffix
topics_of device_id = record {
  climate_set = topic_from_suffix topic_array_size device_id suffix_climate;
  mode_set = topic_from_suffix topic_array_size device_id suffix_mode;
  temperature_set = topic_from_suffix topic_array_size device_id suffix_temperature;
  fan_set = topic_from_suffix topic_array_size device_id suffix_fan;
  power_set = topic_from_suffix topic_array_size device_id suffix_power;
  quiet_set = topic_from_suffix topic_array_size device_id suffix_quiet;
  units_set = topic_from_suffix topic_array_size device_id suffix_units;
}

-- The six numbers of `%02x`.
unfoldable pub mac_text : List ℕ → List ℕ
mac_text [] = []
mac_text (value ∷ values) = hex_byte 97 value ++ mac_text values

abbrev pub device_prefix : List ℕ
device_prefix = codes "klima_"

abbrev pub device_unknown : List ℕ
device_unknown = codes "klima_unknown"

-- `choose_device_id`, with KLIMA_MQTT_DEVICE_ID and the six bytes of the address, if they can be
-- read.
unfoldable pub choose_device_id : List ℕ → Option (List ℕ) → List ℕ
unfolding mac_text
choose_device_id [] none = device_unknown
choose_device_id [] (some mac) = take (device_id_size - 1) (device_prefix ++ mac_text mac)
choose_device_id (x ∷ xs) mac = take (device_id_size - 1) (x ∷ xs)

-- The results of `mqtt_service_start`.
pub data StartErr : Type 0 where
  ok no_mem not_registered : StartErr

-- The variables after `memset`.
abbrev pub fresh_client : Client
fresh_client = record {
  started = false;
  connected = false;
  discovery_pending = false;
  state_pending = false;
}

-- `mqtt_service_start`: `none` is a client that is NULL. The arguments tell whether there is a broker,
-- and whether the client was made, its handler registered and its worker created.
unfoldable pub mqtt_service_start :
    Bool → Bool → Bool → Bool → Option Client → StartErr × Option Client
mqtt_service_start broker made registered created (some c) = (StartErr.ok, some c)
mqtt_service_start broker made registered created none =
    if not broker
    then (StartErr.ok, none)
    else if not made
    then (StartErr.no_mem, none)
    else if not registered
    then (StartErr.not_registered, none)
    else if not created
    then (StartErr.no_mem, none)
    else (StartErr.ok, some fresh_client)

-- `mqtt_service_publish_state`
unfoldable pub mqtt_service_publish_state : Option Client → Option Client
mqtt_service_publish_state none = none
mqtt_service_publish_state (some c) =
    if c.connected then some (record c { state_pending = true }) else some c

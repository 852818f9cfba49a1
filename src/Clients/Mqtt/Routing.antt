-- ===== src/Clients/Mqtt/Routing.antt =====
-- main/mqtt_service.c: the topics of the commands, and the handler of each.
use lin_tac09cpbpsl_esp32c.Common.{
  ℕ, ◌-◌, ◌≤◌, ◌<◌, ◌≡◌, refl, ◌∙◌, List, [], ◌∷◌, ◌++◌, Option, none, length, take_short,
  length-append, if◌then◌else◌, arith,
}
use lin_tac09cpbpsl_esp32c.Protocol.Types.{Request}
use lin_tac09cpbpsl_esp32c.Bridge.Update.{same_bytes}
use lin_tac09cpbpsl_esp32c.Clients.Json.{Library}
use lin_tac09cpbpsl_esp32c.Clients.Mqtt.{
  Feature, topic_request, climate_payload, mode_payload, temperature_payload, fan_payload,
  power_payload, feature_payload,
}
use lin_tac09cpbpsl_esp32c.Clients.Mqtt.Start.{
  suffix_climate, suffix_mode, suffix_temperature, suffix_fan, suffix_power, suffix_quiet,
  suffix_units, base_name, device_id_size, topic_array_size, topic_from_suffix, topics_of,
}

-- The seven commands of a device.
pub data TopicKind : Type 0 where
  climate mode temperature fan power : TopicKind
  feature : Feature → TopicKind

unfoldable pub suffix_of : TopicKind → List ℕ
suffix_of TopicKind.climate = suffix_climate
suffix_of TopicKind.mode = suffix_mode
suffix_of TopicKind.temperature = suffix_temperature
suffix_of TopicKind.fan = suffix_fan
suffix_of TopicKind.power = suffix_power
suffix_of (TopicKind.feature Feature.quiet) = suffix_quiet
suffix_of (TopicKind.feature Feature.units) = suffix_units

unfoldable pub payload_of : Library → TopicKind → List ℕ → Option Request
payload_of j TopicKind.climate bytes = climate_payload j bytes
payload_of j TopicKind.mode bytes = mode_payload j bytes
payload_of j TopicKind.temperature bytes = temperature_payload j bytes
payload_of j TopicKind.fan bytes = fan_payload j bytes
payload_of j TopicKind.power bytes = power_payload j bytes
payload_of j (TopicKind.feature f) bytes = feature_payload j f bytes

same_refl : (x : ℕ) (xs ys : List ℕ) → same_bytes (x ∷ xs) (x ∷ ys) ≡ same_bytes xs ys
unfolding same_bytes
same_refl x xs ys = ground arith

same_prefix : (xs ys zs : List ℕ) → same_bytes (xs ++ ys) (xs ++ zs) ≡ same_bytes ys zs
same_prefix [] ys zs = refl
same_prefix (x ∷ xs) ys zs = same_refl x (xs ++ ys) (xs ++ zs) ∙ same_prefix xs ys zs

-- The arrays are large enough for the topics of an identifier that fits into its own array.
topic_whole :
    (id suffix : List ℕ)
    → length id < device_id_size
    → length suffix ≤ 50
    → topic_from_suffix topic_array_size id suffix ≡ base_name ++ (47 ∷ id) ++ (47 ∷ suffix)
unfolding topic_from_suffix
topic_whole id suffix h k = take_short (topic_array_size - 1) _ (
    omega (
      arith,
      length-append base_name ((47 ∷ id) ++ (47 ∷ suffix)),
      length-append (47 ∷ id) (47 ∷ suffix),
    ))

same_topic :
    (id a b : List ℕ)
    → length id < device_id_size
    → length b ≤ 50
    → same_bytes (base_name ++ (47 ∷ id) ++ (47 ∷ a)) (topic_from_suffix topic_array_size id b)
      ≡ same_bytes a b
same_topic id a b h l = rw (topic_whole id b h l) (
    same_prefix base_name ((47 ∷ id) ++ (47 ∷ a)) ((47 ∷ id) ++ (47 ∷ b))
    ∙ same_prefix (47 ∷ id) (47 ∷ a) (47 ∷ b)
    ∙ same_refl 47 a b)

-- The chain of comparisons, on the suffix alone.
unfoldable request_by_suffix : Library → List ℕ → List ℕ → Option Request
request_by_suffix j s bytes =
    if same_bytes s suffix_climate
    then climate_payload j bytes
    else if same_bytes s suffix_mode
    then mode_payload j bytes
    else if same_bytes s suffix_temperature
    then temperature_payload j bytes
    else if same_bytes s suffix_fan
    then fan_payload j bytes
    else if same_bytes s suffix_power
    then power_payload j bytes
    else if same_bytes s suffix_quiet
    then feature_payload j Feature.quiet bytes
    else if same_bytes s suffix_units
    then feature_payload j Feature.units bytes
    else none

-- A message on a topic that is written in full.
topic_request-eq :
    (j : Library) (id s bytes : List ℕ)
    → length id < device_id_size
    → topic_request j (topics_of id) (base_name ++ (47 ∷ id) ++ (47 ∷ s)) bytes
      ≡ request_by_suffix j s bytes
unfolding topic_request topics_of request_by_suffix
topic_request-eq j id s bytes h =
    rw
      (
        same_topic id s suffix_climate h (omega arith),
        same_topic id s suffix_mode h (omega arith),
        same_topic id s suffix_temperature h (omega arith),
        same_topic id s suffix_fan h (omega arith),
        same_topic id s suffix_power h (omega arith),
        same_topic id s suffix_quiet h (omega arith),
        same_topic id s suffix_units h (omega arith),
      )
      refl

-- The topic of a command in full, as the broker has it: klima/<identifier>/<suffix>.
abbrev pub full_topic : List ℕ → TopicKind → List ℕ
full_topic id kind = base_name ++ (47 ∷ id) ++ (47 ∷ suffix_of kind)

-- For an identifier that fits into its array, a message on a command's topic in full is read by the
-- handler of that command: the topics that the service compares it with are not cut, and none hides
-- another.
pub topic_request-routes :
    (j : Library) (id : List ℕ) (kind : TopicKind) (bytes : List ℕ)
    → length id < device_id_size
    → topic_request j (topics_of id) (full_topic id kind) bytes ≡ payload_of j kind bytes
unfolding suffix_of payload_of request_by_suffix same_bytes
topic_request-routes j id TopicKind.climate bytes h = topic_request-eq j id suffix_climate bytes h
topic_request-routes j id TopicKind.mode bytes h = topic_request-eq j id suffix_mode bytes h
topic_request-routes j id TopicKind.temperature bytes h =
    topic_request-eq j id suffix_temperature bytes h
topic_request-routes j id TopicKind.fan bytes h = topic_request-eq j id suffix_fan bytes h
topic_request-routes j id TopicKind.power bytes h = topic_request-eq j id suffix_power bytes h
topic_request-routes j id (TopicKind.feature Feature.quiet) bytes h =
    topic_request-eq j id suffix_quiet bytes h
topic_request-routes j id (TopicKind.feature Feature.units) bytes h =
    topic_request-eq j id suffix_units bytes h

-- ===== src/Clients/Mqtt/Events.antt =====
-- main/mqtt_service.c: the events of the MQTT client and the rounds of the worker. The client belongs
-- to ESP-IDF: what it hands over with an event, and the result of its start, are arguments, and so
-- are the ticks of FreeRTOS.
use lin_tac09cpbpsl_esp32c.Common.{
  ℕ, ◌+◌, ◌-◌, ◌%◌, ◌^◌, Bool, true, false, not, ◌&&◌, ◌||◌, List, [], ◌∷◌, length, ltb, leb, ◌==◌,
  if◌then◌else◌, codes,
}
use lin_tac09cpbpsl_esp32c.Bridge.Types.{Profile, Service}
use lin_tac09cpbpsl_esp32c.Bridge.Update.{same_bytes}
use lin_tac09cpbpsl_esp32c.Bridge.Queue.{mitm_active}
use lin_tac09cpbpsl_esp32c.Clients.Json.{Library}
use lin_tac09cpbpsl_esp32c.Clients.Mqtt.{Topics, handle_command_topic}
use lin_tac09cpbpsl_esp32c.Clients.Mqtt.Payload.{max_payload, c_string}

-- The flags of `mqtt_context_t`.
pub record Client : Type 0 where
  pub started : Bool
  pub connected : Bool
  pub discovery_pending : Bool
  pub state_pending : Bool

-- A message of the broker, as `esp_mqtt_event_handle_t` gives it: the first `topic_len` bytes of the
-- topic and the first `data_len` bytes of the data.
pub record Delivery : Type 0 where
  pub topic : List ℕ
  pub payload : List ℕ
  pub total_data_len : ℕ
  pub current_data_offset : ℕ
  pub retain : Bool

-- `event_id`
pub data Event : Type 0 where
  connect disconnect failure other : Event
  delivery : Delivery → Event

-- What `mqtt_event_handler` did: the topics that it subscribed to, the error that it published, or
-- whether a command was taken.
pub data Outcome : Type 0 where
  subscribed : List (List ℕ) → Outcome
  fragmented too_large retained birth nothing : Outcome
  commanded : Bool → Outcome

abbrev pub birth_topic : List ℕ
birth_topic = codes "homeassistant/status"

abbrev pub text_online : List ℕ
text_online = codes "online"

-- `sizeof(topic)`
abbrev pub topic_size : ℕ
topic_size = 160

-- The topics of the commands.
unfoldable pub command_topics : Topics → List (List ℕ)
command_topics n =
    n.climate_set ∷ n.mode_set ∷ n.temperature_set ∷ n.fan_set ∷ n.power_set ∷ n.quiet_set
    ∷ n.units_set ∷ []

-- The message has no topic, or is a part of a longer one.
unfoldable pub is_fragment : Delivery → Bool
is_fragment d =
    length d.topic == 0
    || not (d.total_data_len == length d.payload)
    || not (d.current_data_offset == 0)

unfoldable pub is_too_large : Delivery → Bool
is_too_large d = leb topic_size (length d.topic) || ltb max_payload (length d.payload)

-- The message of Home Assistant about itself.
unfoldable pub on_birth : Delivery → Client → Client
on_birth d c =
    if same_bytes d.payload text_online
    then record c { discovery_pending = true; state_pending = true }
    else c

-- A command that was taken asks for the state to be published.
unfoldable pub note_command : Bool × Service → Client → Outcome × Client × Service
note_command (told, s) c =
    (Outcome.commanded told, (if told then record c { state_pending = true } else c), s)

-- The part of `mqtt_event_handler` for MQTT_EVENT_DATA.
unfoldable pub on_delivery :
    Library → Profile → ℕ → Topics → Delivery → Client → Service → Outcome × Client × Service
unfolding is_fragment is_too_large on_birth note_command
on_delivery j p now n d c s =
    if is_fragment d
    then (Outcome.fragmented, c, s)
    else if is_too_large d
    then (Outcome.too_large, c, s)
    else if same_bytes (c_string d.topic) birth_topic
    then (Outcome.birth, on_birth d c, s)
    else if d.retain
    then (Outcome.retained, c, s)
    else note_command (handle_command_topic j p now n (c_string d.topic) d.payload s) c

-- `mqtt_event_handler`
unfoldable pub mqtt_event_handler :
    Library → Profile → ℕ → Topics → Event → Client → Service → Outcome × Client × Service
unfolding on_delivery command_topics
mqtt_event_handler j p now n Event.connect c s = (
  Outcome.subscribed
      (birth_topic ∷ (if mitm_active p s.hardware_ready then command_topics n else [])),
  record c { connected = true; discovery_pending = true; state_pending = true },
  s,
)
mqtt_event_handler j p now n Event.disconnect c s =
    (Outcome.nothing, record c { connected = false }, s)
mqtt_event_handler j p now n Event.failure c s = (Outcome.nothing, c, s)
mqtt_event_handler j p now n Event.other c s = (Outcome.nothing, c, s)
mqtt_event_handler j p now n (Event.delivery d) c s = on_delivery j p now n d c s

-- `last_state` and `last_start_attempt` of `mqtt_worker`.
pub record Worker : Type 0 where
  pub last_state : ℕ
  pub last_start_attempt : ℕ

-- `now - last` on a `TickType_t`
unfoldable pub ticks_since : ℕ → ℕ → ℕ
ticks_since now last = (now + (2 ^ 32 - last)) % 2 ^ 32

-- The start of the client in `mqtt_worker`, tried once in `retry` ticks while the station is
-- connected; `starts` is the result of `esp_mqtt_client_start`.
unfoldable pub try_start : ℕ → ℕ → Bool → Bool → Client → Worker → Client × Worker
unfolding ticks_since
try_start retry now sta_connected starts c w =
    if not c.started
      && sta_connected
      && (w.last_start_attempt == 0 || leb retry (ticks_since now w.last_start_attempt))
    then (
      (if starts then record c { started = true } else c),
      record w { last_start_attempt = now },
    )
    else (c, w)

-- `s_mqtt.state_pending || now - last_state >= pdMS_TO_TICKS(MQTT_STATE_PERIOD_MS)`
unfoldable pub state_is_due : ℕ → ℕ → Client → Worker → Bool
unfolding ticks_since
state_is_due period now c w = c.state_pending || leb period (ticks_since now w.last_state)

-- What the worker publishes in a round.
pub record Published : Type 0 where
  pub discovery : Bool
  pub state : Bool

-- The first part of a round: the discovery, and the decision to publish the state.
unfoldable pub begin_round : ℕ → ℕ → Client → Worker → Published × Client
unfolding state_is_due
begin_round period now c w = (
  record {
    discovery = c.connected && c.discovery_pending;
    state = c.connected && state_is_due period now c w;
  },
  (if c.connected then record c { discovery_pending = false } else c),
)

-- The second part, after `publish_state_now`.
unfoldable pub end_round : ℕ → Published → Client → Worker → Client × Worker
end_round now published c w =
    if published.state
    then (record c { state_pending = false }, record w { last_state = now })
    else (c, w)

-- A round of `mqtt_worker`, with the times of its two readings of the clock.
unfoldable pub worker_round :
    ℕ → ℕ → ℕ → ℕ → Bool → Bool → Client → Worker → Published × Client × Worker
unfolding try_start begin_round end_round
worker_round retry period start_time now sta_connected starts c w =
    let (d, v) = try_start retry start_time sta_connected starts c w in
    let (published, e) = begin_round period now d v in
    let (f, u) = end_round now published e v in (published, f, u)

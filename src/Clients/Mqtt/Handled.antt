-- ===== src/Clients/Mqtt/Handled.antt =====
-- main/mqtt_service.c: what an event of the client does to the bridge, and when the worker publishes.
use lin_tac09cpbpsl_esp32c.Common.{
  ℕ, ◌^◌, ◌<◌, ◌≡◌, refl, Bool, true, false, ◌||◌, Bool-cases, inl, inr, arith,
}
use lin_tac09cpbpsl_esp32c.Bridge.Types.{Profile, Service}
use lin_tac09cpbpsl_esp32c.Bridge.Update.{same_bytes}
use lin_tac09cpbpsl_esp32c.Clients.Issue.{Issued}
use lin_tac09cpbpsl_esp32c.Clients.Json.{Library}
use lin_tac09cpbpsl_esp32c.Clients.Mqtt.{Topics}
use lin_tac09cpbpsl_esp32c.Clients.Mqtt.Payload.{c_string}
use lin_tac09cpbpsl_esp32c.Clients.Mqtt.Issue.{handle_command_topic-Issued}
use lin_tac09cpbpsl_esp32c.Clients.Mqtt.Events.{
  Client, Delivery, Event, Outcome, Worker, birth_topic, is_fragment, is_too_large, on_delivery,
  note_command, mqtt_event_handler, ticks_since, state_is_due, try_start, begin_round, end_round,
  worker_round,
}

-- A command that the bridge has taken.
unfoldable pub has_taken : Outcome → Bool
has_taken (Outcome.commanded told) = told
has_taken _ = false

on_delivery-Issued :
    (j : Library) (p : Profile) (now : ℕ) (n : Topics) (d : Delivery) (c : Client) (s : Service)
    → Issued p now s (has_taken (on_delivery j p now n d c s).0) (on_delivery j p now n d c s).2
unfolding on_delivery has_taken note_command
on_delivery-Issued j p now n d c s = elim (Bool-cases (is_fragment d)) [
  | inl a ↦ rw a (inl (refl, refl))
  | inr a ↦ elim (Bool-cases (is_too_large d)) [
    | inl b ↦ rw (a, b) (inl (refl, refl))
    | inr b ↦ elim (Bool-cases (same_bytes (c_string d.topic) birth_topic)) [
      | inl e ↦ rw (a, b, e) (inl (refl, refl))
      | inr e ↦ elim (Bool-cases (d.retain)) [
        | inl r ↦ rw (a, b, e, r) (inl (refl, refl))
        | inr r ↦
            rw (a, b, e, r) (handle_command_topic-Issued j p now n (c_string d.topic) d.payload s)
      ]
    ]
  ]
]

-- Whatever event the client of the broker reports, in whatever state of the flags, the bridge is
-- given one sound request or none, and the outcome is a taken command exactly where the bridge has
-- taken it.
pub mqtt_event_handler-Issued :
    (j : Library) (p : Profile) (now : ℕ) (n : Topics) (e : Event) (c : Client) (s : Service)
    → Issued p now s
        (has_taken (mqtt_event_handler j p now n e c s).0)
        (mqtt_event_handler j p now n e c s).2
unfolding mqtt_event_handler has_taken
mqtt_event_handler-Issued j p now n Event.connect c s = inl (refl, refl)
mqtt_event_handler-Issued j p now n Event.disconnect c s = inl (refl, refl)
mqtt_event_handler-Issued j p now n Event.failure c s = inl (refl, refl)
mqtt_event_handler-Issued j p now n Event.other c s = inl (refl, refl)
mqtt_event_handler-Issued j p now n (Event.delivery d) c s = on_delivery-Issued j p now n d c s

-- A message that the broker retained, that is a part of a longer one, or that is too long, does
-- not reach the bridge, whatever its topic and its text: no command is reported as taken.
pub mqtt_event_handler-refused :
    (j : Library) (p : Profile) (now : ℕ) (n : Topics) (d : Delivery) (c : Client) (s : Service)
    → (d.retain || is_fragment d || is_too_large d) ≡ true
    → let r = mqtt_event_handler j p now n (Event.delivery d) c s in
      (has_taken r.0 ≡ false) × (r.2 ≡ s)
unfolding mqtt_event_handler on_delivery has_taken
mqtt_event_handler-refused j p now n d c s h = ground arith

taken-pending :
    (j : Library) (p : Profile) (now : ℕ) (n : Topics) (e : Event) (c : Client) (s : Service)
    → has_taken (mqtt_event_handler j p now n e c s).0 ≡ true
    → let d = (mqtt_event_handler j p now n e c s).1 in
      (d.state_pending ≡ true) × (d.connected ≡ c.connected)
unfolding mqtt_event_handler on_delivery note_command has_taken
taken-pending j p now n Event.connect c s h = ground arith
taken-pending j p now n Event.disconnect c s h = ground arith
taken-pending j p now n Event.failure c s h = ground arith
taken-pending j p now n Event.other c s h = ground arith
taken-pending j p now n (Event.delivery d) c s h = ground arith

-- Once the bridge has taken a command of the broker and the connection is up, the next round of the
-- worker publishes the state, whatever the times and whether the client is to be started.
pub worker_round-publishes :
    (j : Library) (p : Profile) (now : ℕ) (n : Topics) (e : Event) (c : Client) (s : Service)
    (retry period start_time later : ℕ) (sta_connected starts : Bool) (w : Worker)
    → c.connected ≡ true
    → has_taken (mqtt_event_handler j p now n e c s).0 ≡ true
    → let d = (mqtt_event_handler j p now n e c s).1 in
      let r = worker_round retry period start_time later sta_connected starts d w in
      (r.0.state ≡ true) × (r.1.state_pending ≡ false) × (r.2.last_state ≡ later)
unfolding worker_round try_start begin_round end_round state_is_due
worker_round-publishes j p now n e c s retry period start_time later sta_connected starts w h k =
    let (pending, up) = taken-pending j p now n e c s k in ground arith

-- After every round of the worker in which the connection is up, the state was published less than a
-- period ago, by the counter of ticks, which wraps at 32 bits.
pub worker_round-fresh :
    (retry period start_time now : ℕ) (sta_connected starts : Bool) (c : Client) (w : Worker)
    → now < 2 ^ 32
    → 0 < period
    → c.connected ≡ true
    → let r = worker_round retry period start_time now sta_connected starts c w in
      ticks_since now r.2.last_state < period
unfolding worker_round try_start begin_round end_round state_is_due ticks_since
worker_round-fresh retry period start_time now sta_connected starts c w b h k = ground arith

-- A command that the bridge takes after a round has begun to publish the state and before it clears
-- the flag is not followed by a publication: the next decision of the worker is not to publish, up
-- to the end of the period.
pub end_round-forgets :
    (j : Library) (p : Profile) (time : ℕ) (n : Topics) (e : Event) (c : Client) (s : Service)
    (period now later : ℕ) (w : Worker)
    → (begin_round period now c w).0.state ≡ true
    → has_taken (mqtt_event_handler j p time n e (begin_round period now c w).1 s).0 ≡ true
    → ticks_since later now < period
    → let d = (mqtt_event_handler j p time n e (begin_round period now c w).1 s).1 in
      let (f, u) = end_round now (begin_round period now c w).0 d w in
      (begin_round period later f u).0.state ≡ false
unfolding begin_round end_round state_is_due
end_round-forgets j p time n e c s period now later w h k l = ground arith

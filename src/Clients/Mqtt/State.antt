-- ===== src/Clients/Mqtt/State.antt =====
-- main/mqtt_service.c: `publish_state_now`, the availability of the control, and the names of the mode
-- and the fan in the state.
use lin_tac09cpbpsl_esp32c.Common.{
  ℕ, ◌-◌, ◌/◌, ◌≤◌, ◌↔◌, List, ◌%◌, ◌^◌, ◌<◌, ◌≡◌, ◌≢◌, Bool, refl, ◌∙◌, Bool-cases, inl, inr, true,
  false, not, ◌&&◌, Option, none, some, has, bit_or, if◌then◌else◌, arith,
}
use lin_tac09cpbpsl_esp32c.Protocol.Types.{Mode, Fan, Request}
use lin_tac09cpbpsl_esp32c.Protocol.Wire.{
  control_power, control_setpoint, control_mode, control_fan, control_timer,
}
use lin_tac09cpbpsl_esp32c.Protocol.Control.{rejects}
use lin_tac09cpbpsl_esp32c.Bridge.Types.{Profile, AcState, Service}
use lin_tac09cpbpsl_esp32c.Bridge.Update.{same_bytes, no_request}
use lin_tac09cpbpsl_esp32c.Bridge.Queue.{
  EspErr, mitm_active, link_fresh_ms, is_fresh, links_fresh, setpoint_out_of_mode, queue_control,
}
use lin_tac09cpbpsl_esp32c.Bridge.Gate.{admits, queue_control-ok_iff}
use lin_tac09cpbpsl_esp32c.Bridge.View.{get_ac_state, get_ac_state-links_fresh}
use lin_tac09cpbpsl_esp32c.Clients.Names.{
  ha_mode_name, ha_fan_name, parse_mode_name, parse_fan_name,
}
use lin_tac09cpbpsl_esp32c.Clients.Json.{Item, Library, item_text, item_number, item_boolean}
use lin_tac09cpbpsl_esp32c.Clients.Mqtt.Payload.{parse_complete_json}
use lin_tac09cpbpsl_esp32c.Protocol.Parse.{valid_setpoint}
use lin_tac09cpbpsl_esp32c.Clients.Mqtt.{
  with_mode, climate_request, climate_payload, key_mode, key_target_temp, key_fan, key_power,
}

-- `control_available`
unfoldable pub control_available : ℕ → Service → Bool
unfolding get_ac_state
control_available now s =
    let (state, _, _) = get_ac_state now s in
    state.mitm_active && state.main_valid && state.panel_valid && not state.panel_emulated

-- `publish_state_now`, while the connection is up or not: the availability that is published, if it
-- is, and whether the state is, for which there must be memory.
unfoldable pub publish_state_now : Bool → Bool → ℕ → Service → Option Bool × Bool
unfolding control_available
publish_state_now connected made now s =
    (if connected then some (control_available now s) else none, connected && made)

published_available :
    (connected made : Bool) (now : ℕ) (s : Service)
    → (publish_state_now connected made now s).0 ≡ some true
    → control_available now s ≡ true
unfolding publish_state_now
published_available connected made now s h = ground arith

available-links_fresh :
    (now : ℕ) (s : Service)
    → 0 < s.main_frame_time_us
    → 0 < s.panel_frame_time_us
    → control_available now s ≡ true
    → (links_fresh now s ≡ true) × (s.state.mitm_active ≡ true)
unfolding control_available get_ac_state
available-links_fresh now s h k a = ground (arith, get_ac_state-links_fresh now s h k)

links_fresh-later :
    (now later : ℕ) (s : Service)
    → links_fresh now s ≡ true
    → (links_fresh later s ≡ true) ↔ (
        ((later - s.main_frame_time_us) / 1000 ≤ link_fresh_ms)
        × ((later - s.panel_frame_time_us) / 1000 ≤ link_fresh_ms))
unfolding links_fresh is_fresh
links_fresh-later now later s h = ground arith

-- After the control was published as available, by a state that shows the control as active exactly as
-- the profile and the interlock have it, and in which each side has sent a frame: as long as no step of
-- the bridge comes between, a request that is not empty, keeps to the ranges and the ways to name a
-- mode, does not ask for the timer, and asks for a setpoint only with the mode Cool, is taken at the
-- time `later` exactly where the last frame of each side is then at most a second old, in whole
-- milliseconds. In particular it is taken at the time of the publication.
pub publish_state_now-takes :
    (p : Profile) (connected made : Bool) (now later : ℕ) (r : Request) (s : Service)
    → s.state.mitm_active ≡ mitm_active p s.hardware_ready
    → 0 < s.main_frame_time_us
    → 0 < s.panel_frame_time_us
    → (publish_state_now connected made now s).0 ≡ some true
    → r.mask ≢ 0
    → rejects r ≡ false
    → has r.mask control_timer ≡ false
    → setpoint_out_of_mode r s ≡ false
    → ((queue_control p now r s).0 ≡ EspErr.ok)
      × (((queue_control p later r s).0 ≡ EspErr.ok) ↔ (
          ((later - s.main_frame_time_us) / 1000 ≤ link_fresh_ms)
          × ((later - s.panel_frame_time_us) / 1000 ≤ link_fresh_ms)))
unfolding admits
publish_state_now-takes p connected made now later r s e h k a nonempty sound timer setpoint =
    let (fresh, active) =
      available-links_fresh now s h k (published_available connected made now s a) in
    let aged = links_fresh-later now later s fresh in
    (
      (queue_control-ok_iff p now r s).1 (ground arith),
      (
        λ ok. let admitted = (queue_control-ok_iff p later r s).0 ok in aged.0 (ground arith),
        λ young. let all = aged.1 young in (queue_control-ok_iff p later r s).1 (ground arith),
      ),
    )

-- That a request asks for a state: its power, its setpoint and its fan speed, and the mode of a state
-- that is on; it says nothing else.
pub record AsksFor (state : AcState) (r : Request) : Type 0 where
  pub power_as : r.power ≡ state.power
  pub setpoint_as : r.setpoint_c ≡ state.setpoint_c
  pub fan_as : r.fan ≡ state.fan
  pub mode_as : r.mode ≡ (if state.power then state.mode else Mode.unknown)
  pub fields :
      r.mask
      ≡ bit_or
          (bit_or control_power control_setpoint)
          (if state.power then bit_or control_fan control_mode else control_fan)

-- The request for the state that is published, with the mode that its name stands for.
abbrev request_for : AcState → Request
request_for state =
    with_mode (if state.power then state.mode else Mode.unknown) (record no_request {
      mask = bit_or (bit_or control_power control_setpoint) control_fan;
      power = state.power;
      setpoint_c = state.setpoint_c % 2 ^ 8;
      fan = state.fan;
    })

climate_request-published :
    (state : AcState)
    → state.mode ≢ Mode.unknown
    → state.fan ≢ Fan.unknown
    → state.fan ≢ Fan.mode_default
    → climate_request (ha_mode_name state, state.setpoint_c, ha_fan_name state, state.power)
      ≡ some (request_for state)
unfolding climate_request ha_mode_name ha_fan_name parse_mode_name parse_fan_name same_bytes
    with_mode
climate_request-published state h k l = ground arith

with_mode-known :
    (mode : Mode) (r : Request)
    → mode ≢ Mode.unknown
    → with_mode mode r ≡ record r { mask = bit_or r.mask control_mode; mode = mode }
unfolding with_mode
with_mode-known Mode.unknown r h = absurd (h refl)
with_mode-known Mode.cool r h = refl
with_mode-known Mode.fan r h = refl
with_mode-known Mode.dry r h = refl

climate_request-AsksFor :
    (state : AcState)
    → state.mode ≢ Mode.unknown
    → state.fan ≢ Fan.unknown
    → state.fan ≢ Fan.mode_default
    → state.setpoint_c ≤ 32
    → (r : Request) × (climate_request
          (ha_mode_name state, state.setpoint_c, ha_fan_name state, state.power)
        ≡ some r)
      × AsksFor state r
unfolding with_mode
climate_request-AsksFor state h k l b = (
  request_for state,
  climate_request-published state h k l,
  elim (Bool-cases (state.power)) [
    | inl on ↦
        rw (on, with_mode-known state.mode _ h)
          (record {
            power_as = refl;
            setpoint_as = omega arith;
            fan_as = refl;
            mode_as = refl;
            fields = refl;
          })
    | inr off ↦ rw off (record {
      power_as = refl;
      setpoint_as = omega arith;
      fan_as = refl;
      mode_as = refl;
      fields = refl;
    })
  ],
)

in_range :
    (n : ℕ)
    → valid_setpoint n ≡ true
    → (item_number 18 32 (some (Item.number false n false)) ≡ some n) × (n ≤ 32)
unfolding item_number valid_setpoint
in_range n h = ground arith

climate_payload-eq :
    (j : Library) (bytes : List ℕ) (root : j.Value) (mode fan : List ℕ) (n : ℕ) (power : Bool)
    → parse_complete_json j bytes ≡ some root
    → j.get root key_mode ≡ some (Item.text mode)
    → j.get root key_target_temp ≡ some (Item.number false n false)
    → item_number 18 32 (some (Item.number false n false)) ≡ some n
    → j.get root key_fan ≡ some (Item.text fan)
    → j.get root key_power ≡ some (Item.boolean power)
    → climate_payload j bytes ≡ climate_request (mode, n, fan, power)
unfolding climate_payload item_text item_boolean
climate_payload-eq j bytes root mode fan n power e a b whole c d =
    rw (e, climate_payload) (rw (a, b, whole, c, d) refl)

-- A climate command whose object holds the names of the mode and the fan, the setpoint and the power
-- of a state, as the state is published, is read as a request for this state: its power, setpoint and
-- fan speed, and, where it is on, its mode. The mode and the fan speed of the state have names for Home
-- Assistant, and its setpoint is from 18 to 32 degrees.
pub climate_payload-published :
    (j : Library) (bytes : List ℕ) (root : j.Value) (state : AcState)
    → parse_complete_json j bytes ≡ some root
    → j.get root key_mode ≡ some (Item.text (ha_mode_name state))
    → j.get root key_target_temp ≡ some (Item.number false state.setpoint_c false)
    → j.get root key_fan ≡ some (Item.text (ha_fan_name state))
    → j.get root key_power ≡ some (Item.boolean state.power)
    → state.mode ≢ Mode.unknown
    → state.fan ≢ Fan.unknown
    → state.fan ≢ Fan.mode_default
    → valid_setpoint state.setpoint_c ≡ true
    → (r : Request) × (climate_payload j bytes ≡ some r) × AsksFor state r
climate_payload-published j bytes root state e a b c d h k l v =
    let (whole, small) = in_range state.setpoint_c v in
    let (r, read, asks) = climate_request-AsksFor state h k l small in
    (r, climate_payload-eq j bytes root _ _ _ _ e a b whole c d ∙ read, asks)

-- ===== src/Clients/Zigbee/Issue.antt =====
-- optional_components/zigbee_service/zigbee_service.c: what the commands of the network ask for.
use lin_tac09cpbpsl_esp32c.Common.{
  ℕ, ◌/◌, ◌%◌, ◌^◌, ◌≡◌, refl, sym, subst, Bool, true, false, not, ◌&&◌, ◌||◌, inl, inr, Option,
  none, some, ltb, leb, ◌==◌, if◌then◌else◌, Bool-cases, Option-cases, has, arith,
}
use lin_tac09cpbpsl_esp32c.Protocol.Types.{Request}
use lin_tac09cpbpsl_esp32c.Protocol.Wire.{control_setpoint, control_quiet, control_units_fahrenheit}
use lin_tac09cpbpsl_esp32c.Protocol.Parse.{valid_setpoint}
use lin_tac09cpbpsl_esp32c.Protocol.Control.{rejects}
use lin_tac09cpbpsl_esp32c.Bridge.Types.{Profile, Service}
use lin_tac09cpbpsl_esp32c.Bridge.Update.{no_request}
use lin_tac09cpbpsl_esp32c.Bridge.Queue.{mitm_active}
use lin_tac09cpbpsl_esp32c.Bridge.Merge.{is_exclusive, IsSound}
use lin_tac09cpbpsl_esp32c.Clients.Issue.{Issued, AllSound, queued-Issued}
use lin_tac09cpbpsl_esp32c.Clients.Zigbee.{
  Zcl, Status, Message, zigbee_endpoint, klima_cluster, klima_attr_quiet, klima_attr_units,
  zigbee_queue, send, setpoint_request, feature_request, mode_request, fan_request, enum_request,
  fan_cluster_request, cluster_request, set_attr_value_handler,
}

-- `out.result == EZB_ZCL_STATUS_SUCCESS`
unfoldable pub is_success : Status → Bool
is_success Status.success = true
is_success _ = false

zigbee_queue-Issued :
    (p : Profile) (now : ℕ) (r : Request) (s : Service)
    → IsSound r
    → Issued p now s (zigbee_queue p now r s).0 (zigbee_queue p now r s).1
unfolding zigbee_queue
zigbee_queue-Issued p now r s v = elim (Bool-cases (mitm_active p s.hardware_ready)) [
  | inl e ↦ rw e (queued-Issued p now r s v)
  | inr e ↦ rw e (inl (refl, refl))
]

success_if : (b : Bool) → is_success (if b then Status.success else Status.not_authorized) ≡ b
unfolding is_success
success_if true = refl
success_if false = refl

send-Issued :
    (p : Profile) (now : ℕ) (r : Request) (s : Service)
    → IsSound r
    → Issued p now s (is_success (send p now r s).0) (send p now r s).1
unfolding send
send-Issued p now r s v =
    subst (λ b. Issued p now s b (zigbee_queue p now r s).1)
      (sym (success_if ((zigbee_queue p now r s).0))) (zigbee_queue-Issued p now r s v)

setpoint-IsSound :
    (value : ℕ)
    → (ltb value 1800 || ltb 3200 value) ≡ false
    → IsSound (record no_request { mask = control_setpoint; setpoint_c = (value / 100) % 2 ^ 8 })
unfolding rejects has is_exclusive valid_setpoint
setpoint-IsSound value h = record { in_range = ground arith; no_timer = refl; one_code = refl }

setpoint_request-Issued :
    (z : Zcl) (p : Profile) (now : ℕ) (m : Message) (n : ℕ) (s : Service)
    → Issued p now s
        (is_success (setpoint_request z p now m n s).0)
        (setpoint_request z p now m n s).1
unfolding setpoint_request is_success
setpoint_request-Issued z p now m n s = elim (Bool-cases (not (m.data_type == z.type_int16))) [
  | inl a ↦ rw a (inl (refl, refl))
  | inr a ↦
      rw a
        (elim (Bool-cases (
          leb (2 ^ 15) (n % 2 ^ 16)
          || ltb (n % 2 ^ 16) 1800
          || ltb 3200 (n % 2 ^ 16)
          || not (n % 2 ^ 16 % 100 == 0))) [
            | inl b ↦ rw b (inl (refl, refl))
            | inr b ↦
                rw b (send-Issued p now _ s (setpoint-IsSound (n % 2 ^ 16) (ground (arith, b))))
          ])
]

quiet-IsSound : (b : Bool) → IsSound (record no_request { mask = control_quiet; quiet = b })
unfolding rejects has is_exclusive
quiet-IsSound b = record { in_range = refl; no_timer = refl; one_code = refl }

units-IsSound :
    (b : Bool)
    → IsSound (record no_request { mask = control_units_fahrenheit; units_fahrenheit = b })
unfolding rejects has is_exclusive
units-IsSound b = record { in_range = refl; no_timer = refl; one_code = refl }

feature_request-Issued :
    (z : Zcl) (p : Profile) (now : ℕ) (m : Message) (n : ℕ) (s : Service)
    → Issued p now s
        (is_success (feature_request z p now m n s).0)
        (feature_request z p now m n s).1
unfolding feature_request is_success
feature_request-Issued z p now m n s =
    elim (Bool-cases (not (m.attr_id == klima_attr_quiet || m.attr_id == klima_attr_units))) [
      | inl a ↦ rw a (inl (refl, refl))
      | inr a ↦ rw a (elim (Bool-cases (not (m.data_type == z.type_bool))) [
        | inl b ↦ rw b (inl (refl, refl))
        | inr b ↦ rw b (elim (Bool-cases (m.attr_id == klima_attr_quiet)) [
          | inl c ↦ rw c (send-Issued p now _ s (quiet-IsSound _))
          | inr c ↦ rw c (send-Issued p now _ s (units-IsSound _))
        ])
      ])
    ]

enum_request-Issued :
    (z : Zcl) (p : Profile) (now : ℕ) (m : Message) (request : Option Request) (s : Service)
    → AllSound request
    → Issued p now s
        (is_success (enum_request z p now m request s).0)
        (enum_request z p now m request s).1
unfolding enum_request is_success
enum_request-Issued z p now m none s v = elim (Bool-cases (not (m.data_type == z.type_enum8))) [
  | inl a ↦ rw a (inl (refl, refl))
  | inr a ↦ rw a (inl (refl, refl))
]
enum_request-Issued z p now m (some r) s v = elim (Bool-cases (not (m.data_type == z.type_enum8))) [
  | inl a ↦ rw a (inl (refl, refl))
  | inr a ↦ rw a (send-Issued p now r s v)
]

mode_request-AllSound : (z : Zcl) (mode : ℕ) → AllSound (mode_request z mode)
unfolding mode_request rejects has is_exclusive
mode_request-AllSound z mode = elim (Bool-cases (mode == z.mode_off)) [
  | inl a ↦ rw a (record { in_range = refl; no_timer = refl; one_code = refl })
  | inr a ↦ rw a (elim (Bool-cases (mode == z.mode_cool)) [
    | inl b ↦ rw b (record { in_range = refl; no_timer = refl; one_code = refl })
    | inr b ↦ rw b (elim (Bool-cases (mode == z.mode_fan_only)) [
      | inl c ↦ rw c (record { in_range = refl; no_timer = refl; one_code = refl })
      | inr c ↦ rw c (elim (Bool-cases (mode == z.mode_dry)) [
        | inl d ↦ rw d (record { in_range = refl; no_timer = refl; one_code = refl })
        | inr d ↦ rw d tt
      ])
    ])
  ])
]

fan_request-AllSound : (z : Zcl) (mode : ℕ) → AllSound (fan_request z mode)
unfolding fan_request rejects has is_exclusive
fan_request-AllSound z mode = elim (Bool-cases (mode == z.fan_low)) [
  | inl a ↦ rw a (record { in_range = refl; no_timer = refl; one_code = refl })
  | inr a ↦ rw a (elim (Bool-cases (mode == z.fan_high || mode == z.fan_auto)) [
    | inl b ↦ rw b (record { in_range = refl; no_timer = refl; one_code = refl })
    | inr b ↦ rw b tt
  ])
]

fan_cluster_request-Issued :
    (z : Zcl) (p : Profile) (now : ℕ) (m : Message) (n : ℕ) (s : Service)
    → Issued p now s
        (is_success (fan_cluster_request z p now m n s).0)
        (fan_cluster_request z p now m n s).1
unfolding fan_cluster_request is_success
fan_cluster_request-Issued z p now m n s =
    elim (Bool-cases (m.cluster_id == z.fan_cluster && m.attr_id == z.fan_mode_attr)) [
      | inl a ↦ rw a (enum_request-Issued z p now m _ s (fan_request-AllSound z (n % 2 ^ 8)))
      | inr a ↦ rw a (inl (refl, refl))
    ]

cluster_request-Issued :
    (z : Zcl) (p : Profile) (now : ℕ) (m : Message) (n : ℕ) (s : Service)
    → Issued p now s
        (is_success (cluster_request z p now m n s).0)
        (cluster_request z p now m n s).1
unfolding cluster_request
cluster_request-Issued z p now m n s =
    elim (Bool-cases (m.cluster_id == z.thermostat_cluster && m.attr_id == z.system_mode_attr)) [
      | inl a ↦ rw a (enum_request-Issued z p now m _ s (mode_request-AllSound z (n % 2 ^ 8)))
      | inr a ↦
          rw a
            (elim (Bool-cases (
              m.cluster_id == z.thermostat_cluster
              && (m.attr_id == z.occupied_attr || m.attr_id == z.unoccupied_attr))) [
                | inl b ↦ rw b (setpoint_request-Issued z p now m n s)
                | inr b ↦ rw b (fan_cluster_request-Issued z p now m n s)
              ])
    ]

-- A command of the Zigbee network is answered with a success exactly where the bridge has taken one
-- sound request for it; with any other answer nothing has changed.
pub set_attr_value_handler-Issued :
    (z : Zcl) (p : Profile) (now : ℕ) (m : Message) (s : Service)
    → Issued p now s
        (is_success (set_attr_value_handler z p now m s).0)
        (set_attr_value_handler z p now m s).1
unfolding set_attr_value_handler is_success
set_attr_value_handler-Issued z p now m s =
    elim (Bool-cases (not m.status_ok || not (m.dst_ep == zigbee_endpoint) || not m.server)) [
      | inl a ↦ rw a (inl (refl, refl))
      | inr a ↦ rw a (elim (Option-cases m.value) [
        | inl e ↦ rw e (inl (refl, refl))
        | inr (n, e) ↦ rw e (elim (Bool-cases (m.cluster_id == klima_cluster)) [
          | inl b ↦ rw b (feature_request-Issued z p now m n s)
          | inr b ↦ rw b (cluster_request-Issued z p now m n s)
        ])
      ])
    ]

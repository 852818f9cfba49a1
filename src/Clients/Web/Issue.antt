-- ===== src/Clients/Web/Issue.antt =====
-- main/web_service.c: what a request to `control_handler` asks for.
use lin_tac09cpbpsl_esp32c.Common.{
  ℕ, ◌≡◌, refl, sym, subst, Bool, true, false, not, inl, inr, List, Option, none, some,
  if◌then◌else◌, Bool-cases, Option-cases, arith,
}
use lin_tac09cpbpsl_esp32c.Common.Bits.{has-mask}
use lin_tac09cpbpsl_esp32c.Protocol.Types.{Request}
use lin_tac09cpbpsl_esp32c.Protocol.Wire.{control_mode, control_fan}
use lin_tac09cpbpsl_esp32c.Bridge.Types.{Profile, Service}
use lin_tac09cpbpsl_esp32c.Bridge.Queue.{EspErr, mitm_active, queue_control}
use lin_tac09cpbpsl_esp32c.Bridge.Merge.{is_exclusive, IsSound, rejects_of_parts}
use lin_tac09cpbpsl_esp32c.Clients.Issue.{is_taken, Issued, AllSound, AllSound-if, queued-Issued}
use lin_tac09cpbpsl_esp32c.Clients.Json.{Library}
use lin_tac09cpbpsl_esp32c.Clients.Web.{
  Items, read_fields, conflicts, control_fields, Response, response_for, items_of, control_object,
  control_handler,
}
use lin_tac09cpbpsl_esp32c.Clients.Web.Fields.{IsRanged, Ranged, read_fields-Ranged}

sound : (r : Request) → IsRanged r → conflicts r ≡ false → IsSound r
unfolding conflicts is_exclusive
sound r v h = record {
  in_range = rejects_of_parts r v.setpoint v.mode v.fan;
  no_timer = v.timer;
  one_code = ground (arith, has-mask r.mask control_mode control_fan);
}

checked :
    (o : Option Request)
    → Ranged o
    → AllSound (elim o [ none ↦ none | some r ↦ if conflicts r then none else some r ])
checked none v = tt
checked (some r) v = AllSound-if (conflicts r) _ _ (λ e. tt) (λ e. sound r v e)

control_fields-AllSound : (i : Items) → AllSound (control_fields i)
unfolding control_fields
control_fields-AllSound i = checked (read_fields i) (read_fields-Ranged i)

-- `{"ok":true, ...}` was sent.
unfoldable pub is_accepted : Response → Bool
is_accepted (Response.accepted sequence) = true
is_accepted _ = false

accepted_taken : (e : EspErr) (sequence : ℕ) → is_accepted (response_for e sequence) ≡ is_taken e
unfolding is_accepted response_for is_taken
accepted_taken EspErr.ok n = refl
accepted_taken EspErr.invalid_arg n = refl
accepted_taken EspErr.not_supported n = refl
accepted_taken EspErr.invalid_state n = refl

control_object-Issued :
    (p : Profile) (now : ℕ) (i : Items) (s : Service)
    → Issued p now s (is_accepted (control_object p now i s).0) (control_object p now i s).1
unfolding control_object is_accepted
control_object-Issued p now i s = elim (Option-cases i.timer) [
  | inr (item, e) ↦ rw e (inl (refl, refl))
  | inl e ↦ rw e (elim (Option-cases (control_fields i)) [
    | inl f ↦ rw (f, control_object) (inl (refl, refl))
    | inr (r, f) ↦
        let v : IsSound r = subst AllSound f (control_fields-AllSound i) in
        rw (f, control_object)
          (subst (λ b. Issued p now s b (queue_control p now r s).2)
            (sym (accepted_taken ((queue_control p now r s).0) ((queue_control p now r s).1)))
            (queued-Issued p now r s v))
  ])
]

-- A request to `control_handler` is answered with a sequence number exactly where the bridge has
-- taken one sound request for it; with any other answer nothing has changed.
pub control_handler-Issued :
    (j : Library) (p : Profile) (now : ℕ) (authorized : Bool) (body : Option (List ℕ)) (s : Service)
    → Issued p now s
        (is_accepted (control_handler j p now authorized body s).0)
        (control_handler j p now authorized body s).1
unfolding control_handler is_accepted
control_handler-Issued j p now authorized body s = elim (Bool-cases (not authorized)) [
  | inl a ↦ rw a (inl (refl, refl))
  | inr a ↦ rw a (elim (Bool-cases (not (mitm_active p s.hardware_ready))) [
    | inl b ↦ rw b (inl (refl, refl))
    | inr b ↦ rw b (elim (Option-cases body) [
      | inl c ↦ rw c (inl (refl, refl))
      | inr (bytes, c) ↦ rw c (elim (Option-cases (j.parse bytes)) [
        | inl d ↦ rw (d, control_handler) (inl (refl, refl))
        | inr (root, d) ↦
            rw (d, control_handler)
              (elim (Bool-cases (not (j.is_object root))) [
                | inl k ↦ rw k (inl (refl, refl))
                | inr k ↦ rw k (control_object-Issued p now (items_of j root) s)
              ])
      ])
    ])
  ])
]

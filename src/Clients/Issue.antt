-- ===== src/Clients/Issue.antt =====
-- What the callers of `bridge_service_queue_control` share: the requests that they send to it.
use lin_tac09cpbpsl_esp32c.Common.{
  ℕ, ◌≡◌, ◌⊎◌, inl, inr, refl, Option, none, some, Bool, true, false, if◌then◌else◌, Bool-cases,
  arith,
}
use lin_tac09cpbpsl_esp32c.Protocol.Types.{Request}
use lin_tac09cpbpsl_esp32c.Bridge.Types.{Profile, Service}
use lin_tac09cpbpsl_esp32c.Bridge.Queue.{EspErr, queue_control}
use lin_tac09cpbpsl_esp32c.Bridge.Merge.{IsSound}

-- `err == ESP_OK`
unfoldable pub is_taken : EspErr → Bool
is_taken EspErr.ok = true
is_taken _ = false

-- The caller is told whether its command was taken. Where it was not, the service is as before;
-- where it was, the service has taken one request, with its fields in range and one way to name the
-- mode.
abbrev pub Issued : Profile → ℕ → Service → Bool → Service → Type 0
Issued p now s told t =
    ((told ≡ false) × (t ≡ s))
    ⊎ ((told ≡ true)
        × (r : Request) × IsSound r
        × ((queue_control p now r s).0 ≡ EspErr.ok)
        × (t ≡ (queue_control p now r s).2))

untaken :
    (p : Profile) (now : ℕ) (r : Request) (s : Service)
    → is_taken (queue_control p now r s).0 ≡ false
    → (queue_control p now r s).2 ≡ s
unfolding queue_control is_taken
untaken p now r s = ground arith

taken-ok : (e : EspErr) → is_taken e ≡ true → e ≡ EspErr.ok
unfolding is_taken
taken-ok e h = ground arith

pub queued-Issued :
    (p : Profile) (now : ℕ) (r : Request) (s : Service)
    → IsSound r
    → Issued p now s (is_taken (queue_control p now r s).0) (queue_control p now r s).2
queued-Issued p now r s v = elim (Bool-cases (is_taken (queue_control p now r s).0)) [
  | inl e ↦ inr (e, r, v, taken-ok _ e, refl)
  | inr e ↦ inl (e, untaken p now r s e)
]

-- A request that is made, if any, is sound.
abbrev pub AllSound : Option Request → Type 0
AllSound none = Unit {0}
AllSound (some r) = IsSound r

-- A request that is made of a value that was parsed, if one was.
pub AllSound-elim {ℓ} :
    {A : Type ℓ} (o : Option A) (g : A → Option Request)
    → ((a : A) → o ≡ some a → AllSound (g a))
    → AllSound (elim o [ none ↦ none | some a ↦ g a ])
AllSound-elim none g h = tt
AllSound-elim (some a) g h = h a refl

pub AllSound-if :
    (b : Bool) (x y : Option Request)
    → (b ≡ true → AllSound x)
    → (b ≡ false → AllSound y)
    → AllSound (if b then x else y)
AllSound-if true x y h k = h refl
AllSound-if false x y h k = k refl

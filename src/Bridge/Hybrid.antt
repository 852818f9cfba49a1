-- ===== src/Bridge/Hybrid.antt =====
-- main/bridge_service.c: the hybrid path and the frame that a stream holds.
use lin_tac09cpbpsl_esp32c.Common.{
  ℕ, ◌≡◌, refl, ◌∙◌, Bool, true, false, ◌&&◌, List, Option, none, Bool-cases, Option-cases, inl,
  inr, ◌==◌, if◌then◌else◌,
}
use lin_tac09cpbpsl_esp32c.Protocol.Control.{apply_control}
use lin_tac09cpbpsl_esp32c.Bridge.Types.{Profile, Side, Service}
use lin_tac09cpbpsl_esp32c.Bridge.Frames.{is_panel}
use lin_tac09cpbpsl_esp32c.Bridge.Stream.{
  Stream, hybrid_prepare, hybrid_send, hybrid_forward_panel_byte, hybrid_byte,
}

-- The fields that the hybrid path leaves alone.
abbrev pub SameFrame : Stream → Stream → Type 0
SameFrame t st =
    (t.bytes ≡ st.bytes) × (t.expected ≡ st.expected) × (t.synchronized ≡ st.synchronized)

pub SameFrame-if :
    (b : Bool) (t u st : Stream)
    → SameFrame t st
    → SameFrame u st
    → SameFrame (if b then t else u) st
SameFrame-if true t u st h k = h
SameFrame-if false t u st h k = k

pub hybrid_prepare-SameFrame : (s : Service) (st : Stream) → SameFrame (hybrid_prepare s st) st
unfolding hybrid_prepare
hybrid_prepare-SameFrame s st =
    let base = if s.state.panel_valid then s.state.panel_raw else st.overlay_frame in
    let ready = s.state.panel_valid && s.overlay.active && s.overlay.takeover_ready in
    let replaced : Option (List ℕ) =
      if ready then apply_control base s.overlay.request s.overlay.event_pending else none in
    elim (Option-cases replaced) [
      | inl e ↦ rw (e, hybrid_prepare) (refl, refl, refl)
      | inr (frame, e) ↦ rw (e, hybrid_prepare) (refl, refl, refl)
    ]

pub hybrid_send-SameFrame :
    (index received : ℕ) (st : Stream) (s : Service)
    → SameFrame (hybrid_send index received st s).0 st
unfolding hybrid_send
hybrid_send-SameFrame index received st s = elim (Bool-cases st.burst_sent) [
  | inl e ↦ rw e (refl, refl, refl)
  | inr e ↦ elim (Bool-cases (index == 0 && st.overlay_valid)) [
    | inl f ↦ rw (e, f) (refl, refl, refl)
    | inr f ↦ rw (e, f) (refl, refl, refl)
  ]
]

pub hybrid_byte-SameFrame :
    (p : Profile) (side : Side) (index received : ℕ) (st : Stream) (s : Service)
    → SameFrame (hybrid_byte p side index received st s).0 st
unfolding hybrid_byte hybrid_forward_panel_byte
hybrid_byte-SameFrame p side index received st s =
    elim (Bool-cases (p.hybrid_bridge && is_panel side)) [
      | inr e ↦ rw e (refl, refl, refl)
      | inl e ↦
          let prepared : Stream = if index == 0 then hybrid_prepare s st else st in
          let same =
            SameFrame-if (index == 0) _ st st (hybrid_prepare-SameFrame s st) (refl, refl, refl) in
          let sent = hybrid_send-SameFrame index received prepared s in
          elim (Bool-cases (p.panel_hardware_forward && s.route.enabled)) [
            | inl f ↦ rw (e, f) same
            | inr f ↦ rw (e, f) (sent.0 ∙ same.0, sent.1 ∙ same.1, sent.2 ∙ same.2)
          ]
    ]

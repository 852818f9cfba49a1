-- ===== src/Bridge/Steps.antt =====
-- main/bridge_service.c: the byte streams and the invariant of the command.
use lin_tac09cpbpsl_esp32c.Common.{
  ℕ, zero, suc, ◌≡◌, sym, ◌∙◌, subst, Bool, true, false, not, ◌&&◌, ◌||◌, [], ◌∷◌, ◌++◌, length,
  some, Bool-cases, Option-cases, inl, inr, ltb, ◌==◌, if◌then◌else◌, arith,
}
use lin_tac09cpbpsl_esp32c.Bridge.Framing.{loop-start, loop-append, loop-flush}
use lin_tac09cpbpsl_esp32c.Protocol.Wire.{header_0}
use lin_tac09cpbpsl_esp32c.Protocol.Frame.{expected_size, checksum_valid}
use lin_tac09cpbpsl_esp32c.Bridge.Types.{Profile, Side, Kind, Service}
use lin_tac09cpbpsl_esp32c.Bridge.Mirror.{Results}
use lin_tac09cpbpsl_esp32c.Bridge.Frames.{is_panel}
use lin_tac09cpbpsl_esp32c.Bridge.Stream.{
  Stream, hybrid_prepare, hybrid_send, hybrid_forward_panel_byte, hybrid_byte, flush_stream_raw,
  start_frame, check_length, check_complete, append_byte, flush_reason, consume_loop, stream_idle,
}
use lin_tac09cpbpsl_esp32c.Bridge.Handlers.{
  Holds, IsValid-if, IsValid-emit, count_framing_error-IsValid, process_complete_frame-IsValid,
}

-- The service behind a step of a stream.
pub record Kept (r : Stream × Service) : Type 0 where
  pub service : Holds r.1

kept : (st : Stream) {s : Service} → Holds s → Kept (st, s)
kept st v = record { service = v }

Kept-if : (b : Bool) (x y : Stream × Service) → Kept x → Kept y → Kept (if b then x else y)
Kept-if true x y h k = h
Kept-if false x y h k = k

hybrid_send-Holds :
    (index received : ℕ) (st : Stream) {s : Service}
    → Holds s
    → Kept (hybrid_send index received st s)
unfolding hybrid_send
hybrid_send-Holds index received st {s} v =
    Kept-if st.burst_sent (st, s) _ (kept st v)
      (Kept-if (index == 0 && st.overlay_valid) _ _ (kept _ (IsValid-emit _ v))
        (kept st (IsValid-emit _ v)))

hybrid_forward-Holds :
    (p : Profile) (index received : ℕ) (st : Stream) {s : Service}
    → Holds s
    → Kept (hybrid_forward_panel_byte p index received st s)
unfolding hybrid_forward_panel_byte
hybrid_forward-Holds p index received st {s} v =
    let prepared = if index == 0 then hybrid_prepare s st else st in
    Kept-if (p.panel_hardware_forward && s.route.enabled) (prepared, s) _ (kept prepared v)
      (hybrid_send-Holds index received prepared v)

some_eq {ℓ} : {A : Type ℓ} {a b : A} → some a ≡ some b → a ≡ b
some_eq e = cc

module _ (p : Profile) (side : Side) where
  hybrid_byte-Holds :
      (index received : ℕ) (st : Stream) {s : Service}
      → Holds s
      → Kept (hybrid_byte p side index received st s)
  unfolding hybrid_byte
  hybrid_byte-Holds index received st {s} v =
      Kept-if (p.hybrid_bridge && is_panel side) _ (st, s)
        (hybrid_forward-Holds p index received st v) (kept st v)

  flush_stream_raw-Holds :
      (reason : Kind) (st : Stream) {s : Service}
      → Holds s
      → Kept (flush_stream_raw p side reason st s)
  unfolding flush_stream_raw
  flush_stream_raw-Holds reason st {s} v =
      let t = IsValid-if st.synchronized _ s (count_framing_error-IsValid v) v in
      let u = IsValid-if (p.bridge_active && not p.hybrid_bridge) _ _ (IsValid-emit _ t) t in
      Kept-if (length st.bytes == 0) _ _ (kept _ v)
        (kept _ (IsValid-if st.synchronized _ _ (IsValid-emit _ u) u))

  start_frame-Holds :
      (now byte : ℕ) (st : Stream) {s : Service} → Holds s → Kept (start_frame p side now byte st s)
  unfolding start_frame
  start_frame-Holds now byte st {s} v =
      let t =
        IsValid-if ((p.hybrid_bridge || p.bridge_active) && is_panel side) _ s (IsValid-emit _ v)
          v in
      Kept-if (byte == header_0) _ _
        (kept _ (hybrid_byte-Holds 0 byte (record st { bytes = byte ∷ [] }) v).service)
        (kept _ (IsValid-if st.synchronized _ _ (count_framing_error-IsValid t) t))

  check_length-Holds : (st : Stream) {s : Service} → Holds s → Kept (check_length p side st s)
  unfolding check_length
  check_length-Holds st {s} v =
      let st' = record st { expected = expected_size st.bytes 3 } in
      Kept-if (length st.bytes == 3) _ (st, s)
        (Kept-if (expected_size st.bytes 3 == 0) _ (st', s)
          (flush_stream_raw-Holds Kind.bad_length st' v) (kept st' v))
        (kept st v)

  check_complete-Holds :
      (d : Results) (now : ℕ) (st : Stream) {s : Service}
      → Holds s
      → Kept (check_complete p d side now st s)
  unfolding check_complete
  check_complete-Holds d now st {s} v =
      Kept-if (ltb 0 st.expected && length st.bytes == st.expected) _ (st, s)
        (kept _ (
          IsValid-if (st.synchronized || checksum_valid st.bytes (length st.bytes)) _ s
            (process_complete_frame-IsValid p d now side st.bytes v) v))
        (kept st v)

  append_byte-Holds :
      (d : Results) (now byte : ℕ) (st : Stream) {s : Service}
      → Holds s
      → Kept (append_byte p d side now byte st s)
  unfolding append_byte
  append_byte-Holds d now byte st {s} v =
      let grown = record st { bytes = st.bytes ++ (byte ∷ []) } in
      let (st1, s1) = hybrid_byte p side (length st.bytes) byte grown s in
      let v1 = (hybrid_byte-Holds (length st.bytes) byte grown v).service in
      let st1' = record st1 { last_byte_us = now } in
      check_complete-Holds d now (check_length p side st1' s1).0
        (check_length-Holds st1' v1).service

  pub consume_loop-Holds :
      (d : Results) (now byte rounds : ℕ) (st : Stream) {s : Service} {r : Stream × Service}
      → consume_loop p d side now byte rounds st s ≡ some r
      → Holds s
      → Kept r
  unfolding consume_loop
  consume_loop-Holds d now byte zero st e v = cc e
  consume_loop-Holds d now byte (suc rounds) st {s} e v = elim (Bool-cases (length st.bytes == 0)) [
    | inl f ↦
        subst Kept (some_eq (sym (loop-start p d side now byte rounds st s (ground arith)) ∙ e))
          (start_frame-Holds now byte st v)
    | inr f ↦ elim (Option-cases (flush_reason st byte)) [
      | inl g ↦
          subst Kept (some_eq (sym (loop-append p d side now byte rounds st s f g) ∙ e))
            (append_byte-Holds d now byte st v)
      | inr (reason, g) ↦
          consume_loop-Holds d now byte rounds (flush_stream_raw p side reason st s).0
            (sym (loop-flush p d side now byte rounds st s reason f g) ∙ e)
            (flush_stream_raw-Holds reason st v).service
    ]
  ]

  pub stream_idle-Holds :
      (now : ℕ) (st : Stream) {s : Service} → Holds s → Kept (stream_idle p side now st s)
  unfolding stream_idle
  stream_idle-Holds now st {s} v =
      Kept-if _ _ (st, s) (flush_stream_raw-Holds Kind.timeout st v) (kept st v)

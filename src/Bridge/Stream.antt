-- ===== src/Bridge/Stream.antt =====
-- main/bridge_service.c: the framing of the byte streams, `flush_stream_raw`, `consume_byte`, and
-- the hybrid path that passes the panel's bytes on at once.
use lin_tac09cpbpsl_esp32c.Common.{
  ℕ, zero, suc, ◌-◌, Bool, true, false, not, ◌&&◌, ◌||◌, List, [], ◌∷◌, ◌++◌, length, get_or,
  Option, none, some, ltb, leb, ◌==◌, if◌then◌else◌,
}
use lin_tac09cpbpsl_esp32c.Protocol.Wire.{header_0, header_1, panel_frame_size, max_frame_size}
use lin_tac09cpbpsl_esp32c.Protocol.Frame.{checksum_valid, expected_size}
use lin_tac09cpbpsl_esp32c.Protocol.Control.{apply_control}
use lin_tac09cpbpsl_esp32c.Bridge.Types.{Profile, Side, Kind, Effect, Service}
use lin_tac09cpbpsl_esp32c.Bridge.Mirror.{Results}
use lin_tac09cpbpsl_esp32c.Bridge.Update.{emit, count_framing_error}
use lin_tac09cpbpsl_esp32c.Bridge.Frames.{is_panel, process_complete_frame}
use lin_tac09cpbpsl_esp32c.Bridge.Tasks.{stream_timeout_us}

-- `frame_stream_t`. The field `length` is the length of the list of bytes.
pub record Stream : Type 0 where
  pub bytes : List ℕ
  pub expected : ℕ
  pub last_byte_us : ℕ
  pub synchronized : Bool
  pub overlay_frame : List ℕ
  pub overlay_valid : Bool
  pub burst_sent : Bool

-- `hybrid_prepare_panel_frame`
unfoldable pub hybrid_prepare : Service → Stream → Stream
hybrid_prepare s st =
    let base = if s.state.panel_valid then s.state.panel_raw else st.overlay_frame in
    let ready = s.state.panel_valid && s.overlay.active && s.overlay.takeover_ready in
    let replaced =
      if ready then apply_control base s.overlay.request s.overlay.event_pending else none in
    elim replaced [
      | none ↦ record st { overlay_frame = base; overlay_valid = false; burst_sent = false }
      | some frame ↦ record st { overlay_frame = frame; overlay_valid = true; burst_sent = false }
    ]

-- The bytes for the main board, once the CPU owns the line.
unfoldable pub hybrid_send : ℕ → ℕ → Stream → Service → Stream × Service
unfolding emit
hybrid_send index received st s =
    if st.burst_sent
    then (st, s)
    else if index == 0 && st.overlay_valid
    then (
      record st { burst_sent = true; overlay_valid = false },
      emit (Effect.forward Side.main st.overlay_frame) s,
    )
    else let outgoing =
        if st.overlay_valid && ltb index panel_frame_size
        then get_or st.overlay_frame index 0
        else received in
      (st, emit (Effect.forward Side.main (outgoing ∷ [])) s)

-- `hybrid_forward_panel_byte`: while the hardware route is enabled it carries the bytes itself.
unfoldable pub hybrid_forward_panel_byte : Profile → ℕ → ℕ → Stream → Service → Stream × Service
unfolding hybrid_prepare hybrid_send
hybrid_forward_panel_byte p index received st s =
    let prepared = if index == 0 then hybrid_prepare s st else st in
    if p.panel_hardware_forward && s.route.enabled
    then (prepared, s)
    else hybrid_send index received prepared s

-- The hybrid path is taken for bytes of the panel.
unfoldable pub hybrid_byte : Profile → Side → ℕ → ℕ → Stream → Service → Stream × Service
unfolding hybrid_forward_panel_byte
hybrid_byte p side index received st s =
    if p.hybrid_bridge && is_panel side
    then hybrid_forward_panel_byte p index received st s
    else (st, s)

-- `flush_stream_raw`
unfoldable pub flush_stream_raw : Profile → Side → Kind → Stream → Service → Stream × Service
unfolding emit count_framing_error
flush_stream_raw p side reason st s =
    if length st.bytes == 0
    then (st, s)
    else let t = if st.synchronized then count_framing_error s else s in
      let u =
        if p.bridge_active && not p.hybrid_bridge
        then emit (Effect.forward (if is_panel side then Side.main else Side.panel) st.bytes) t
        else t in
      let v = if st.synchronized then emit (Effect.publish side reason st.bytes) u else u in
      (record st { bytes = []; expected = 0 }, v)

-- The first branch of the loop: no byte is held.
unfoldable pub start_frame : Profile → Side → ℕ → ℕ → Stream → Service → Stream × Service
unfolding hybrid_byte emit count_framing_error
start_frame p side now byte st s =
    if byte == header_0
    then (let (st', s') = hybrid_byte p side 0 byte (record st { bytes = byte ∷ [] }) s in
        (record st' { last_byte_us = now }, s'))
    else let t =
        if (p.hybrid_bridge || p.bridge_active) && is_panel side
        then emit (Effect.forward Side.main (byte ∷ [])) s
        else s in
      (record st { last_byte_us = now }, if st.synchronized then count_framing_error t else t)

-- After the third byte, the size that the header announces.
unfoldable pub check_length : Profile → Side → Stream → Service → Stream × Service
unfolding flush_stream_raw
check_length p side st s =
    if length st.bytes == 3
    then (let expected = expected_size st.bytes 3 in
        let st' = record st { expected = expected } in
        if expected == 0 then flush_stream_raw p side Kind.bad_length st' s else (st', s))
    else (st, s)

-- A frame of the expected size is processed, once the stream has been in step.
unfoldable pub check_complete : Profile → Results → Side → ℕ → Stream → Service → Stream × Service
check_complete p d side now st s =
    if ltb 0 st.expected && length st.bytes == st.expected
    then (
      record st {
        synchronized = checksum_valid st.bytes (length st.bytes) || st.synchronized;
        bytes = [];
        expected = 0;
      },
      if st.synchronized || checksum_valid st.bytes (length st.bytes)
          then process_complete_frame p d now side st.bytes s
          else s,
    )
    else (st, s)

-- The last branch of the loop: one more byte of a frame.
unfoldable pub append_byte : Profile → Results → Side → ℕ → ℕ → Stream → Service → Stream × Service
unfolding hybrid_byte check_length check_complete
append_byte p d side now byte st s =
    let (st1, s1) =
      hybrid_byte p side (length st.bytes) byte (record st { bytes = st.bytes ++ (byte ∷ []) }) s in
    let (st2, s2) = check_length p side (record st1 { last_byte_us = now }) s1 in
    check_complete p d side now st2 s2

-- The test that ends a frame before its byte is taken: the reason, if it does.
unfoldable pub flush_reason : Stream → ℕ → Option Kind
flush_reason st byte =
    if length st.bytes == 1 && not (byte == header_1)
    then some Kind.bad_header
    else if leb max_frame_size (length st.bytes)
    then some Kind.overflow
    else none

-- The loop of `consume_byte`; `none` means that the rounds ran out.
unfoldable pub consume_loop :
    Profile → Results → Side → ℕ → ℕ → ℕ → Stream → Service → Option (Stream × Service)
consume_loop p d side now byte zero st s = none
consume_loop p d side now byte (suc rounds) st s =
    if length st.bytes == 0
    then some (start_frame p side now byte st s)
    else elim (flush_reason st byte) [
      | some reason ↦
          (let (st', s') = flush_stream_raw p side reason st s in
            consume_loop p d side now byte rounds st' s')
      | none ↦ some (append_byte p d side now byte st s)
    ]

-- `consume_byte`: two rounds are enough, see `Framing`.
unfoldable pub consume_byte :
    Profile → Results → Side → ℕ → ℕ → Stream → Service → Option (Stream × Service)
unfolding consume_loop
consume_byte p d side now byte st s = consume_loop p d side now byte 2 st s

-- The end of a round of `stream_task` in which no byte came.
unfoldable pub stream_idle : Profile → Side → ℕ → Stream → Service → Stream × Service
unfolding flush_stream_raw
stream_idle p side now st s =
    if ltb 0 (length st.bytes) && ltb stream_timeout_us (now - st.last_byte_us)
    then flush_stream_raw p side Kind.timeout st s
    else (st, s)

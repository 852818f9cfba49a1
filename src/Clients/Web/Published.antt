-- ===== src/Clients/Web/Published.antt =====
-- main/bridge_service.c and main/web_service.c: a frame that the bridge publishes, from the queue of
-- the capture store to the export.
use lin_tac09cpbpsl_esp32c.Common.{
  ℕ, ◌+◌, ◌≤◌, ◌<◌, ◌≡◌, refl, sym, ap, ◌∙◌, some, true, false, ◌||◌, List, [], ◌∷◌, ◌++◌, length,
  ltb, ◌==◌, codes, print_u32, print_i64, hex_loop, hex_loop-whole, arith,
}
use lin_tac09cpbpsl_esp32c.Protocol.Wire.{max_frame_size}
use lin_tac09cpbpsl_esp32c.Bridge.Types.{Side, Kind}
use lin_tac09cpbpsl_esp32c.Bridge.Update.{same_bytes}
use lin_tac09cpbpsl_esp32c.Bridge.Publish.{
  side_name, kind_text, capture_direction, capture_kind, format_hex, telemetry_line, publish_frame,
}
use lin_tac09cpbpsl_esp32c.Capture.Layout.{data_max, type_frame, padded}
use lin_tac09cpbpsl_esp32c.Capture.Store.{
  CaptureRequest, Store, enqueue_record, capture_store_record_frame,
}
use lin_tac09cpbpsl_esp32c.Capture.Write.{record_for}
use lin_tac09cpbpsl_esp32c.Clients.Web.Export.{
  bytes_to_hex, direction_name, kind_name, frame_text, whole_text, whole_prefix, export_line,
}
use lin_tac09cpbpsl_esp32c.Clients.Web.Buffer.{escaped}
use lin_tac09cpbpsl_esp32c.Clients.Web.Whole.{full_line, export_line-full_line}
use lin_tac09cpbpsl_esp32c.Clients.Web.Marked.{take-padded}

-- The kind that the export shows: all that went wrong is an error.
unfoldable pub shown_kind : Kind → List ℕ
shown_kind Kind.initial = codes "initial"
shown_kind Kind.state_change = codes "state_change"
shown_kind Kind.event = codes "event"
shown_kind Kind.wifi_command = codes "wifi_command"
shown_kind _ = codes "error"

direction_name-capture_direction :
    (side : Side) → direction_name (capture_direction (side_name side)) ≡ side_name side
unfolding direction_name capture_direction side_name same_bytes
direction_name-capture_direction Side.panel = refl
direction_name-capture_direction Side.main = refl

kind_name-capture_kind : (kind : Kind) → kind_name (capture_kind (kind_text kind)) ≡ shown_kind kind
unfolding kind_name capture_kind kind_text shown_kind same_bytes
kind_name-capture_kind Kind.initial = refl
kind_name-capture_kind Kind.state_change = refl
kind_name-capture_kind Kind.event = refl
kind_name-capture_kind Kind.wifi_command = refl
kind_name-capture_kind Kind.checksum_error = refl
kind_name-capture_kind Kind.unexpected_length = refl
kind_name-capture_kind Kind.bad_header = refl
kind_name-capture_kind Kind.overflow = refl
kind_name-capture_kind Kind.bad_length = refl
kind_name-capture_kind Kind.timeout = refl

-- What the queue holds for a frame.
abbrev pub queued_frame : ℕ → Side → Kind → List ℕ → CaptureRequest
queued_frame now side kind frame = record {
  timestamp_us = now;
  type = type_frame;
  direction = capture_direction (side_name side);
  kind = capture_kind (kind_text kind);
  length = length frame;
  data_bytes = padded (length frame) frame;
}

same_hex :
    (frame : List ℕ)
    → length frame ≤ max_frame_size
    → bytes_to_hex
        (data_max + data_max + 1)
        (padded (length frame) (padded (length frame) frame))
        (length frame)
      ≡ format_hex (max_frame_size + max_frame_size + 1) frame
unfolding bytes_to_hex format_hex
same_hex frame h =
    ap (λ t. hex_loop (data_max + data_max + 1) 0 t) (take-padded frame)
    ∙ hex_loop-whole (data_max + data_max + 1) 0 frame (omega arith)
    ∙ sym (hex_loop-whole (max_frame_size + max_frame_size + 1) 0 frame (omega arith))

-- The text of the record that is written for a frame: the line of telemetry, with the time of the
-- record and the kind that is shown.
record_for-line :
    (now sequence : ℕ) (side : Side) (kind : Kind) (frame : List ℕ)
    → length frame ≤ max_frame_size
    → whole_text (record_for (queued_frame now side kind frame) sequence)
      ≡ telemetry_line now (side_name side) (shown_kind kind) frame
unfolding whole_text frame_text record_for telemetry_line
record_for-line now sequence side kind frame h =
    let line : List ℕ → List ℕ → List ℕ → List ℕ = λ direction shown hex.
      codes "FRAME,t_us="
      ++ (print_i64 now
          ++ (codes ",direction="
              ++ (direction
                  ++ (codes ",kind="
                      ++ (shown
                          ++ (codes ",len="
                              ++ (print_u32 (length frame) ++ (codes ",hex=" ++ hex)))))))) in
    ap
      (λ t. line t (kind_name (capture_kind (kind_text kind))) (
        bytes_to_hex (data_max + data_max + 1) (padded (length frame) (padded (length frame) frame))
          (length frame)))
      (direction_name-capture_direction side)
    ∙ ap
        (λ t. line (side_name side) t (
          bytes_to_hex (data_max + data_max + 1)
            (padded (length frame) (padded (length frame) frame)) (length frame)))
        (kind_name-capture_kind kind)
    ∙ ap (λ t. line (side_name side) (shown_kind kind) t) (same_hex frame h)

record_for-length :
    (now sequence : ℕ) (side : Side) (kind : Kind) (frame : List ℕ)
    → length frame ≤ max_frame_size
    → (record_for (queued_frame now side kind frame) sequence).length ≤ data_max
unfolding record_for
record_for-length now sequence side kind frame h = omega arith

-- The line of the export holds this text whole.
record_for-export_line :
    (now sequence : ℕ) (side : Side) (kind : Kind) (frame : List ℕ)
    → length frame ≤ max_frame_size
    → let r = record_for (queued_frame now side kind frame) sequence in
      export_line r
      ≡ some (
          (whole_prefix r ++ escaped (telemetry_line now (side_name side) (shown_kind kind) frame))
          ++ codes "\"}\n")
unfolding full_line
record_for-export_line now sequence side kind frame h =
    let r = record_for (queued_frame now side kind frame) sequence in
    export_line-full_line r (record_for-length now sequence side kind frame h)
    ∙ ap (λ t. some ((whole_prefix r ++ escaped t) ++ codes "\"}\n"))
        (record_for-line now sequence side kind frame h)

-- A frame of 1 to 64 bytes that the bridge publishes is put into the queue where this has room, and the
-- record that is written for it is exported as the text that telemetry prints at once, with the
-- time of the record, and with error for each kind of fault: direction, kind, length and every byte.
-- The line that the export sends holds this text whole, with its escapes.
pub publish_frame-exported :
    (now later sequence : ℕ) (side : Side) (kind : Kind) (frame : List ℕ) (s : Store)
    → s.queued ≡ true
    → 0 < length frame
    → length frame ≤ max_frame_size
    → let (t, line) = publish_frame (side_name side) frame (kind_text kind) true now later s in
      (t.pending ≡ s.pending ++ (queued_frame now side kind frame ∷ []))
      × (line ≡ telemetry_line later (side_name side) (kind_text kind) frame)
      × (whole_text (record_for (queued_frame now side kind frame) sequence)
          ≡ telemetry_line now (side_name side) (shown_kind kind) frame)
      × (export_line (record_for (queued_frame now side kind frame) sequence)
          ≡ some (
              (whole_prefix (record_for (queued_frame now side kind frame) sequence)
                ++ escaped (telemetry_line now (side_name side) (shown_kind kind) frame))
              ++ codes "\"}\n"))
unfolding publish_frame capture_store_record_frame enqueue_record
publish_frame-exported now later sequence side kind frame s q h k =
    let fits : (length frame == 0 || ltb data_max (length frame)) ≡ false = ground arith in
    (
      rw (q, fits) refl,
      refl,
      record_for-line now sequence side kind frame k,
      record_for-export_line now sequence side kind frame k,
    )

-- ===== src/Tests/Server.antt =====
-- The export of the log, the list of the telemetry lines, and a marker.
use lin_tac09cpbpsl_esp32c.Common.{
  ℕ, ◌+◌, ◌%◌, ◌^◌, ltb, if◌then◌else◌, ◌≤◌, ◌≡◌, refl, sym, ap, subst, true, List, [], ◌∷◌, ◌++◌,
  map, Option, none, some, get_or, set, replicate, get_or-set, zero, suc, codes, arith,
}
use lin_tac09cpbpsl_esp32c.Telemetry.{Entry, Telemetry, slot, oldest, telemetry_get_after}
use lin_tac09cpbpsl_esp32c.Capture.Layout.{FlashRecord}
use lin_tac09cpbpsl_esp32c.Capture.Store.{max_records, enqueue_record}
use lin_tac09cpbpsl_esp32c.Capture.Write.{
  prepare_next_slot, erase_sector, skip_used, record_for, write_slot,
}
use lin_tac09cpbpsl_esp32c.Capture.Init.{capture_store_init, start_store}
use lin_tac09cpbpsl_esp32c.Capture.Recover.{zeros}
use lin_tac09cpbpsl_esp32c.Clients.Web.Buffer.{escape, escaped}
use lin_tac09cpbpsl_esp32c.Clients.Web.Export.{
  ExportErr, whole_prefix, export_line, first_after, capture_export_handler, whole_text,
}
use lin_tac09cpbpsl_esp32c.Clients.Web.Whole.{full_line}
use lin_tac09cpbpsl_esp32c.Clients.Web.Exported.{
  IsReadable, Exported, steady, capture_export_handler-ends, capture_export_handler-exports,
}
use lin_tac09cpbpsl_esp32c.Clients.Web.Line.{width}
use lin_tac09cpbpsl_esp32c.Clients.Web.Logs.{log_suffix, logs_per_response, logs_handler}
use lin_tac09cpbpsl_esp32c.Clients.Web.Listed.{log_entries, Listed, logs_handler-lists}
use lin_tac09cpbpsl_esp32c.Clients.Web.Marker.{Part, MarkerErr, marker_handler}
use lin_tac09cpbpsl_esp32c.Clients.Json.{Item, Library, item_text}
use lin_tac09cpbpsl_esp32c.Clients.Web.Marked.{Marked, marker_handler-Marked}
use lin_tac09cpbpsl_esp32c.Bridge.Types.{Side, Kind}
use lin_tac09cpbpsl_esp32c.Bridge.Publish.{side_name, kind_text, telemetry_line, publish_frame}
use lin_tac09cpbpsl_esp32c.Clients.Web.Published.{shown_kind, queued_frame, publish_frame-exported}
use lin_tac09cpbpsl_esp32c.Clients.Web.Ota.{OtaResults, ota_handler}
use lin_tac09cpbpsl_esp32c.Clients.Web.Updated.{Updated, ota_handler-Updated}
use lin_tac09cpbpsl_esp32c.Tests.Log.{
  memory, opened, after_write, after_write-locked, after_write-IsLog, after_write-IsMirror,
  tabulate,
}
use lin_tac09cpbpsl_esp32c.Bridge.Update.{same_bytes}
use lin_tac09cpbpsl_esp32c.Tests.Commands.{plain}

after_write-sequences : after_write.1.slot_sequences ≡ set (replicate max_records 0) 0 1
unfolding prepare_next_slot erase_sector skip_used write_slot tabulate capture_store_init
    enqueue_record
after_write-sequences = refl

after_write-IsReadable : IsReadable memory after_write.0 after_write.1
after_write-IsReadable = record {
  is_log = after_write-IsLog;
  is_mirror = after_write-IsMirror;
  numbers = λ i h.
      let e = ap (λ xs. get_or xs i 0) after_write-sequences in
      ground (arith, get_or-set {A = ℕ} (replicate max_records 0) 0 i 1 0, zeros max_records i);
}

-- The store with one record, which is asked for all records.
capture_export_handler-exports_example :
    (rs : List FlashRecord) × Exported memory after_write.0 (first_after 0) after_write.1 rs
    × (capture_export_handler memory true 0 (steady memory after_write.0 after_write.1)
        ≡ some (ExportErr.exported (map full_line rs)))
capture_export_handler-exports_example =
    capture_export_handler-exports memory after_write.0 after_write.1 0 after_write-IsReadable
      after_write-locked

get_some : memory.Contents → Option memory.Contents → memory.Contents
get_some d none = d
get_some d (some c) = c

same_contents :
    (c : memory.Contents) → some after_write.0 ≡ some c → IsReadable memory c after_write.1
unfolding get_some
same_contents c e =
    subst (λ o. IsReadable memory (get_some after_write.0 o) after_write.1) e after_write-IsReadable

capture_export_handler-ends_example :
    (r : ExportErr) × (capture_export_handler memory true 0
        (steady memory after_write.0 after_write.1)
      ≡ some r)
capture_export_handler-ends_example =
    capture_export_handler-ends memory true 0 (steady memory after_write.0 after_write.1)
      (λ k c e. same_contents c e)

-- A ring with two lines.
abbrev no_entry : Entry
no_entry = record { sequence = 0; text = [] }

abbrev two_lines : Telemetry
two_lines = record {
  entries =
      record { sequence = 1; text = codes "CAPTURE,event=boot" }
      ∷ record { sequence = 2; text = codes "WIFI,event=connected" }
      ∷ replicate 94 no_entry;
  locked = true;
  latest_sequence = 2;
}

no_entries : (n j : ℕ) → get_or (replicate n no_entry) j no_entry ≡ no_entry
no_entries zero j = refl
no_entries (suc n) zero = refl
no_entries (suc n) (suc j) = no_entries n j

entry-short : (j : ℕ) → width (get_or two_lines.entries j no_entry).text ≤ 1300
unfolding escaped escape
entry-short zero = omega arith
entry-short (suc zero) = omega arith
entry-short (suc (suc j)) = subst (λ e. width e.text ≤ 1300) (sym (no_entries 94 j)) (omega arith)

read-short :
    (a : ℕ) (e : Entry) → telemetry_get_after true a two_lines ≡ some e → width e.text ≤ 1300
unfolding telemetry_get_after
read-short a e h =
    let next = (a + 1) % 2 ^ 64 in
    ground (arith, entry-short (slot (if ltb next (oldest 2) then oldest 2 else next)))

logs_handler-lists_example :
    (es : List Entry) × Listed logs_per_response (λ k. (true, two_lines)) 0 0 es
    × (logs_handler true 0 (λ k. (true, two_lines)) 2
        ≡ some ((codes "{\"entries\":[" ++ log_entries 0 es) ++ log_suffix 2))
logs_handler-lists_example =
    logs_handler-lists 0 2 (λ k. (true, two_lines)) (λ i a e h. read-short a e h)

-- A library that reads every body as an object whose label is ok, and a store with a queue.
abbrev labelled : Library
labelled = record plain {
  get = λ v key. if same_bytes key (codes "label") then some (Item.text (codes "ok")) else none;
}

start_store-queued : opened.1.queued ≡ true
unfolding capture_store_init enqueue_record tabulate
start_store-queued = refl

-- A marker with the label ok, at the time 20.
marker_handler-Marked_example :
    Marked labelled 2
      (Part.bytes (codes "{}") ∷ [])
      20
      true
      opened.1
      (marker_handler labelled true 2 (Part.bytes (codes "{}") ∷ []) true 20 opened.1)
marker_handler-Marked_example =
    marker_handler-Marked labelled true 2 (Part.bytes (codes "{}") ∷ []) true 20 opened.1

-- It is recorded.
labelled_recorded :
    (marker_handler labelled true 2 (Part.bytes (codes "{}") ∷ []) true 20 opened.1).0
    ≡ MarkerErr.recorded
unfolding marker_handler capture_store_init enqueue_record tabulate same_bytes item_text
labelled_recorded = refl

-- A frame of the panel with two bytes, which begins a capture.
publish_frame-exported_example :
    let (t, line) =
      publish_frame
        (side_name Side.panel)
        (0x7e ∷ 0xff ∷ [])
        (kind_text Kind.initial)
        true
        20
        21
        opened.1 in
    (t.pending
      ≡ opened.1.pending ++ (queued_frame 20 Side.panel Kind.initial (0x7e ∷ 0xff ∷ []) ∷ []))
    × (line ≡ telemetry_line 21 (side_name Side.panel) (kind_text Kind.initial) (0x7e ∷ 0xff ∷ []))
    × (whole_text (record_for (queued_frame 20 Side.panel Kind.initial (0x7e ∷ 0xff ∷ [])) 7)
        ≡ telemetry_line 20 (side_name Side.panel) (shown_kind Kind.initial) (0x7e ∷ 0xff ∷ []))
    × (export_line (record_for (queued_frame 20 Side.panel Kind.initial (0x7e ∷ 0xff ∷ [])) 7)
        ≡ some (
            (whole_prefix
                (record_for (queued_frame 20 Side.panel Kind.initial (0x7e ∷ 0xff ∷ [])) 7)
              ++ escaped (
                  telemetry_line 20
                    (side_name Side.panel)
                    (shown_kind Kind.initial)
                    (0x7e ∷ 0xff ∷ [])))
            ++ codes "\"}\n"))
publish_frame-exported_example =
    publish_frame-exported 20 21 7 Side.panel Kind.initial (0x7e ∷ 0xff ∷ []) opened.1
      start_store-queued (omega arith) (omega arith)

-- An image of three bytes that comes in two parts, with a timeout between them.
abbrev partitions : OtaResults
partitions = record {
  size = some 4096;
  begins = true;
  memory = true;
  writes = λ k. true;
  ends = true;
  boots = true;
}

abbrev parts : List Part
parts = Part.bytes (1 ∷ 2 ∷ []) ∷ Part.timeout ∷ Part.bytes (3 ∷ 4 ∷ []) ∷ []

ota_handler-Updated_example :
    let (err, calls, t) = ota_handler partitions true 3 parts true 20 start_store in
    Updated true true 3 (err, calls)
ota_handler-Updated_example = ota_handler-Updated partitions true 3 parts true 20 start_store

-- ===== src/Clients/Web/Export.antt =====
-- main/web_service.c: `capture_export_handler`, the records of the log as lines of JSON. The HTTP server
-- belongs to ESP-IDF: the query that it hands over, and whether it sends a chunk, are arguments.
use lin_tac09cpbpsl_esp32c.Common.{
  ℕ, zero, suc, ◌+◌, ◌-◌, ◌^◌, Bool, true, false, not, ◌||◌, List, [], ◌∷◌, ◌++◌, Option, none,
  some, length, take, ltb, leb, ◌==◌, if◌then◌else◌, codes, print_u32, print_i64, hex_loop,
  strtoull,
}
use lin_tac09cpbpsl_esp32c.Capture.Layout.{
  data_max, type_frame, type_marker, type_boot, FlashRecord,
}
use lin_tac09cpbpsl_esp32c.Capture.Flash.{Flash}
use lin_tac09cpbpsl_esp32c.Capture.Store.{Store, capture_store_get_after}
use lin_tac09cpbpsl_esp32c.Clients.Mqtt.Payload.{c_string}
use lin_tac09cpbpsl_esp32c.Clients.Web.Buffer.{append_text, append_json_escaped}

-- `bytes_to_hex`
unfoldable pub bytes_to_hex : ℕ → List ℕ → ℕ → List ℕ
unfolding hex_loop
bytes_to_hex output_size bytes length = hex_loop output_size 0 (take length bytes)

-- `capture_direction_name`
unfoldable pub direction_name : ℕ → List ℕ
direction_name direction =
    if direction == 1
    then codes "panel_to_main"
    else if direction == 2
    then codes "main_to_panel"
    else codes "unknown"

-- `capture_kind_name`
unfoldable pub kind_name : ℕ → List ℕ
kind_name kind =
    if kind == 1
    then codes "initial"
    else if kind == 2
    then codes "state_change"
    else if kind == 3
    then codes "event"
    else if kind == 4
    then codes "wifi_command"
    else if kind == 5
    then codes "error"
    else codes "unknown"

-- The text of a frame, before it is cut to the size of its array.
unfoldable pub frame_text : FlashRecord → List ℕ
unfolding print_i64 print_u32 direction_name kind_name bytes_to_hex
frame_text r =
    codes "FRAME,t_us="
    ++ (print_i64 r.timestamp_us
        ++ (codes ",direction="
            ++ (direction_name r.direction
                ++ (codes ",kind="
                    ++ (kind_name r.kind
                        ++ (codes ",len="
                            ++ (print_u32 r.length
                                ++ (codes ",hex="
                                    ++ bytes_to_hex (data_max + data_max + 1) r.data_bytes
                                        r.length))))))))

-- The text of a record of another type, with the two literals around the time.
unfoldable pub detail_text : List ℕ → List ℕ → FlashRecord → List ℕ
unfolding print_i64 c_string
detail_text before between r =
    before ++ (print_i64 r.timestamp_us ++ (between ++ c_string (take r.length r.data_bytes)))

unfoldable pub whole_text : FlashRecord → List ℕ
unfolding frame_text detail_text
whole_text r =
    if r.type == type_frame
    then frame_text r
    else if r.type == type_marker
    then detail_text (codes "MARKER,t_us=") (codes ",label=") r
    else if r.type == type_boot
    then detail_text (codes "CAPTURE,t_us=") (codes ",event=boot,detail=") r
    else detail_text (codes "CAPTURE,t_us=") (codes ",event=system,detail=") r

-- `capture_record_text`, for an array of `capacity` bytes.
unfoldable pub capture_record_text : ℕ → FlashRecord → List ℕ
unfolding whole_text
capture_record_text capacity r = take (capacity - 1) (whole_text r)

-- The sizes of `text`, `line` and `prefix`.
abbrev pub text_size : ℕ
text_size = 320

abbrev pub line_size : ℕ
line_size = 512

abbrev pub prefix_size : ℕ
prefix_size = 96

unfoldable pub whole_prefix : FlashRecord → List ℕ
unfolding print_u32 print_i64
whole_prefix r =
    codes "{\"sequence\":"
    ++ (print_u32 r.sequence
        ++ (codes ",\"device_time_us\":" ++ (print_i64 r.timestamp_us ++ codes ",\"text\":\"")))

-- The line that is made of its two texts, `none` where a part of it does not fit.
unfoldable pub join_line : List ℕ → List ℕ → Option (List ℕ)
unfolding append_text append_json_escaped
join_line prefix text =
    let (a, first) = append_text line_size [] prefix in
    let (b, second) = append_json_escaped line_size first text in
    let (c, third) = append_text line_size second (codes "\"}\n") in
    if not a || not b || not c then none else some third

-- The line of a record.
unfoldable pub export_line : FlashRecord → Option (List ℕ)
unfolding whole_prefix capture_record_text join_line
export_line r =
    join_line (take (prefix_size - 1) (whole_prefix r)) (capture_record_text text_size r)

-- What a turn of the loop meets: whether the mutex of the store is taken in time, the flash and the
-- store at that time, and whether the chunk is sent.
pub record Turn (f : Flash) : Type 0 where
  pub taken : Bool
  pub contents : Option f.Contents
  pub store : Store
  pub sent : Bool

-- The result of the loop: whether it came to its end, and the chunks that were sent. Without fuel
-- there is no result.
unfoldable pub export_loop : (f : Flash) → ℕ → (ℕ → Turn f) → ℕ → ℕ → Option (Bool × List (List ℕ))
unfolding capture_store_get_after export_line
export_loop f zero turns k after = none
export_loop f (suc fuel) turns k after =
    let t = turns k in
    elim (capture_store_get_after f t.taken after t.contents t.store) [
      | none ↦ some (true, [])
      | some r ↦ elim (export_line r) [
        | none ↦ some (false, [])
        | some line ↦ elim t.sent [
          | false ↦ some (false, [])
          | true ↦ elim (export_loop f fuel turns (suc k) r.sequence) [
            | none ↦ none
            | some (ended, chunks) ↦ some (ended, line ∷ chunks)
          ]
        ]
      ]
    ]

-- `query_after`, with the length of the query and the value of its key `after`, if it has one that
-- fits.
unfoldable pub query_after : ℕ → Option (List ℕ) → ℕ
unfolding strtoull
query_after query_length none = 0
query_after query_length (some value) =
    if query_length == 0 || leb 128 query_length then 0 else strtoull value

-- The results of `capture_export_handler`.
pub data ExportErr : Type 0 where
  unauthorized failed : ExportErr
  exported : List (List ℕ) → ExportErr

-- The fuel of the loop: as many turns as there are sequence numbers.
abbrev pub export_fuel : ℕ
export_fuel = 2 ^ 32

-- `requested_after > UINT32_MAX ? UINT32_MAX : (uint32_t)requested_after`
unfoldable pub first_after : ℕ → ℕ
first_after requested_after =
    if ltb (2 ^ 32 - 1) requested_after then 2 ^ 32 - 1 else requested_after

-- The response after the loop: the last chunk is empty.
unfoldable pub export_result : Option (Bool × List (List ℕ)) → Option ExportErr
export_result none = none
export_result (some (ended, chunks)) =
    some (if ended then ExportErr.exported chunks else ExportErr.failed)

-- `capture_export_handler`, with whether the request is authorized.
unfoldable pub capture_export_handler : (f : Flash) → Bool → ℕ → (ℕ → Turn f) → Option ExportErr
unfolding export_loop first_after export_result
capture_export_handler f authorized requested_after turns =
    if not authorized
    then some ExportErr.unauthorized
    else export_result (export_loop f export_fuel turns 0 (first_after requested_after))

-- ===== src/Clients/Web/Logs.antt =====
-- main/web_service.c: `logs_handler`, the lines of the telemetry ring as one JSON text.
use lin_tac09cpbpsl_esp32c.Common.{
  ℕ, zero, suc, ◌-◌, Bool, true, false, not, List, [], ◌++◌, Option, none, some, take, ◌==◌,
  if◌then◌else◌, codes, print_u64,
}
use lin_tac09cpbpsl_esp32c.Telemetry.{Telemetry, telemetry_get_after}
use lin_tac09cpbpsl_esp32c.Clients.Web.Buffer.{append_text, append_json_escaped}

-- JSON_BUFFER_SIZE, LOGS_PER_RESPONSE, and the size of `prefix` and `suffix`
abbrev pub json_buffer_size : ℕ
json_buffer_size = 16384

abbrev pub logs_per_response : ℕ
logs_per_response = 12

abbrev pub short_size : ℕ
short_size = 80

-- The texts around an entry, before they are cut to the size of their array.
unfoldable pub log_prefix : ℕ → ℕ → List ℕ
log_prefix emitted sequence =
    (if emitted == 0 then [] else codes ",")
    ++ (codes "{\"seq\":" ++ (print_u64 sequence ++ codes ",\"text\":\""))

unfoldable pub log_suffix : ℕ → List ℕ
log_suffix latest = codes "],\"latest\":" ++ (print_u64 latest ++ codes "}")

-- The three calls that append an entry; what was appended before the first that fails stays there.
unfoldable pub append_entry : List ℕ → List ℕ → List ℕ → Bool × List ℕ
unfolding append_text append_json_escaped
append_entry prefix text buffer =
    let (a, first) = append_text json_buffer_size buffer prefix in
    let (b, second) = append_json_escaped json_buffer_size first text in
    let (c, third) = append_text json_buffer_size second (codes "\"}") in
    if not a then (false, first) else if not b then (false, second) else (c, third)

-- `break`, or the next turn.
unfoldable pub after_entry : Bool × List ℕ → (List ℕ → List ℕ) → List ℕ
after_entry (false, buffer) next_turn = buffer
after_entry (true, buffer) next_turn = next_turn buffer

-- The loop: `turns` tells for each reading whether the mutex of the ring is taken in time, and the
-- ring at that time.
unfoldable pub logs_loop : ℕ → (ℕ → Bool × Telemetry) → ℕ → ℕ → List ℕ → List ℕ
unfolding telemetry_get_after append_entry log_prefix after_entry
logs_loop zero turns emitted after buffer = buffer
logs_loop (suc left) turns emitted after buffer =
    elim (telemetry_get_after (turns emitted).0 after (turns emitted).1) [
      | none ↦ buffer
      | some e ↦
          after_entry
            (append_entry (take (short_size - 1) (log_prefix emitted e.sequence)) e.text buffer)
            (λ next. logs_loop left turns (suc emitted) e.sequence next)
    ]

-- `logs_handler`, with whether there is memory for the buffer, and the latest number at the end:
-- `none` is the status 500.
unfoldable pub logs_handler : Bool → ℕ → (ℕ → Bool × Telemetry) → ℕ → Option (List ℕ)
unfolding logs_loop log_suffix append_text
logs_handler made after turns latest =
    if not made
    then none
    else some
        (append_text json_buffer_size
          (logs_loop logs_per_response turns 0 after
            (append_text json_buffer_size [] (codes "{\"entries\":[")).1)
          (take (short_size - 1) (log_suffix latest))).1

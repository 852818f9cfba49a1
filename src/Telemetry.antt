-- ===== src/Telemetry.antt =====
-- main/telemetry.c: the ring of the last 96 lines, and its readers. The formatting of a line and the
-- mutex belong to other code: the formatted line, and whether the mutex was taken within its 100 ms,
-- are arguments.
pub mod Ring
use lin_tac09cpbpsl_esp32c.Common.{
  ℕ, zero, suc, ◌+◌, ◌-◌, ◌%◌, ◌^◌, ◌≤◌, ◌<◌, ◌≡◌, refl, sym, ◌∙◌, ap, Bool, true, false, not, ◌&&◌,
  ◌||◌, List, [], ◌∷◌, Option, none, some, length, get_or, set, replicate, ltb, leb, ◌==◌,
  if◌then◌else◌, Bool-cases, inl, inr, arith,
}

-- TELEMETRY_RING_ENTRIES
abbrev pub ring_entries : ℕ
ring_entries = 96

-- `telemetry_entry_t`, the text without its padding.
pub record Entry : Type 0 where
  pub sequence : ℕ
  pub text : List ℕ

-- The static variables; `s_lock` is there once `telemetry_init` has made it.
pub record Telemetry : Type 0 where
  pub entries : List Entry
  pub locked : Bool
  pub latest_sequence : ℕ

-- The variables as the program starts, with the result of `telemetry_init`: whether the mutex
-- could be made.
unfoldable pub telemetry_init : Bool → Telemetry
telemetry_init made = record {
  entries = replicate ring_entries (record { sequence = 0; text = [] });
  locked = made;
  latest_sequence = 0;
}

-- `(sequence - 1U) % TELEMETRY_RING_ENTRIES` on an `uint64_t`
unfoldable pub slot : ℕ → ℕ
slot sequence = ((sequence + (2 ^ 64 - 1)) % 2 ^ 64) % ring_entries

-- `telemetry_publishf`, from the formatted line on.
unfoldable pub telemetry_publish : Bool → List ℕ → Telemetry → Telemetry
unfolding slot
telemetry_publish taken line t =
    if not t.locked || not taken
    then t
    else (let sequence = (t.latest_sequence + 1) % 2 ^ 64 in
        record t {
          entries = set t.entries (slot sequence) (record { sequence = sequence; text = line });
          latest_sequence = sequence;
        })

-- `telemetry_latest_sequence`
unfoldable pub telemetry_latest_sequence : Bool → Telemetry → ℕ
telemetry_latest_sequence taken t = if t.locked && taken then t.latest_sequence else 0

-- The number of the oldest line in the ring, 0 where there is none.
unfoldable pub oldest : ℕ → ℕ
oldest latest =
    if ltb ring_entries latest
    then latest - ring_entries + 1
    else if not (latest == 0)
    then 1
    else 0

-- `telemetry_get_after`: `none` is the return value false.
unfoldable pub telemetry_get_after : Bool → ℕ → Telemetry → Option Entry
unfolding oldest slot
telemetry_get_after taken after t =
    if not t.locked || not taken
    then none
    else (let next = (after + 1) % 2 ^ 64 in
        let wanted =
          if ltb next (oldest t.latest_sequence) then oldest t.latest_sequence else next in
        if not (wanted == 0) && leb wanted t.latest_sequence
        then some (get_or t.entries (slot wanted) (record { sequence = 0; text = [] }))
        else none)

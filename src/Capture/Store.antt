-- ===== src/Capture/Store.antt =====
-- main/capture_store.c: the static variables, the summary of the log, the queue and the reader.
use lin_tac09cpbpsl_esp32c.Common.{
  ℕ, ◌+◌, ◌*◌, ◌%◌, ◌^◌, Bool, false, not, ◌&&◌, ◌||◌, List, [], ◌∷◌, ◌++◌, Option, none, some,
  length, take, ltb, ◌==◌, if◌then◌else◌,
}
use lin_tac09cpbpsl_esp32c.Capture.Layout.{
  data_max, record_size, type_frame, type_marker, type_system, FlashRecord, record_of, record_valid,
  padded,
}
use lin_tac09cpbpsl_esp32c.Capture.Flash.{Flash}

-- CAPTURE_MAX_RECORDS, CAPTURE_USABLE_LIMIT / CAPTURE_RECORD_SIZE
abbrev pub max_records : ℕ
max_records = 896

-- The results of the store's functions, `esp_err_t`.
pub data CaptureErr : Type 0 where
  ok invalid_arg invalid_state invalid_size no_mem timeout : CaptureErr

-- `capture_request_t`
pub record CaptureRequest : Type 0 where
  pub timestamp_us : ℕ
  pub type : ℕ
  pub direction : ℕ
  pub kind : ℕ
  pub length : ℕ
  pub data_bytes : List ℕ

-- `capture_store_info_t`
pub record Info : Type 0 where
  pub available : Bool
  pub capacity_records : ℕ
  pub valid_records : ℕ
  pub oldest_sequence : ℕ
  pub latest_sequence : ℕ
  pub dropped_records : ℕ
  pub write_errors : ℕ

-- The static variables beside the partition: `locked` and `queued` tell whether `s_lock` and
-- `s_queue` are there, and `pending` is what the queue holds, the oldest first.
pub record Store : Type 0 where
  pub usable_size : ℕ
  pub slot_count : ℕ
  pub next_offset : ℕ
  pub next_sequence : ℕ
  pub slot_sequences : List ℕ
  pub info : Info
  pub locked : Bool
  pub queued : Bool
  pub pending : List CaptureRequest

-- `count`, `oldest` and `latest` of `refresh_info_locked`.
pub record Summary : Type 0 where
  pub count : ℕ
  pub oldest : ℕ
  pub latest : ℕ

-- The body of its loop, for a slot that is not empty.
unfoldable pub count_slot : ℕ → Summary → Summary
count_slot sequence t = record {
  count = t.count + 1;
  oldest = if t.oldest == 0 || ltb sequence t.oldest then sequence else t.oldest;
  latest = if ltb t.latest sequence then sequence else t.latest;
}

unfoldable pub summary_loop : List ℕ → Summary → Summary
unfolding count_slot
summary_loop [] t = t
summary_loop (sequence ∷ slots) t =
    summary_loop slots (if sequence == 0 then t else count_slot sequence t)

abbrev pub no_summary : Summary
no_summary = record { count = 0; oldest = 0; latest = 0 }

-- `refresh_info_locked`
unfoldable pub refresh_info : Store → Store
refresh_info s =
    let t = summary_loop (take s.slot_count s.slot_sequences) no_summary in
    record s {
      info = record (s.info) {
        valid_records = t.count;
        oldest_sequence = t.oldest;
        latest_sequence = t.latest;
      };
    }

-- `enqueue_record`, with whether the queue takes the record before the `timeout`. The pointer to
-- the bytes is not null.
unfoldable pub enqueue_record : Bool → ℕ → ℕ → ℕ → ℕ → List ℕ → Store → CaptureErr × Store
unfolding padded
enqueue_record room now type direction kind bytes s =
    if not s.queued
    then (CaptureErr.invalid_state, s)
    else if length bytes == 0 || ltb data_max (length bytes)
    then (CaptureErr.invalid_arg, s)
    else if not room
    then (
      CaptureErr.timeout,
      record s {
        info = record (s.info) { dropped_records = (s.info.dropped_records + 1) % 2 ^ 32 };
      },
    )
    else (
      CaptureErr.ok,
      record s {
        pending =
            s.pending
            ++ (record {
              timestamp_us = now;
              type = type;
              direction = direction;
              kind = kind;
              length = length bytes;
              data_bytes = padded (length bytes) bytes;
            }
                ∷ []);
      },
    )

-- `capture_store_record_frame`
unfoldable pub capture_store_record_frame : Bool → ℕ → ℕ → ℕ → List ℕ → Store → Store
capture_store_record_frame room now direction kind bytes s =
    (enqueue_record room now type_frame direction kind bytes s).1

-- `capture_store_record_marker`
unfoldable pub capture_store_record_marker : Bool → ℕ → List ℕ → Store → CaptureErr × Store
capture_store_record_marker room now label s = enqueue_record room now type_marker 0 0 label s

-- `capture_store_record_system`
unfoldable pub capture_store_record_system : Bool → ℕ → List ℕ → Store → CaptureErr × Store
capture_store_record_system room now event s =
    if length event == 0 || ltb data_max (length event)
    then (CaptureErr.invalid_arg, s)
    else enqueue_record room now type_system 0 0 event s

abbrev pub no_info : Info
no_info = record {
  available = false;
  capacity_records = 0;
  valid_records = 0;
  oldest_sequence = 0;
  latest_sequence = 0;
  dropped_records = 0;
  write_errors = 0;
}

-- `capture_store_get_info`, with whether the mutex was taken in time.
unfoldable pub capture_store_get_info : Bool → Store → Info
capture_store_get_info taken s = if s.locked && taken then s.info else no_info

-- `wanted` and `wanted_slot` of `capture_store_get_after`.
pub record Wanted : Type 0 where
  pub sequence : ℕ
  pub slot : ℕ

-- Its loop, from the slot with the index `slot` on.
unfoldable pub find_loop : ℕ → List ℕ → ℕ → Wanted → Wanted
find_loop after [] slot w = w
find_loop after (sequence ∷ slots) slot w = find_loop after slots (slot + 1) (
    if ltb after sequence && (w.sequence == 0 || ltb sequence w.sequence)
    then record { sequence = sequence; slot = slot }
    else w)

-- The record that the slot holds, if it can be read and is valid. What the function hands out is
-- the record without its first and last field, and the bytes of `data` up to `length`.
unfoldable pub read_slot : (f : Flash) → f.Contents → ℕ → Option FlashRecord
unfolding record_of record_valid
read_slot f c slot = elim (f.read c (slot * record_size)) [
  | none ↦ none
  | some bytes ↦ if record_valid (record_of bytes) then some (record_of bytes) else none
]

-- `capture_store_get_after`: `none` is the return value false.
unfoldable pub capture_store_get_after :
    (f : Flash) → Bool → ℕ → Option f.Contents → Store → Option FlashRecord
unfolding read_slot
capture_store_get_after f taken after none s = none
capture_store_get_after f taken after (some c) s =
    if not s.locked || not taken
    then none
    else (let w =
          find_loop after (take s.slot_count s.slot_sequences) 0
            (record { sequence = 0; slot = 0 }) in
        if w.sequence == 0 then none else read_slot f c w.slot)

-- ===== src/Capture/Init.antt =====
-- main/capture_store.c: `capture_store_init`, which finds the end of the log in the flash.
use lin_tac09cpbpsl_esp32c.Common.{
  ℕ, zero, suc, ◌+◌, ◌-◌, ◌*◌, ◌/◌, ◌%◌, Bool, true, false, not, ◌||◌, List, [], Option, none, some,
  length, take, set, replicate, ltb, ◌==◌, if◌then◌else◌,
}
use lin_tac09cpbpsl_esp32c.Capture.Layout.{data_max, record_size, type_boot}
use lin_tac09cpbpsl_esp32c.Capture.Flash.{Flash, sector_size}
use lin_tac09cpbpsl_esp32c.Capture.Store.{
  max_records, CaptureErr, Store, no_info, refresh_info, enqueue_record, read_slot,
}
use lin_tac09cpbpsl_esp32c.Capture.Write.{wrap_offset}

-- CAPTURE_USABLE_LIMIT
abbrev pub usable_limit : ℕ
usable_limit = 0x1c000

-- The static variables as the program starts.
abbrev pub start_store : Store
start_store = record {
  usable_size = 0;
  slot_count = 0;
  next_offset = 0;
  next_sequence = 1;
  slot_sequences = replicate max_records 0;
  info = no_info;
  locked = false;
  queued = false;
  pending = [];
}

-- `s_slot_sequences`, `latest_sequence` and `latest_offset` in the loop over the slots.
pub record Scan : Type 0 where
  pub sequences : List ℕ
  pub latest_sequence : ℕ
  pub latest_offset : ℕ

-- The body of the loop.
unfoldable pub scan_slot : (f : Flash) → f.Contents → ℕ → Scan → Scan
unfolding read_slot
scan_slot f c slot t = elim (read_slot f c slot) [
  | none ↦ t
  | some r ↦
      let newer = ltb t.latest_sequence r.sequence in
      record {
        sequences = set t.sequences slot r.sequence;
        latest_sequence = if newer then r.sequence else t.latest_sequence;
        latest_offset = if newer then slot * record_size else t.latest_offset;
      }
]

unfoldable pub scan_loop : (f : Flash) → f.Contents → ℕ → ℕ → Scan → Scan
unfolding scan_slot
scan_loop f c zero slot t = t
scan_loop f c (suc rounds) slot t = scan_loop f c rounds (slot + 1) (scan_slot f c slot t)

-- The whole sectors of a partition of `size` bytes that are used.
unfoldable pub usable_of : ℕ → ℕ
usable_of size =
    let limited = if ltb size usable_limit then size else usable_limit in
    limited - limited % sector_size

-- The variables after the scan.
unfoldable pub resume : Scan → Store → Store
unfolding wrap_offset refresh_info
resume t s = refresh_info (record s {
  slot_sequences = t.sequences;
  next_sequence = if t.latest_sequence == 0xffff_ffff then 1 else t.latest_sequence + 1;
  next_offset =
      wrap_offset s.usable_size
        (if t.latest_sequence == 0 then 0 else t.latest_offset + record_size);
  info = record (s.info) { available = true; capacity_records = s.slot_count };
})

-- What the system gives to `capture_store_init`: whether the mutex, the queue and the task could
-- be made, the time, the text of the boot record, and whether the queue takes it.
pub record Setup : Type 0 where
  pub lock_made : Bool
  pub queue_made : Bool
  pub task_made : Bool
  pub room : Bool
  pub now : ℕ
  pub boot_text : List ℕ

-- The boot record, which is cut so that a zero byte would still fit.
unfoldable pub record_boot : Setup → Store → Store
record_boot d s =
    if length d.boot_text == 0
    then s
    else (enqueue_record d.room d.now type_boot 0 0 (take (data_max - 1) d.boot_text) s).1

-- The part of `capture_store_init` after the partition's size is known.
unfoldable pub init_slots : (f : Flash) → Setup → f.Contents → Store → CaptureErr × Store
unfolding scan_loop resume record_boot
init_slots f d c s =
    if s.slot_count == 0 || ltb max_records s.slot_count
    then (CaptureErr.invalid_size, s)
    else (let t = record s { locked = d.lock_made; queued = d.queue_made } in
        if not d.lock_made || not d.queue_made
        then (CaptureErr.no_mem, t)
        else (let scanned =
              scan_loop f c s.slot_count 0
                (record { sequences = s.slot_sequences; latest_sequence = 0; latest_offset = 0 }) in
            let u = resume scanned t in
            if not d.task_made then (CaptureErr.no_mem, u) else (CaptureErr.ok, record_boot d u)))

-- `capture_store_init`, with the size and the contents of the partition, if there is one.
unfoldable pub capture_store_init :
    (f : Flash) → Setup → Option (ℕ × f.Contents) → Store → CaptureErr × Store
unfolding usable_of init_slots
capture_store_init f d none s = (CaptureErr.ok, s)
capture_store_init f d (some (size, c)) s =
    init_slots f d c
      (record s { usable_size = usable_of size; slot_count = usable_of size / record_size })

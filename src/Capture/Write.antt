-- ===== src/Capture/Write.antt =====
-- main/capture_store.c: `write_request` and what it calls.
use lin_tac09cpbpsl_esp32c.Common.{
  ℕ, zero, suc, ◌+◌, ◌*◌, ◌/◌, ◌%◌, ◌^◌, Bool, true, false, not, ◌&&◌, List, Option, none, some,
  set, ltb, leb, ◌==◌, if◌then◌else◌,
}
use lin_tac09cpbpsl_esp32c.Capture.Crc.{crc32_bytes}
use lin_tac09cpbpsl_esp32c.Capture.Layout.{
  magic_word, record_size, FlashRecord, body, bytes_of, record_erased, padded,
}
use lin_tac09cpbpsl_esp32c.Capture.Flash.{Flash, sector_size}
use lin_tac09cpbpsl_esp32c.Capture.Store.{CaptureRequest, Store, refresh_info}

-- The loop of `forget_sector_locked`, with the rounds that are left.
unfoldable pub forget_loop : ℕ → ℕ → ℕ → List ℕ → List ℕ
forget_loop zero slot count sequences = sequences
forget_loop (suc rounds) slot count sequences =
    forget_loop rounds (slot + 1) count (if ltb slot count then set sequences slot 0 else sequences)

-- `forget_sector_locked`; from the first slot past the end on, the rounds do nothing.
unfoldable pub forget_sector : ℕ → Store → Store
unfolding forget_loop
forget_sector sector_offset s = record s {
  slot_sequences =
      forget_loop (sector_size / record_size) (sector_offset / record_size) s.slot_count
        s.slot_sequences;
}

-- `offset`, or the start of the partition where it has reached the end.
unfoldable pub wrap_offset : ℕ → ℕ → ℕ
wrap_offset usable_size offset = if leb usable_size offset then 0 else offset

-- Where the next record goes: past a slot that is neither erased nor at the start of a sector, the
-- next sector.
unfoldable pub skip_used : List ℕ → Store → Store
unfolding wrap_offset
skip_used existing s =
    if not (s.next_offset % sector_size == 0) && not (record_erased existing)
    then record s {
      next_offset = wrap_offset s.usable_size ((s.next_offset / sector_size + 1) * sector_size);
    }
    else s

-- The end of `prepare_next_slot_locked`: the start of a sector is erased. The Boolean tells whether
-- the function returns `ESP_OK`.
unfoldable pub erase_sector : (f : Flash) → f.Contents → Store → Bool × f.Contents × Store
unfolding forget_sector
erase_sector f c s =
    if s.next_offset % sector_size == 0
    then (let (result, erased) = f.erase c s.next_offset in
        if result == 0 then (true, erased, forget_sector s.next_offset s) else (false, erased, s))
    else (true, c, s)

-- `prepare_next_slot_locked`
unfoldable pub prepare_next_slot : (f : Flash) → f.Contents → Store → Bool × f.Contents × Store
prepare_next_slot f c s = elim (f.read c s.next_offset) [
  | none ↦ (false, c, s)
  | some existing ↦ erase_sector f c (skip_used existing s)
]

-- The record that is written, with a CRC.
unfoldable pub record_for : CaptureRequest → ℕ → FlashRecord
unfolding padded
record_for request sequence =
    let r : FlashRecord = record {
      magic = magic_word;
      sequence = sequence;
      timestamp_us = request.timestamp_us;
      type = request.type;
      direction = request.direction;
      kind = request.kind;
      length = request.length;
      data_bytes = padded request.length request.data_bytes;
      crc32 = 0;
    } in
    record r { crc32 = crc32_bytes (body r) }

unfoldable pub count_write_error : Store → Store
count_write_error s = record s {
  info = record (s.info) { write_errors = (s.info.write_errors + 1) % 2 ^ 32 };
}

-- The statements after a successful write.
unfoldable pub note_written : ℕ → Store → Store
unfolding wrap_offset refresh_info
note_written sequence s = refresh_info (record s {
  slot_sequences = set s.slot_sequences (s.next_offset / record_size) sequence;
  next_offset = wrap_offset s.usable_size (s.next_offset + record_size);
})

-- The record is written into the slot that was prepared.
unfoldable pub write_slot : (f : Flash) → CaptureRequest → f.Contents → Store → f.Contents × Store
unfolding note_written count_write_error
write_slot f request c s =
    let sequence = s.next_sequence in
    let t = record s { next_sequence = (sequence + 1) % 2 ^ 32 } in
    let (result, written) = f.write c s.next_offset (bytes_of (record_for request sequence)) in
    (written, if result == 0 then note_written sequence t else count_write_error t)

-- `write_request`; it waits for the mutex without a limit.
unfoldable pub write_request :
    (f : Flash) → CaptureRequest → Option f.Contents → Store → Option f.Contents × Store
write_request f request none s = (none, s)
write_request f request (some c) s =
    if not s.locked
    then (some c, s)
    else (let (prepared, c', s') = prepare_next_slot f c s in
        let (written, t) =
          if prepared then write_slot f request c' s' else (c', count_write_error s') in
        (some written, t))

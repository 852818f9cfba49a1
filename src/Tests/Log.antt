-- ===== src/Tests/Log.antt =====
-- The log of records over a flash that is held in memory.
use lin_tac09cpbpsl_esp32c.Common.{
  ℕ, zero, suc, ◌+◌, ◌*◌, ◌/◌, ◌%◌, ◌^◌, ◌≡◌, ◌≢◌, refl, sym, ◌∙◌, ap, subst, true, false, List, [],
  ◌∷◌, none, some, length, get_or, replicate, ◌==◌, if◌then◌else◌, arith,
}
use lin_tac09cpbpsl_esp32c.Capture.Crc.{crc32_bytes}
use lin_tac09cpbpsl_esp32c.Capture.Detect.{crc32_bytes_detects}
use lin_tac09cpbpsl_esp32c.Capture.Layout.{
  record_size, type_frame, padded, bytes_of, record_of, record_valid,
}
use lin_tac09cpbpsl_esp32c.Capture.Flash.{Flash, IsFlash, sector_size}
use lin_tac09cpbpsl_esp32c.Capture.Store.{
  max_records, CaptureErr, CaptureRequest, Store, enqueue_record, capture_store_get_after,
}
use lin_tac09cpbpsl_esp32c.Capture.Write.{
  skip_used, erase_sector, prepare_next_slot, record_for, write_slot, write_request,
}
use lin_tac09cpbpsl_esp32c.Capture.Init.{Setup, start_store, capture_store_init}
use lin_tac09cpbpsl_esp32c.Capture.RoundTrip.{IsRequest, Tells, read_written}
use lin_tac09cpbpsl_esp32c.Capture.Inv.{IsLog, write_request-IsLog}
use lin_tac09cpbpsl_esp32c.Capture.Mirror.{IsMirror}
use lin_tac09cpbpsl_esp32c.Capture.Keep.{Mirrored, prepare-keeps, write_request-IsMirror}
use lin_tac09cpbpsl_esp32c.Capture.Answer.{Answers, get_after-Answers}
use lin_tac09cpbpsl_esp32c.Capture.Deliver.{
  write_request-eq, write_slot-eq, noted-locked, write_request-delivers,
}
use lin_tac09cpbpsl_esp32c.Capture.Recover.{IsRecovered, zeros, capture_store_init-IsRecovered}

-- The numbers `g 0`, ..., `g (n - 1)`.
unfoldable pub tabulate : ℕ → (ℕ → ℕ) → List ℕ
tabulate zero g = []
tabulate (suc n) g = g 0 ∷ tabulate n (λ i. g (suc i))

length-tabulate : (n : ℕ) (g : ℕ → ℕ) → length (tabulate n g) ≡ n
unfolding tabulate
length-tabulate zero g = refl
length-tabulate (suc n) g = ap suc (length-tabulate n (λ i. g (suc i)))

tabulate_list : (n : ℕ) (xs : List ℕ) → length xs ≡ n → tabulate n (λ i. get_or xs i 0xff) ≡ xs
unfolding tabulate
tabulate_list zero [] h = refl
tabulate_list zero (x ∷ xs) h = absurd (omega arith)
tabulate_list (suc n) [] h = absurd (omega arith)
tabulate_list (suc n) (x ∷ xs) h = ap (λ ys. x ∷ ys) (tabulate_list n xs (omega arith))

-- The bytes of every slot, in a partition on which no call fails.
abbrev pub memory : Flash
memory = record {
  Contents = ℕ → ℕ → ℕ;
  read = λ c offset. some (tabulate record_size (c (offset / record_size)));
  erase = λ c sector. (
    0,
    λ slot.
        if slot * record_size / sector_size == sector / sector_size then (λ i. 0xff) else c slot,
  );
  write = λ c offset bytes.
      (0, λ slot. if slot == offset / record_size then (λ i. get_or bytes i 0xff) else c slot);
}

same_sector : (offset : ℕ) → offset / record_size * record_size / sector_size ≡ offset / sector_size
same_sector offset = omega arith

memory-IsFlash : IsFlash memory
unfolding tabulate
memory-IsFlash = record {
  erase_read = λ c sector offset e h.
      let b : (offset / record_size * record_size / sector_size == sector / sector_size) ≡ true =
        ground (arith, same_sector offset) in
      rw b refl;
  erase_elsewhere = λ c sector offset h.
      let b : (offset / record_size * record_size / sector_size == sector / sector_size) ≡ false =
        ground (arith, same_sector offset) in
      rw b refl;
  write_read = λ c offset bytes h e k.
      let b : (offset / record_size == offset / record_size) ≡ true = ground arith in
      rw b (ap some (tabulate_list record_size bytes h));
  write_elsewhere = λ c offset other bytes h.
      let b : (other / record_size == offset / record_size) ≡ false = ground arith in rw b refl;
  read_size = λ c offset bytes e.
      ap (λ o. elim o [ none ↦ 0 | some xs ↦ length xs ]) (sym e)
      ∙ length-tabulate record_size (c (offset / record_size));
}

-- A partition of one sector that was never written, and the store over it.
abbrev pub blank : memory.Contents
blank = λ slot i. 0xff

abbrev setup : Setup
setup = record {
  lock_made = true;
  queue_made = true;
  task_made = true;
  room = true;
  now = 0;
  boot_text = 118 ∷ 61 ∷ 49 ∷ [];
}

abbrev pub opened : CaptureErr × Store
opened = capture_store_init memory setup (some (4096, blank)) start_store

opened-ok : opened.0 ≡ CaptureErr.ok
unfolding capture_store_init
opened-ok = refl

opened-locked : opened.1.locked ≡ true
unfolding capture_store_init enqueue_record tabulate
opened-locked = refl

opened-sequences : opened.1.slot_sequences ≡ replicate max_records 0
unfolding capture_store_init enqueue_record tabulate
opened-sequences = refl

opened-next : opened.1.next_sequence ≡ 1
unfolding capture_store_init enqueue_record tabulate
opened-next = refl

opened-prepared : (prepare_next_slot memory blank opened.1).0 ≡ true
unfolding capture_store_init prepare_next_slot erase_sector skip_used enqueue_record tabulate
opened-prepared = refl

-- The frame 0x7e 0xff, 20 us after the start.
abbrev pub frame_request : CaptureRequest
frame_request = record {
  timestamp_us = 20;
  type = type_frame;
  direction = 1;
  kind = 2;
  length = 2;
  data_bytes = padded 2 (0x7e ∷ 0xff ∷ []);
}

frame_request-IsRequest : IsRequest frame_request
unfolding padded
frame_request-IsRequest = record {
  timestamp_us = omega arith;
  low = omega arith;
  high = omega arith;
  short = omega arith;
  sized = refl;
}

crc32_bytes_detects_example : crc32_bytes (49 ∷ 50 ∷ 51 ∷ []) ≢ crc32_bytes (49 ∷ 51 ∷ 51 ∷ [])
crc32_bytes_detects_example =
    crc32_bytes_detects (49 ∷ []) (51 ∷ []) 50 51 (omega arith, (omega arith, (omega arith, tt)))
      (omega arith) (omega arith)

read_written_example :
    Tells frame_request 7 (record_of (bytes_of (record_for frame_request 7)))
    × (record_of (bytes_of (record_for frame_request 7)) ≡ record_for frame_request 7)
    × (record_valid (record_of (bytes_of (record_for frame_request 7))) ≡ true)
read_written_example =
    read_written frame_request 7 frame_request-IsRequest (omega arith) (omega arith)

capture_store_init-IsRecovered_example : IsLog opened.1 × IsRecovered memory blank opened.1
capture_store_init-IsRecovered_example =
    capture_store_init-IsRecovered memory setup 4096 blank opened-ok

opened-IsLog : IsLog opened.1
opened-IsLog = (capture_store_init-IsRecovered memory setup 4096 blank opened-ok).0

opened-IsMirror : IsMirror memory blank opened.1
opened-IsMirror = (capture_store_init-IsRecovered memory setup 4096 blank opened-ok).1.mirror

write_request-IsLog_example : IsLog (write_request memory frame_request (some blank) opened.1).1
write_request-IsLog_example =
    write_request-IsLog memory frame_request (some blank) opened.1 opened-IsLog

write_request-IsMirror_example :
    Mirrored memory
      (write_request memory frame_request (some blank) opened.1).0
      (write_request memory frame_request (some blank) opened.1).1
write_request-IsMirror_example =
    write_request-IsMirror memory memory-IsFlash frame_request blank opened.1
      frame_request-IsRequest (omega (arith, opened-next)) opened-IsLog opened-IsMirror
      (λ sector. refl)

-- The flash and the store with one record.
abbrev pub after_write : memory.Contents × Store
after_write =
    let (_, c, s) = prepare_next_slot memory blank opened.1 in write_slot memory frame_request c s

after_write-eq :
    write_request memory frame_request (some blank) opened.1 ≡ (some after_write.0, after_write.1)
after_write-eq = write_request-eq memory frame_request blank opened.1 opened-locked opened-prepared

pub after_write-locked : after_write.1.locked ≡ true
after_write-locked =
    let s = (prepare_next_slot memory blank opened.1).2 in
    ap (λ p. p.1.locked)
      (write_slot-eq memory frame_request (prepare_next_slot memory blank opened.1).1 s refl)
    ∙ noted-locked s.next_sequence ((s.next_sequence + 1) % 2 ^ 32) s
    ∙ (prepare-keeps memory blank opened.1).1
    ∙ opened-locked

pub after_write-IsLog : IsLog after_write.1
after_write-IsLog =
    subst (λ p. IsLog p.1) after_write-eq
      (write_request-IsLog memory frame_request (some blank) opened.1 opened-IsLog)

pub after_write-IsMirror : IsMirror memory after_write.0 after_write.1
after_write-IsMirror =
    subst (λ p. Mirrored memory p.0 p.1) after_write-eq
      (write_request-IsMirror memory memory-IsFlash frame_request blank opened.1
        frame_request-IsRequest (omega (arith, opened-next)) opened-IsLog opened-IsMirror
        (λ sector. refl))

get_after-Answers_example :
    Answers memory after_write.0 0 after_write.1
      (capture_store_get_after memory true 0 (some after_write.0) after_write.1)
get_after-Answers_example =
    get_after-Answers memory 0 after_write.0 after_write.1 after_write-IsLog after_write-IsMirror
      after_write-locked

write_request-delivers_example :
    capture_store_get_after memory true 0
      (write_request memory frame_request (some blank) opened.1).0
      (write_request memory frame_request (some blank) opened.1).1
    ≡ some (record_for frame_request opened.1.next_sequence)
write_request-delivers_example =
    write_request-delivers memory memory-IsFlash frame_request blank opened.1 0
      frame_request-IsRequest opened-IsLog opened-IsMirror opened-locked
      (record {
        below = λ i. omega (arith, ap (λ xs. get_or xs i 0) opened-sequences, zeros max_records i);
      })
      opened-next (omega arith) opened-prepared refl

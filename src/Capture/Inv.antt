-- ===== src/Capture/Inv.antt =====
-- main/capture_store.c: the place of the next record in the partition.
use lin_tac09cpbpsl_esp32c.Common.{
  ℕ, zero, suc, ◌+◌, ◌*◌, ◌/◌, ◌%◌, ◌^◌, ◌≤◌, ◌<◌, ◌≡◌, ◌≢◌, refl, ◌∙◌, not, ◌&&◌, List, Option,
  none, some, length, ltb, ◌==◌, Bool-cases, inl, inr, Option-cases, length-set, arith,
}
use lin_tac09cpbpsl_esp32c.Capture.Layout.{record_size, bytes_of, record_erased}
use lin_tac09cpbpsl_esp32c.Capture.Flash.{Flash, sector_size}
use lin_tac09cpbpsl_esp32c.Capture.Store.{
  max_records, CaptureRequest, Store, refresh_info, enqueue_record, read_slot,
}
use lin_tac09cpbpsl_esp32c.Capture.Write.{
  forget_loop, forget_sector, wrap_offset, skip_used, erase_sector, prepare_next_slot, record_for,
  count_write_error, note_written, write_slot, write_request,
}
use lin_tac09cpbpsl_esp32c.Capture.Init.{
  Scan, scan_slot, scan_loop, usable_of, resume, Setup, record_boot,
}

-- The partition is cut into whole sectors and slots, the array has a place for every slot, and the
-- next record goes to the start of a slot of the partition.
pub record IsLog (s : Store) : Type 0 where
  pub sectors : s.usable_size % sector_size ≡ 0
  pub slots : s.slot_count * record_size ≡ s.usable_size
  pub limit : s.slot_count ≤ max_records
  pub start : s.next_offset % record_size ≡ 0
  pub inside : s.next_offset < s.usable_size
  pub sized : length s.slot_sequences ≡ max_records

wrap_offset-inside : (usable offset : ℕ) → 0 < usable → (wrap_offset usable offset < usable)
unfolding wrap_offset
wrap_offset-inside usable offset h = ground arith

wrap_offset-start :
    (usable offset : ℕ) → offset % record_size ≡ 0 → wrap_offset usable offset % record_size ≡ 0
unfolding wrap_offset
wrap_offset-start usable offset h = ground arith

length-forget :
    (rounds slot count : ℕ) (xs : List ℕ) → length (forget_loop rounds slot count xs) ≡ length xs
unfolding forget_loop
length-forget zero slot count xs = refl
length-forget (suc n) slot count xs =
    length-forget n (slot + 1) count _
    ∙ elim (Bool-cases (ltb slot count)) [ inl p ↦ rw p (length-set xs slot 0) | inr p ↦ rw p refl ]

pub skip_used-IsLog : (existing : List ℕ) (s : Store) → IsLog s → IsLog (skip_used existing s)
unfolding skip_used
skip_used-IsLog existing s v =
    elim (Bool-cases (not (s.next_offset % sector_size == 0) && not (record_erased existing))) [
      | inl p ↦ rw p (record {
        sectors = v.sectors;
        slots = v.slots;
        limit = v.limit;
        start = wrap_offset-start s.usable_size _ (omega arith);
        inside = wrap_offset-inside s.usable_size _ (omega (arith, v.inside));
        sized = v.sized;
      })
      | inr p ↦ rw p v
    ]

erase_sector-IsLog :
    (f : Flash) (c : f.Contents) (s : Store) → IsLog s → IsLog (erase_sector f c s).2
unfolding erase_sector forget_sector
erase_sector-IsLog f c s v = elim (Bool-cases (s.next_offset % sector_size == 0)) [
  | inl p ↦ rw p (elim (Bool-cases ((f.erase c s.next_offset).0 == 0)) [
    | inl q ↦ rw q (record {
      sectors = v.sectors;
      slots = v.slots;
      limit = v.limit;
      start = v.start;
      inside = v.inside;
      sized =
          length-forget (sector_size / record_size) (s.next_offset / record_size) s.slot_count
            s.slot_sequences
          ∙ v.sized;
    })
    | inr q ↦ rw q v
  ])
  | inr p ↦ rw p v
]

pub prepare_next_slot-IsLog :
    (f : Flash) (c : f.Contents) (s : Store) → IsLog s → IsLog (prepare_next_slot f c s).2
unfolding prepare_next_slot
prepare_next_slot-IsLog f c s v = elim (Option-cases (f.read c s.next_offset)) [
  | inl e ↦ rw (e, prepare_next_slot) v
  | inr (existing, e) ↦
      rw (e, prepare_next_slot)
        (erase_sector-IsLog f c (skip_used existing s) (skip_used-IsLog existing s v))
]

count_write_error-IsLog : (s : Store) → IsLog s → IsLog (count_write_error s)
unfolding count_write_error
count_write_error-IsLog s v = record {
  sectors = v.sectors;
  slots = v.slots;
  limit = v.limit;
  start = v.start;
  inside = v.inside;
  sized = v.sized;
}

pub note_written-IsLog :
    (n next : ℕ) (s : Store) → IsLog s → IsLog (note_written n (record s { next_sequence = next }))
unfolding note_written refresh_info
note_written-IsLog n next s v = record {
  sectors = v.sectors;
  slots = v.slots;
  limit = v.limit;
  start = wrap_offset-start s.usable_size _ (omega (arith, v.start));
  inside = wrap_offset-inside s.usable_size _ (omega (arith, v.inside));
  sized = length-set _ _ _ ∙ v.sized;
}

write_slot-IsLog :
    (f : Flash) (q : CaptureRequest) (c : f.Contents) (s : Store)
    → IsLog s
    → IsLog (write_slot f q c s).1
unfolding write_slot
write_slot-IsLog f q c s v =
    elim (Bool-cases ((f.write c s.next_offset (bytes_of (record_for q s.next_sequence))).0 == 0)) [
      | inl p ↦ rw p (note_written-IsLog s.next_sequence _ s v)
      | inr p ↦ rw p (
          count_write_error-IsLog (record s { next_sequence = (s.next_sequence + 1) % 2 ^ 32 })
            (record {
              sectors = v.sectors;
              slots = v.slots;
              limit = v.limit;
              start = v.start;
              inside = v.inside;
              sized = v.sized;
            }))
    ]

-- `write_request` keeps the place of the next record in the partition, whatever the flash answers,
-- so that the writes to `s_slot_sequences` and to the flash stay in bounds.
pub write_request-IsLog :
    (f : Flash) (q : CaptureRequest) (c : Option f.Contents) (s : Store)
    → IsLog s
    → IsLog (write_request f q c s).1
unfolding write_request
write_request-IsLog f q none s v = v
write_request-IsLog f q (some c) s v = elim (Bool-cases (not s.locked)) [
  | inl p ↦ rw p v
  | inr p ↦
      let w = prepare_next_slot-IsLog f c s v in
      rw p (elim (Bool-cases (prepare_next_slot f c s).0) [
        | inl q ↦ rw q (write_slot-IsLog f _ _ _ w)
        | inr q ↦ rw q (count_write_error-IsLog _ w)
      ])
]

-- The slot of the next record is one of the array.
pub slot_inside : (s : Store) → IsLog s → s.next_offset / record_size < s.slot_count
slot_inside s v = omega (arith, v.slots, v.inside)

-- What the scan keeps.
pub record IsScan (t : Scan) : Type 0 where
  pub sized : length t.sequences ≡ max_records
  pub start : t.latest_offset % record_size ≡ 0

scan_slot-IsScan :
    (f : Flash) (c : f.Contents) (slot : ℕ) (t : Scan) → IsScan t → IsScan (scan_slot f c slot t)
unfolding scan_slot
scan_slot-IsScan f c slot t v = elim (Option-cases (read_slot f c slot)) [
  | inl e ↦ rw (e, scan_slot) v
  | inr (r, e) ↦
      rw (e, scan_slot)
        (record { sized = length-set _ _ _ ∙ v.sized; start = ground (arith, v.start) })
]

pub scan_loop-IsScan :
    (f : Flash) (c : f.Contents) (rounds slot : ℕ) (t : Scan)
    → IsScan t
    → IsScan (scan_loop f c rounds slot t)
unfolding scan_loop
scan_loop-IsScan f c zero slot t v = v
scan_loop-IsScan f c (suc n) slot t v =
    scan_loop-IsScan f c n (slot + 1) _ (scan_slot-IsScan f c slot t v)

pub usable_of-whole :
    (size : ℕ)
    → (usable_of size % sector_size ≡ 0)
      × (usable_of size / record_size * record_size ≡ usable_of size)
      × (usable_of size / record_size ≤ max_records)
unfolding usable_of
usable_of-whole size = ground arith

pub resume-IsLog :
    (t : Scan) (s : Store)
    → IsScan t
    → s.usable_size % sector_size ≡ 0
    → s.slot_count * record_size ≡ s.usable_size
    → s.slot_count ≤ max_records
    → s.slot_count ≢ 0
    → IsLog (resume t s)
unfolding resume refresh_info
resume-IsLog t s v a b d e = record {
  sectors = a;
  slots = b;
  limit = d;
  start = wrap_offset-start s.usable_size _ (ground (arith, v.start));
  inside = wrap_offset-inside s.usable_size _ (ground arith);
  sized = v.sized;
}

pub record_boot-IsLog : (d : Setup) (s : Store) → IsLog s → IsLog (record_boot d s)
unfolding record_boot enqueue_record
record_boot-IsLog d s v = record {
  sectors = ground (arith, v.sectors);
  slots = ground (arith, v.slots);
  limit = ground (arith, v.limit);
  start = ground (arith, v.start);
  inside = ground (arith, v.inside);
  sized = ground (arith, v.sized);
}

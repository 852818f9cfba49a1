-- ===== src/Capture/Start.antt =====
-- main/capture_store.c: the store after `capture_store_init`.
use lin_tac09cpbpsl_esp32c.Common.{
  ℕ, ◌*◌, ◌%◌, ◌≤◌, ◌≡◌, ◌≢◌, refl, sym, subst, not, ◌||◌, some, length, ltb, ◌==◌, Bool-cases, inl,
  inr, arith,
}
use lin_tac09cpbpsl_esp32c.Capture.Layout.{record_size}
use lin_tac09cpbpsl_esp32c.Capture.Flash.{Flash, sector_size}
use lin_tac09cpbpsl_esp32c.Capture.Store.{max_records, CaptureErr, Store}
use lin_tac09cpbpsl_esp32c.Capture.Init.{
  scan_loop, resume, Setup, record_boot, init_slots, capture_store_init,
}
use lin_tac09cpbpsl_esp32c.Capture.Inv.{
  IsLog, scan_loop-IsScan, usable_of-whole, resume-IsLog, record_boot-IsLog,
}

-- The variables after the scan of all slots.
abbrev pub scanned : (f : Flash) → Setup → f.Contents → Store → Store
scanned f d c s =
    resume
      (scan_loop f c s.slot_count 0
        (record { sequences = s.slot_sequences; latest_sequence = 0; latest_offset = 0 }))
      (record s { locked = d.lock_made; queued = d.queue_made })

-- The way through `init_slots` that ends with `ESP_OK`.
pub init_slots-ok :
    (f : Flash) (d : Setup) (c : f.Contents) (s : Store)
    → (init_slots f d c s).0 ≡ CaptureErr.ok
    → (s.slot_count ≢ 0) × ((init_slots f d c s).1 ≡ record_boot d (scanned f d c s))
unfolding init_slots
init_slots-ok f d c s = elim (Bool-cases (s.slot_count == 0 || ltb max_records s.slot_count)) [
  | inl p ↦ rw p (λ e. ground arith)
  | inr p ↦ rw p (elim (Bool-cases (not d.lock_made || not d.queue_made)) [
    | inl q ↦ rw q (λ e. ground arith)
    | inr q ↦ rw q (elim (Bool-cases (not d.task_made)) [
      | inl r ↦ rw r (λ e. ground arith)
      | inr r ↦ rw r (λ e. (ground arith, refl))
    ])
  ])
]

init_slots-IsLog :
    (f : Flash) (d : Setup) (c : f.Contents) (s : Store)
    → length s.slot_sequences ≡ max_records
    → s.usable_size % sector_size ≡ 0
    → s.slot_count * record_size ≡ s.usable_size
    → s.slot_count ≤ max_records
    → (init_slots f d c s).0 ≡ CaptureErr.ok
    → IsLog (init_slots f d c s).1
init_slots-IsLog f d c s z a b l e =
    let (n, same) = init_slots-ok f d c s e in
    subst IsLog (sym same) (
      record_boot-IsLog d _ (
        resume-IsLog _ _
          (scan_loop-IsScan f c s.slot_count 0 _ (record { sized = z; start = omega arith })) a b l
          n))

-- Where `capture_store_init` finds a partition and returns `ESP_OK`, the place of the next record
-- is in the partition, at the start of a slot of the array.
pub capture_store_init-IsLog :
    (f : Flash) (d : Setup) (size : ℕ) (c : f.Contents) (s : Store)
    → length s.slot_sequences ≡ max_records
    → (capture_store_init f d (some (size, c)) s).0 ≡ CaptureErr.ok
    → IsLog (capture_store_init f d (some (size, c)) s).1
unfolding capture_store_init
capture_store_init-IsLog f d size c s z =
    let (a, b, l) = usable_of-whole size in init_slots-IsLog f d c _ z a b l

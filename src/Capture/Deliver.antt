-- ===== src/Capture/Deliver.antt =====
-- main/capture_store.c: what a reader gets after `write_request`.
use lin_tac09cpbpsl_esp32c.Common.{
  ℕ, zero, suc, ◌+◌, ◌/◌, ◌%◌, ◌^◌, ◌≤◌, ◌<◌, ◌≡◌, ◌≢◌, refl, ◌∙◌, ap, true, false, not, ◌&&◌, List,
  some, get_or, set, ltb, ◌==◌, if◌then◌else◌, Bool-cases, inl, inr, Option-cases, get_or-set,
  arith,
}
use lin_tac09cpbpsl_esp32c.Capture.Layout.{record_size, record_erased}
use lin_tac09cpbpsl_esp32c.Capture.Flash.{Flash, IsFlash, sector_size, erased_bytes}
use lin_tac09cpbpsl_esp32c.Capture.Store.{
  CaptureRequest, Store, refresh_info, read_slot, capture_store_get_after,
}
use lin_tac09cpbpsl_esp32c.Capture.Write.{
  forget_loop, forget_sector, skip_used, erase_sector, prepare_next_slot, record_for, note_written,
  write_slot, write_request,
}
use lin_tac09cpbpsl_esp32c.Capture.RoundTrip.{IsRequest}
use lin_tac09cpbpsl_esp32c.Capture.Inv.{
  IsLog, slot_inside, prepare_next_slot-IsLog, note_written-IsLog,
}
use lin_tac09cpbpsl_esp32c.Capture.Mirror.{IsMirror}
use lin_tac09cpbpsl_esp32c.Capture.Prepare.{prepare_next_slot-IsReady}
use lin_tac09cpbpsl_esp32c.Capture.Keep.{written, slot_of, written_slot, prepare-keeps}
use lin_tac09cpbpsl_esp32c.Capture.Answer.{next_of, next_of-IsFound, get_after-eq}

-- All numbers in the array are below `bound`.
pub record IsBelow (bound : ℕ) (slots : List ℕ) : Type 0 where
  pub below : (i : ℕ) → get_or slots i 0 < bound

forget-le :
    (n slot count i : ℕ) (xs : List ℕ) → get_or (forget_loop n slot count xs) i 0 ≤ get_or xs i 0
unfolding forget_loop
forget-le zero slot count i xs = omega arith
forget-le (suc n) slot count i xs = ground (
  arith,
  forget-le n (slot + 1) count i (if ltb slot count then set xs slot 0 else xs),
  get_or-set xs slot i 0 0,
)

erase-le :
    (f : Flash) (c : f.Contents) (s : Store) (i : ℕ)
    → get_or (erase_sector f c s).2.slot_sequences i 0 ≤ get_or s.slot_sequences i 0
unfolding erase_sector forget_sector
erase-le f c s i = elim (Bool-cases (s.next_offset % sector_size == 0)) [
  | inl p ↦ rw p (elim (Bool-cases ((f.erase c s.next_offset).0 == 0)) [
    | inl q ↦ rw q (
        forget-le (sector_size / record_size) (s.next_offset / record_size) s.slot_count i
          s.slot_sequences)
    | inr q ↦ rw q (omega arith)
  ])
  | inr p ↦ rw p (omega arith)
]

skip-sequences :
    (existing : List ℕ) (s : Store) → (skip_used existing s).slot_sequences ≡ s.slot_sequences
unfolding skip_used
skip-sequences existing s =
    elim (Bool-cases (not (s.next_offset % sector_size == 0) && not (record_erased existing))) [
      | inl p ↦ rw p refl
      | inr p ↦ rw p refl
    ]

prepare-le :
    (f : Flash) (c : f.Contents) (s : Store) (i : ℕ)
    → get_or (prepare_next_slot f c s).2.slot_sequences i 0 ≤ get_or s.slot_sequences i 0
unfolding prepare_next_slot
prepare-le f c s i = elim (Option-cases (f.read c s.next_offset)) [
  | inl e ↦ rw (e, prepare_next_slot) (omega arith)
  | inr (existing, e) ↦
      rw (e, prepare_next_slot)
        (omega (
          arith,
          erase-le f c (skip_used existing s) i,
          ap (λ xs. get_or xs i 0) (skip-sequences existing s),
        ))
]

-- The search after a record was noted finds it, where its number is above all others.
module _ (s : Store) (v : IsLog s) (n : ℕ) (b : IsBelow n s.slot_sequences) (next : ℕ) where
  noted : Store
  noted = note_written n (record s { next_sequence = next })

  noted_slot :
      (after : ℕ)
      → n ≡ after + 1
      → IsLog noted
      → ((next_of after noted).sequence ≢ 0)
        × ((next_of after noted).slot ≡ s.next_offset / record_size)
  unfolding noted note_written refresh_info
  noted_slot after e w =
      let j = s.next_offset / record_size in
      let inside = slot_inside s v in
      let found = next_of-IsFound after noted w in
      let here : get_or (set s.slot_sequences j n) j 0 ≡ n =
        ground (arith, get_or-set s.slot_sequences j j n 0, v.sized, v.limit) in
      let (some_found, small) = found.least j inside (omega arith) in
      let k = (next_of after noted).slot in
      let there = get_or-set s.slot_sequences j k n 0 in
      let held = found.holds some_found in
      let above = found.above some_found in
      (
        some_found,
        elim (Bool-cases (j == k)) [
          | inl p ↦ ground arith
          | inr p ↦ absurd (ground (arith, b.below k))
        ],
      )

-- The contents and the variables after a request that was prepared and written.
pub write_request-eq :
    (f : Flash) (q : CaptureRequest) (c : f.Contents) (s : Store)
    → s.locked ≡ true
    → (prepare_next_slot f c s).0 ≡ true
    → write_request f q (some c) s ≡ (
      some (write_slot f q (prepare_next_slot f c s).1 (prepare_next_slot f c s).2).0,
      (write_slot f q (prepare_next_slot f c s).1 (prepare_next_slot f c s).2).1,
    )
unfolding write_request
write_request-eq f q c s l p = let b : not s.locked ≡ false = ground (arith, l) in rw (b, p) refl

pub write_slot-eq :
    (f : Flash) (q : CaptureRequest) (c : f.Contents) (s : Store)
    → (written f q s.next_sequence c s.next_offset).0 ≡ 0
    → write_slot f q c s ≡ (
      (written f q s.next_sequence c s.next_offset).1,
      note_written s.next_sequence (record s { next_sequence = (s.next_sequence + 1) % 2 ^ 32 }),
    )
unfolding write_slot
write_slot-eq f q c s ok = rw ok refl

pub noted-locked :
    (n next : ℕ) (s : Store)
    → (note_written n (record s { next_sequence = next })).locked ≡ s.locked
unfolding note_written refresh_info
noted-locked n next s = refl

-- A record that was written is what a reader gets who has all records before it.
slot_delivered :
    (f : Flash)
    → IsFlash f
    → (q : CaptureRequest) (c : f.Contents) (s : Store) (after : ℕ) → IsRequest q
    → IsLog s
    → s.locked ≡ true
    → IsBelow (after + 1) s.slot_sequences
    → s.next_sequence ≡ after + 1
    → after + 1 < 2 ^ 32
    → f.read c s.next_offset ≡ some erased_bytes
    → (written f q s.next_sequence c s.next_offset).0 ≡ 0
    → capture_store_get_after f true after (some (write_slot f q c s).0) (write_slot f q c s).1
      ≡ some (record_for q s.next_sequence)
unfolding noted note_written
slot_delivered f laws q c s after a v l b e k r ok =
    let next : ℕ = (s.next_sequence + 1) % 2 ^ 32 in
    let u : Store = note_written s.next_sequence (record s { next_sequence = next }) in
    let (found, at) =
      noted_slot s v s.next_sequence (record { below = λ i. omega (arith, b.below i) }) next after e
        (note_written-IsLog s.next_sequence next s v) in
    rw (write_slot-eq f q c s ok) (
      get_after-eq f after _ _ (noted-locked s.next_sequence next s ∙ l) found
      ∙ ap (λ i. read_slot f (written f q s.next_sequence c s.next_offset).1 i) at
      ∙ written_slot f laws q s.next_sequence c s.next_offset (s.next_offset / record_size) a
          (omega arith) (omega arith) (slot_of s v) r ok)

-- A request that could be written is the record that a reader gets next who has all records before
-- it: no earlier record of the array has a number as high, and the numbers have not run out.
pub write_request-delivers :
    (f : Flash)
    → IsFlash f
    → (q : CaptureRequest) (c : f.Contents) (s : Store) (after : ℕ) → IsRequest q
    → IsLog s
    → IsMirror f c s
    → s.locked ≡ true
    → IsBelow (after + 1) s.slot_sequences
    → s.next_sequence ≡ after + 1
    → after + 1 < 2 ^ 32
    → (prepare_next_slot f c s).0 ≡ true
    → (written f q s.next_sequence
        (prepare_next_slot f c s).1
        (prepare_next_slot f c s).2.next_offset).0
      ≡ 0
    → capture_store_get_after f true after
        (write_request f q (some c) s).0
        (write_request f q (some c) s).1
      ≡ some (record_for q s.next_sequence)
write_request-delivers f laws q c s after a v m l b e k p ok =
    let (number, locked) = prepare-keeps f c s in
    let ready = prepare_next_slot-IsReady f laws c s v m p in
    rw (write_request-eq f q c s l p) (
      slot_delivered f laws q _ _ after a (prepare_next_slot-IsLog f c s v) (locked ∙ l)
        (record { below = λ i. omega (arith, prepare-le f c s i, b.below i) }) (number ∙ e) k
        ready.erased
        (ap
            (λ n.
              (written f q n (prepare_next_slot f c s).1 (prepare_next_slot f c s).2.next_offset).0)
            number
          ∙ ok)
      ∙ ap (λ n. some (record_for q n)) number)

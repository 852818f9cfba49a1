-- ===== src/Capture/Keep.antt =====
-- main/capture_store.c: `write_request`, and the array against the flash.
use lin_tac09cpbpsl_esp32c.Common.{
  ℕ, ◌+◌, ◌*◌, ◌/◌, ◌%◌, ◌^◌, ◌<◌, ◌≡◌, ◌≢◌, refl, sym, ◌∙◌, ap, not, List, Option, none, some,
  get_or, set, ◌==◌, Bool-cases, inl, inr, Option-cases, get_or-set, arith,
}
use lin_tac09cpbpsl_esp32c.Capture.Layout.{record_size, bytes_of}
use lin_tac09cpbpsl_esp32c.Capture.Flash.{Flash, IsFlash, sector_size, erased_bytes}
use lin_tac09cpbpsl_esp32c.Capture.Store.{CaptureRequest, Store, refresh_info, read_slot}
use lin_tac09cpbpsl_esp32c.Capture.Write.{
  forget_sector, skip_used, erase_sector, prepare_next_slot, record_for, count_write_error,
  note_written, write_slot, write_request,
}
use lin_tac09cpbpsl_esp32c.Capture.RoundTrip.{IsRequest, read_written, length-bytes_of}
use lin_tac09cpbpsl_esp32c.Capture.Inv.{IsLog, slot_inside, prepare_next_slot-IsLog}
use lin_tac09cpbpsl_esp32c.Capture.Mirror.{IsMirror, IsReady, erased-none}
use lin_tac09cpbpsl_esp32c.Capture.Prepare.{
  read_slot-same, prepare_next_slot-IsReady, prepare_next_slot-IsMirror,
}

-- The contents after the write of the record with the number `sequence`.
abbrev pub written : (f : Flash) → CaptureRequest → ℕ → f.Contents → ℕ → ℕ × f.Contents
written f q sequence c offset = f.write c offset (bytes_of (record_for q sequence))

pub slot_of : (s : Store) → IsLog s → s.next_offset / record_size * record_size ≡ s.next_offset
slot_of s v = omega (arith, v.start)

elsewhere :
    (f : Flash)
    → IsFlash f
    → (q : CaptureRequest) (sequence : ℕ) (c : f.Contents) (offset i : ℕ) → i ≢ offset / record_size
    → read_slot f (written f q sequence c offset).1 i ≡ read_slot f c i
elsewhere f laws q sequence c offset i h =
    read_slot-same f c _ i (laws.write_elsewhere c offset (i * record_size) _ (ground arith))

-- The slot that was written holds the record.
pub written_slot :
    (f : Flash)
    → IsFlash f
    → (q : CaptureRequest) (sequence : ℕ) (c : f.Contents) (offset i : ℕ) → IsRequest q
    → sequence ≢ 0
    → sequence < 2 ^ 32
    → i * record_size ≡ offset
    → f.read c offset ≡ some erased_bytes
    → (written f q sequence c offset).0 ≡ 0
    → read_slot f (written f q sequence c offset).1 i ≡ some (record_for q sequence)
unfolding read_slot
written_slot f laws q sequence c offset i v n b e r ok =
    let (told, back, valid) = read_written q sequence v n b in
    let got =
      laws.write_read c offset (bytes_of (record_for q sequence)) (length-bytes_of q sequence v) r
        ok in
    rw (e, got, read_slot, valid) (ap some back)

-- The slot of the next record holds none, so that its number is 0.
free_slot :
    (f : Flash) (c : f.Contents) (s : Store)
    → IsLog s
    → IsReady f c s
    → get_or s.slot_sequences (s.next_offset / record_size) 0 ≢ 0
    → ⊥
free_slot f c s v w n =
    let (r, e, q) = w.mirror.slots (s.next_offset / record_size) (slot_inside s v) n in
    absurd (
      ground (
        arith,
        erased-none f c (s.next_offset / record_size) (ap (f.read c) (slot_of s v) ∙ w.erased),
        e,
      ))

failed_write :
    (f : Flash)
    → IsFlash f
    → (q : CaptureRequest) (sequence : ℕ) (c : f.Contents) (s : Store) → IsLog s
    → IsReady f c s
    → IsMirror f (written f q sequence c s.next_offset).1 s
failed_write f laws q sequence c s v w = record {
  slots = λ i h n. elim (Bool-cases (i == s.next_offset / record_size)) [
    | inl p ↦
        let e : i ≡ s.next_offset / record_size = ground arith in
        absurd (free_slot f c s v w (λ z. n (ap (λ j. get_or s.slot_sequences j 0) e ∙ z)))
    | inr p ↦
        let (r, b, k) = w.mirror.slots i h n in
        (r, elsewhere f laws q sequence c s.next_offset i (ground arith) ∙ b, k)
  ];
}

record_for-sequence :
    (q : CaptureRequest) (sequence : ℕ) → (record_for q sequence).sequence ≡ sequence
unfolding record_for
record_for-sequence q sequence = refl

good_write :
    (f : Flash)
    → IsFlash f
    → (q : CaptureRequest) (c : f.Contents) (s : Store) → IsRequest q
    → s.next_sequence < 2 ^ 32
    → IsLog s
    → IsReady f c s
    → (written f q s.next_sequence c s.next_offset).0 ≡ 0
    → IsMirror f
        (written f q s.next_sequence c s.next_offset).1
        (note_written s.next_sequence (record s { next_sequence = (s.next_sequence + 1) % 2 ^ 32 }))
unfolding note_written refresh_info
good_write f laws q c s a b v w ok = record {
  slots = λ i h n. elim (Bool-cases (i == s.next_offset / record_size)) [
    | inl p ↦
        let e : i ≡ s.next_offset / record_size = ground arith in
        let got : get_or (set s.slot_sequences (s.next_offset / record_size) s.next_sequence) i 0
            ≡ s.next_sequence =
          ground (
            arith,
            get_or-set s.slot_sequences (s.next_offset / record_size) i s.next_sequence 0,
            v.sized,
            slot_inside s v,
            v.limit,
          ) in
        (
          record_for q s.next_sequence,
          written_slot f laws q s.next_sequence c s.next_offset i a (λ z. n (got ∙ z)) b
              (ap (λ j. j * record_size) e ∙ slot_of s v) w.erased ok,
          record_for-sequence q s.next_sequence ∙ sym got,
        )
    | inr p ↦
        let got : get_or (set s.slot_sequences (s.next_offset / record_size) s.next_sequence) i 0
            ≡ get_or s.slot_sequences i 0 =
          ground (
            arith,
            get_or-set s.slot_sequences (s.next_offset / record_size) i s.next_sequence 0,
          ) in
        let (r, x, k) = w.mirror.slots i h (λ z. n (got ∙ z)) in
        (r, elsewhere f laws q s.next_sequence c s.next_offset i (ground arith) ∙ x, k ∙ sym got)
  ];
}

write_slot-IsMirror :
    (f : Flash)
    → IsFlash f
    → (q : CaptureRequest) (c : f.Contents) (s : Store) → IsRequest q
    → s.next_sequence < 2 ^ 32
    → IsLog s
    → IsReady f c s
    → IsMirror f (write_slot f q c s).0 (write_slot f q c s).1
unfolding write_slot count_write_error
write_slot-IsMirror f laws q c s a b v w =
    elim (Bool-cases ((written f q s.next_sequence c s.next_offset).0 == 0)) [
      | inl p ↦ rw p (good_write f laws q c s a b v w (ground arith))
      | inr p ↦ rw p (record { slots = (failed_write f laws q s.next_sequence c s v w).slots })
    ]

erase-keeps :
    (f : Flash) (c : f.Contents) (s : Store)
    → ((erase_sector f c s).2.next_sequence ≡ s.next_sequence)
      × ((erase_sector f c s).2.locked ≡ s.locked)
unfolding erase_sector forget_sector
erase-keeps f c s = elim (Bool-cases (s.next_offset % sector_size == 0)) [
  | inl p ↦ rw p (elim (Bool-cases ((f.erase c s.next_offset).0 == 0)) [
    | inl q ↦ rw q (refl, refl)
    | inr q ↦ rw q (refl, refl)
  ])
  | inr p ↦ rw p (refl, refl)
]

skip-keeps :
    (existing : List ℕ) (s : Store)
    → ((skip_used existing s).next_sequence ≡ s.next_sequence)
      × ((skip_used existing s).locked ≡ s.locked)
unfolding skip_used
skip-keeps existing s = ground arith

pub prepare-keeps :
    (f : Flash) (c : f.Contents) (s : Store)
    → ((prepare_next_slot f c s).2.next_sequence ≡ s.next_sequence)
      × ((prepare_next_slot f c s).2.locked ≡ s.locked)
unfolding prepare_next_slot
prepare-keeps f c s = elim (Option-cases (f.read c s.next_offset)) [
  | inl e ↦ rw (e, prepare_next_slot) (refl, refl)
  | inr (existing, e) ↦
      rw (e, prepare_next_slot)
        (let (a, b) = erase-keeps f c (skip_used existing s) in
          let (x, y) = skip-keeps existing s in (a ∙ x, b ∙ y))
]

error-IsMirror :
    (f : Flash) (c : f.Contents) (s : Store) → IsMirror f c s → IsMirror f c (count_write_error s)
unfolding count_write_error
error-IsMirror f c s m = record { slots = m.slots }

-- The same of the partition, where there is one.
abbrev pub Mirrored : (f : Flash) → Option f.Contents → Store → Type 0
Mirrored f none s = Unit {0}
Mirrored f (some c) s = IsMirror f c s

-- `write_request` keeps the array in step with the flash: every sequence number in it is that of
-- a valid record in its slot, also where a read or a write fails, as long as no erase does.
pub write_request-IsMirror :
    (f : Flash)
    → IsFlash f
    → (q : CaptureRequest) (c : f.Contents) (s : Store) → IsRequest q
    → s.next_sequence < 2 ^ 32
    → IsLog s
    → IsMirror f c s
    → ((sector : ℕ) → (f.erase c sector).0 ≡ 0)
    → Mirrored f (write_request f q (some c) s).0 (write_request f q (some c) s).1
unfolding write_request
write_request-IsMirror f laws q c s a b v m ok = elim (Bool-cases (not s.locked)) [
  | inl p ↦ rw p m
  | inr p ↦ rw p (elim (Bool-cases (prepare_next_slot f c s).0) [
    | inl r ↦ rw r (
        write_slot-IsMirror f laws q _ _ a (rw ((prepare-keeps f c s).0) b)
          (prepare_next_slot-IsLog f c s v) (prepare_next_slot-IsReady f laws c s v m r))
    | inr r ↦ rw r (error-IsMirror f _ _ (prepare_next_slot-IsMirror f laws c s v m ok))
  ])
]

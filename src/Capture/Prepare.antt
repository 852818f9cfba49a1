-- ===== src/Capture/Prepare.antt =====
-- main/capture_store.c: `prepare_next_slot_locked`, and the array against the flash.
use lin_tac09cpbpsl_esp32c.Common.{
  ℕ, ◌*◌, ◌/◌, ◌%◌, ◌≡◌, refl, sym, ◌∙◌, ap, true, false, not, ◌&&◌, List, some, get_or, ◌==◌,
  Bool-cases, inl, inr, Option-cases, arith,
}
use lin_tac09cpbpsl_esp32c.Capture.Layout.{record_size, record_erased}
use lin_tac09cpbpsl_esp32c.Capture.Flash.{Flash, IsFlash, sector_size, erased_bytes}
use lin_tac09cpbpsl_esp32c.Capture.Store.{Store, read_slot}
use lin_tac09cpbpsl_esp32c.Capture.Write.{
  forget_loop, forget_sector, wrap_offset, skip_used, erase_sector, prepare_next_slot,
}
use lin_tac09cpbpsl_esp32c.Capture.Inv.{IsLog, skip_used-IsLog}
use lin_tac09cpbpsl_esp32c.Capture.Mirror.{
  IsMirror, IsReady, forget-outside, forget-inside, erased_record,
}

skip_used-IsMirror :
    (f : Flash) (c : f.Contents) (existing : List ℕ) (s : Store)
    → IsMirror f c s
    → IsMirror f c (skip_used existing s)
unfolding skip_used
skip_used-IsMirror f c existing s m =
    elim (Bool-cases (not (s.next_offset % sector_size == 0) && not (record_erased existing))) [
      | inl p ↦ rw p (record { slots = m.slots })
      | inr p ↦ rw p m
    ]

-- Past a used slot, the next record goes to the start of a sector.
skip_used-cases :
    (existing : List ℕ) (s : Store)
    → IsLog s
    → ((skip_used existing s).next_offset % sector_size == 0) ≡ false
    → ((skip_used existing s).next_offset ≡ s.next_offset) × (record_erased existing ≡ true)
unfolding skip_used wrap_offset
skip_used-cases existing s v =
    elim (Bool-cases (not (s.next_offset % sector_size == 0) && not (record_erased existing))) [
      | inl p ↦ rw p (λ e. absurd (ground arith))
      | inr p ↦ rw p (λ e. (refl, ground arith))
    ]

pub read_slot-same :
    (f : Flash) (c e : f.Contents) (i : ℕ)
    → f.read e (i * record_size) ≡ f.read c (i * record_size)
    → read_slot f e i ≡ read_slot f c i
unfolding read_slot
read_slot-same f c e i h = rw (h, read_slot) refl

forget-IsMirror :
    (f : Flash)
    → IsFlash f
    → (c : f.Contents) (s : Store) → IsLog s
    → IsMirror f c s
    → s.next_offset % sector_size ≡ 0
    → (f.erase c s.next_offset).0 ≡ 0
    → IsMirror f (f.erase c s.next_offset).1 (forget_sector s.next_offset s)
unfolding forget_sector
forget-IsMirror f laws c s v m a e = record {
  slots = λ i h n.
      elim (Bool-cases (i * record_size / sector_size == s.next_offset / sector_size)) [
        | inl p ↦ absurd (
            n (
              forget-inside (sector_size / record_size) (s.next_offset / record_size) s.slot_count i
                s.slot_sequences (ground arith) (ground arith) h))
        | inr p ↦
            let same : get_or
                  (forget_loop (sector_size / record_size) (s.next_offset / record_size)
                    s.slot_count s.slot_sequences)
                  i 0
                ≡ get_or s.slot_sequences i 0 =
              forget-outside (sector_size / record_size) (s.next_offset / record_size) s.slot_count
                i s.slot_sequences (ground arith) in
            let (r, b, q) = m.slots i h (λ z. n (same ∙ z)) in
            (
              r,
              read_slot-same f c _ i
                    (laws.erase_elsewhere c s.next_offset (i * record_size) (ground arith))
                  ∙ b,
              q ∙ sym same,
            )
      ];
}

erase_sector-IsReady :
    (f : Flash)
    → IsFlash f
    → (c : f.Contents) (s : Store) → IsLog s
    → IsMirror f c s
    → ((s.next_offset % sector_size == 0) ≡ false → f.read c s.next_offset ≡ some erased_bytes)
    → (erase_sector f c s).0 ≡ true
    → IsReady f (erase_sector f c s).1 (erase_sector f c s).2
unfolding erase_sector
erase_sector-IsReady f laws c s v m clean = elim (Bool-cases (s.next_offset % sector_size == 0)) [
  | inl p ↦ rw p (elim (Bool-cases ((f.erase c s.next_offset).0 == 0)) [
    | inl q ↦ rw q (λ e. record {
      mirror = forget-IsMirror f laws c s v m (ground arith) (ground arith);
      erased = laws.erase_read c s.next_offset s.next_offset (ground arith) refl;
    })
    | inr q ↦ rw q (λ e. absurd (ground arith))
  ])
  | inr p ↦ rw p (λ e. record { mirror = m; erased = clean p })
]

erase_sector-IsMirror :
    (f : Flash)
    → IsFlash f
    → (c : f.Contents) (s : Store) → IsLog s
    → IsMirror f c s
    → (f.erase c s.next_offset).0 ≡ 0
    → IsMirror f (erase_sector f c s).1 (erase_sector f c s).2
unfolding erase_sector
erase_sector-IsMirror f laws c s v m ok = elim (Bool-cases (s.next_offset % sector_size == 0)) [
  | inl p ↦ rw (p, ok) (forget-IsMirror f laws c s v m (ground arith) ok)
  | inr p ↦ rw p m
]

-- A slot that the next record can be written to is erased, and the array still says what the flash
-- holds.
pub prepare_next_slot-IsReady :
    (f : Flash)
    → IsFlash f
    → (c : f.Contents) (s : Store) → IsLog s
    → IsMirror f c s
    → (prepare_next_slot f c s).0 ≡ true
    → IsReady f (prepare_next_slot f c s).1 (prepare_next_slot f c s).2
unfolding prepare_next_slot
prepare_next_slot-IsReady f laws c s v m = elim (Option-cases (f.read c s.next_offset)) [
  | inl e ↦ rw (e, prepare_next_slot) (λ h. absurd (ground arith))
  | inr (existing, e) ↦
      rw (e, prepare_next_slot)
        (erase_sector-IsReady f laws c (skip_used existing s) (skip_used-IsLog existing s v)
          (skip_used-IsMirror f c existing s m)
          (λ h.
            let (same, clean) = skip_used-cases existing s v h in
            ap (f.read c) same
            ∙ e
            ∙ ap some (erased_record existing (laws.read_size c s.next_offset existing e) clean)))
]

pub prepare_next_slot-IsMirror :
    (f : Flash)
    → IsFlash f
    → (c : f.Contents) (s : Store) → IsLog s
    → IsMirror f c s
    → ((sector : ℕ) → (f.erase c sector).0 ≡ 0)
    → IsMirror f (prepare_next_slot f c s).1 (prepare_next_slot f c s).2
unfolding prepare_next_slot
prepare_next_slot-IsMirror f laws c s v m ok = elim (Option-cases (f.read c s.next_offset)) [
  | inl e ↦ rw (e, prepare_next_slot) m
  | inr (existing, e) ↦
      rw (e, prepare_next_slot)
        (erase_sector-IsMirror f laws c (skip_used existing s) (skip_used-IsLog existing s v)
          (skip_used-IsMirror f c existing s m) (ok _))
]

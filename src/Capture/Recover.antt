-- ===== src/Capture/Recover.antt =====
-- main/capture_store.c: what `capture_store_init` finds in the flash.
use lin_tac09cpbpsl_esp32c.Common.{
  ℕ, zero, suc, ◌+◌, ◌≤◌, ◌<◌, ◌≡◌, ◌≢◌, refl, sym, ◌∙◌, ap, subst, List, none, some, length,
  get_or, set, replicate, ◌==◌, Bool-cases, ◌⊎◌, inl, inr, Option-cases, get_or-set, length-set,
  ltb, if◌then◌else◌, length-replicate, arith,
}
use lin_tac09cpbpsl_esp32c.Capture.Layout.{FlashRecord}
use lin_tac09cpbpsl_esp32c.Capture.Flash.{Flash}
use lin_tac09cpbpsl_esp32c.Capture.Store.{
  max_records, CaptureErr, Store, refresh_info, enqueue_record, read_slot,
}
use lin_tac09cpbpsl_esp32c.Capture.Init.{
  Scan, scan_slot, scan_loop, resume, Setup, record_boot, init_slots, capture_store_init,
  start_store,
}
use lin_tac09cpbpsl_esp32c.Capture.Inv.{IsLog, usable_of-whole}
use lin_tac09cpbpsl_esp32c.Capture.Start.{init_slots-ok, capture_store_init-IsLog}
use lin_tac09cpbpsl_esp32c.Capture.Mirror.{IsMirror}

-- What the scan has found: the array is right for the slots that were read, and is empty above.
record IsScanned (f : Flash) (c : f.Contents) (slot : ℕ) (t : Scan) : Type 0 where
  sized : length t.sequences ≡ max_records
  slots :
      (i : ℕ)
      → get_or t.sequences i 0 ≢ 0
      → (i < slot)
        × (r : FlashRecord) × (read_slot f c i ≡ some r)
        × (r.sequence ≡ get_or t.sequences i 0)
  full :
      (i : ℕ) (r : FlashRecord)
      → i < slot
      → i < max_records
      → read_slot f c i ≡ some r
      → get_or t.sequences i 0 ≡ r.sequence
  latest : (i : ℕ) → get_or t.sequences i 0 ≤ t.latest_sequence
  held :
      t.latest_sequence ≢ 0
      → (i : ℕ) × (i < slot)
        × (r : FlashRecord) × (read_slot f c i ≡ some r)
        × (r.sequence ≡ t.latest_sequence)

-- The array after the record of a slot was stored.
stored_slot :
    (f : Flash) (c : f.Contents) (slot : ℕ) (t : Scan) (s : FlashRecord)
    → slot < max_records
    → read_slot f c slot ≡ some s
    → IsScanned f c slot t
    → (i : ℕ) → get_or (set t.sequences slot s.sequence) i 0 ≢ 0
    → (i < slot + 1)
      × (r : FlashRecord) × (read_slot f c i ≡ some r)
      × (r.sequence ≡ get_or (set t.sequences slot s.sequence) i 0)
stored_slot f c slot t s b e v i n =
    let got = get_or-set t.sequences slot i s.sequence 0 in
    elim (Bool-cases (i == slot)) [
      | inl p ↦
          let j : i ≡ slot = ground arith in
          (omega arith, s, ap (read_slot f c) j ∙ e, ground (arith, got, v.sized))
      | inr p ↦
          let kept : get_or (set t.sequences slot s.sequence) i 0 ≡ get_or t.sequences i 0 =
            ground (arith, got) in
          let (h, r, x, y) = v.slots i (λ z. n (kept ∙ z)) in (omega arith, r, x, y ∙ sym kept)
    ]

same_record :
    (f : Flash) (c : f.Contents) (i : ℕ) (r s : FlashRecord)
    → read_slot f c i ≡ some r
    → read_slot f c i ≡ some s
    → r.sequence ≡ s.sequence
same_record f c i r s x y = ap (λ o. elim o [ none ↦ 0 | some q ↦ q.sequence ]) (sym x ∙ y)

none_not_some :
    (f : Flash) (c : f.Contents) (i : ℕ) (r : FlashRecord)
    → read_slot f c i ≡ none
    → read_slot f c i ≡ some r
    → ⊥
none_not_some f c i r x y = ground (arith, x, y)

stored_full :
    (f : Flash) (c : f.Contents) (slot : ℕ) (t : Scan) (s : FlashRecord)
    → slot < max_records
    → read_slot f c slot ≡ some s
    → IsScanned f c slot t
    → (i : ℕ) (r : FlashRecord) → i < slot + 1
    → i < max_records
    → read_slot f c i ≡ some r
    → get_or (set t.sequences slot s.sequence) i 0 ≡ r.sequence
stored_full f c slot t s b e v i r h k x =
    let got = get_or-set t.sequences slot i s.sequence 0 in
    elim (Bool-cases (i == slot)) [
      | inl p ↦
          let j : slot ≡ i = ground arith in
          let same = same_record f c i r s x (ap (read_slot f c) (sym j) ∙ e) in
          ground (arith, got, v.sized)
      | inr p ↦ ground (arith, got, v.full i r (ground arith) k x)
    ]

stored_latest :
    (slot : ℕ) (t : Scan) (s : FlashRecord)
    → ((i : ℕ) → get_or t.sequences i 0 ≤ t.latest_sequence)
    → (i : ℕ)
    → get_or (set t.sequences slot s.sequence) i 0
      ≤ (if ltb t.latest_sequence s.sequence then s.sequence else t.latest_sequence)
stored_latest slot t s v i = ground (arith, v i, get_or-set t.sequences slot i s.sequence 0)

-- The greatest number is that of the new record, or still that of an earlier one.
stored_held :
    (f : Flash) (c : f.Contents) (slot : ℕ) (t : Scan) (s : FlashRecord)
    → read_slot f c slot ≡ some s
    → IsScanned f c slot t
    → let latest = if ltb t.latest_sequence s.sequence then s.sequence else t.latest_sequence in
      latest ≢ 0
      → (i : ℕ) × (i < slot + 1)
        × (r : FlashRecord) × (read_slot f c i ≡ some r)
        × (r.sequence ≡ latest)
stored_held f c slot t s e v = elim (Bool-cases (ltb t.latest_sequence s.sequence)) [
  | inl p ↦ rw p (λ n. (slot, omega arith, s, e, refl))
  | inr p ↦ rw p (λ n. let (i, h, r, x, y) = v.held n in (i, omega arith, r, x, y))
]

scan_slot-IsScanned :
    (f : Flash) (c : f.Contents) (slot : ℕ) (t : Scan)
    → slot < max_records
    → IsScanned f c slot t
    → IsScanned f c (slot + 1) (scan_slot f c slot t)
unfolding scan_slot
scan_slot-IsScanned f c slot t b v = elim (Option-cases (read_slot f c slot)) [
  | inl e ↦
      rw (e, scan_slot)
        (record {
          sized = v.sized;
          slots = λ i n. let (h, r, x, y) = v.slots i n in (omega arith, r, x, y);
          full = λ i r h k x. elim (Bool-cases (i == slot)) [
            | inl p ↦
                let j : i ≡ slot = ground arith in
                absurd (none_not_some f c i r (ap (read_slot f c) j ∙ e) x)
            | inr p ↦ v.full i r (ground arith) k x
          ];
          latest = v.latest;
          held = λ n. let (i, h, r, x, y) = v.held n in (i, omega arith, r, x, y);
        })
  | inr (s, e) ↦
      rw (e, scan_slot)
        (record {
          sized = length-set _ _ _ ∙ v.sized;
          slots = stored_slot f c slot t s b e v;
          full = stored_full f c slot t s b e v;
          latest = stored_latest slot t s v.latest;
          held = stored_held f c slot t s e v;
        })
]

scan_loop-IsScanned :
    (f : Flash) (c : f.Contents) (rounds slot count : ℕ) (t : Scan)
    → slot + rounds ≡ count
    → count ≤ max_records
    → IsScanned f c slot t
    → IsScanned f c count (scan_loop f c rounds slot t)
unfolding scan_loop
scan_loop-IsScanned f c zero slot count t e b v = let e' : slot ≡ count = omega arith in rw (← e') v
scan_loop-IsScanned f c (suc n) slot count t e b v =
    scan_loop-IsScanned f c n (slot + 1) count _ (omega arith) b
      (scan_slot-IsScanned f c slot t (omega arith) v)

-- The greatest number in the array, 0 where it is empty.
pub record IsGreatest (s : Store) (n : ℕ) : Type 0 where
  pub above : (i : ℕ) → get_or s.slot_sequences i 0 ≤ n
  pub present : n ≢ 0 → (i : ℕ) × (i < s.slot_count) × (get_or s.slot_sequences i 0 ≡ n)

-- What `capture_store_init` makes of the flash: the array holds the numbers of the valid records and
-- no others, and the next number follows the greatest of them.
pub record IsRecovered (f : Flash) (c : f.Contents) (s : Store) : Type 0 where
  pub mirror : IsMirror f c s
  pub full :
      (i : ℕ) (r : FlashRecord)
      → i < s.slot_count
      → read_slot f c i ≡ some r
      → get_or s.slot_sequences i 0 ≡ r.sequence
  pub fresh :
      (n : ℕ) × IsGreatest s n
      × (((n ≢ 0xffff_ffff) × (s.next_sequence ≡ n + 1))
          ⊎ ((n ≡ 0xffff_ffff) × (s.next_sequence ≡ 1)))

resume-IsRecovered :
    (f : Flash) (c : f.Contents) (t : Scan) (s : Store)
    → s.slot_count ≤ max_records
    → IsScanned f c s.slot_count t
    → IsRecovered f c (resume t s)
unfolding resume refresh_info
resume-IsRecovered f c t s b v = record {
  mirror = record { slots = λ i h n. let (k, r, x, y) = v.slots i n in (r, x, y) };
  full = λ i r h x. v.full i r h (omega arith) x;
  fresh = (
    t.latest_sequence,
    record {
      above = v.latest;
      present = λ n. let (i, h, r, x, y) = v.held n in (i, h, v.full i r h (omega arith) x ∙ y);
    },
    elim (Bool-cases (t.latest_sequence == 0xffff_ffff)) [
      | inl p ↦ rw p (inr (ground arith, refl))
      | inr p ↦ rw p (inl (ground arith, refl))
    ],
  );
}

-- The boot record waits in the queue: nothing else changes.
record_boot-keeps :
    (d : Setup) (s : Store)
    → record_boot d s
      ≡ record s { info = (record_boot d s).info; pending = (record_boot d s).pending }
unfolding record_boot enqueue_record
record_boot-keeps d s = ground arith

record_boot-IsRecovered :
    (f : Flash) (c : f.Contents) (d : Setup) (s : Store)
    → IsRecovered f c s
    → IsRecovered f c (record_boot d s)
record_boot-IsRecovered f c d s v =
    subst (λ u. IsRecovered f c u) (sym (record_boot-keeps d s))
      (record {
        mirror = record { slots = v.mirror.slots };
        full = v.full;
        fresh =
            let (n, g, next) = v.fresh in
            (n, record { above = g.above; present = g.present }, next);
      })

pub zeros : (n i : ℕ) → get_or {A = ℕ} (replicate n 0) i 0 ≡ 0
zeros zero i = refl
zeros (suc n) zero = refl
zeros (suc n) (suc i) = zeros n i

start_scan :
    (f : Flash) (c : f.Contents) (xs : List ℕ)
    → xs ≡ replicate max_records 0
    → IsScanned f c 0 (record { sequences = xs; latest_sequence = 0; latest_offset = 0 })
start_scan f c xs e = record {
  sized = ap (λ ys. length ys) e ∙ length-replicate {A = ℕ} max_records 0;
  slots = λ i n. absurd (n (ap (λ ys. get_or ys i 0) e ∙ zeros max_records i));
  full = λ i r h k x. absurd (omega arith);
  latest = λ i. omega (arith, ap (λ ys. get_or ys i 0) e, zeros max_records i);
  held = λ n. absurd (n refl);
}

init_slots-IsRecovered :
    (f : Flash) (d : Setup) (c : f.Contents) (s : Store)
    → s.slot_sequences ≡ replicate max_records 0
    → s.slot_count ≤ max_records
    → (init_slots f d c s).0 ≡ CaptureErr.ok
    → IsRecovered f c (init_slots f d c s).1
init_slots-IsRecovered f d c s z l e =
    let (n, same) = init_slots-ok f d c s e in
    subst (λ u. IsRecovered f c u) (sym same)
      (record_boot-IsRecovered f c d _ (
        resume-IsRecovered f c _ _ l (
          scan_loop-IsScanned f c s.slot_count 0 s.slot_count _ (omega arith) l
            (start_scan f c s.slot_sequences z))))

-- Where `capture_store_init` finds a partition and returns `ESP_OK`, the place of the next record is
-- in the partition, at the start of a slot of the array; the array holds the numbers of the valid
-- records in the flash and no others; and the next number is one more than the greatest of them, or
-- than 0 for an empty log, but 1 where the greatest is 0xffffffff.
pub capture_store_init-IsRecovered :
    (f : Flash) (d : Setup) (size : ℕ) (c : f.Contents)
    → (capture_store_init f d (some (size, c)) start_store).0 ≡ CaptureErr.ok
    → IsLog (capture_store_init f d (some (size, c)) start_store).1
      × IsRecovered f c (capture_store_init f d (some (size, c)) start_store).1
unfolding capture_store_init
capture_store_init-IsRecovered f d size c e =
    let (a, b, l) = usable_of-whole size in
    (
      capture_store_init-IsLog f d size c start_store (length-replicate {A = ℕ} max_records 0) e,
      init_slots-IsRecovered f d c _ refl l e,
    )

-- ===== src/Capture/Answer.antt =====
-- main/capture_store.c: what `capture_store_get_after` hands out.
use lin_tac09cpbpsl_esp32c.Common.{
  ℕ, zero, suc, ◌≤◌, ◌<◌, ◌≡◌, ◌≢◌, refl, sym, ◌∙◌, true, false, List, [], ◌∷◌, Option, none, some,
  length, take, get_or, ◌==◌, ◌*◌, Bool-cases, Option-cases, inl, inr, length-take, arith,
}
use lin_tac09cpbpsl_esp32c.Capture.Layout.{record_size, FlashRecord, record_of, record_valid}
use lin_tac09cpbpsl_esp32c.Capture.Flash.{Flash}
use lin_tac09cpbpsl_esp32c.Capture.Store.{
  Store, Wanted, find_loop, read_slot, capture_store_get_after,
}
use lin_tac09cpbpsl_esp32c.Capture.Inv.{IsLog}
use lin_tac09cpbpsl_esp32c.Capture.Mirror.{IsMirror}
use lin_tac09cpbpsl_esp32c.Capture.Next.{find_loop-IsNext}

-- The record is what the 128 bytes of a slot of the flash read as, and it passes the checks.
pub record IsHeld (f : Flash) (c : f.Contents) (slot : ℕ) (r : FlashRecord) : Type 0 where
  pub bytes : List ℕ
  pub read : f.read c (slot * record_size) ≡ some bytes
  pub same : r ≡ record_of bytes
  pub valid : record_valid r ≡ true

pub read_slot-IsHeld :
    (f : Flash) (c : f.Contents) (slot : ℕ) (r : FlashRecord)
    → read_slot f c slot ≡ some r
    → IsHeld f c slot r
unfolding read_slot
read_slot-IsHeld f c slot r e = elim (Option-cases (f.read c (slot * record_size))) [
  | inl a ↦ absurd (ground (arith, a, e))
  | inr (bytes, a) ↦ record {
    bytes = bytes;
    read = a;
    same = ground (arith, a, e);
    valid = ground (arith, a, e);
  }
]

-- What a reader that has all records up to the number `after` is to get: nothing where there is no
-- later one, and else the valid record of the slot with the least later number.
abbrev pub Answers : (f : Flash) → f.Contents → ℕ → Store → Option FlashRecord → Type 0
Answers f c after s none = (i : ℕ) → i < s.slot_count → get_or s.slot_sequences i 0 ≤ after
Answers f c after s (some r) =
    (after < r.sequence)
    × ((i : ℕ) × (i < s.slot_count) × (get_or s.slot_sequences i 0 ≡ r.sequence) × IsHeld f c i r)
    × ((i : ℕ)
        → i < s.slot_count
        → after < get_or s.slot_sequences i 0
        → r.sequence ≤ get_or s.slot_sequences i 0)

get_or-take : (n i : ℕ) (xs : List ℕ) → i < n → get_or (take n xs) i 0 ≡ get_or xs i 0
get_or-take zero i xs h = absurd (omega arith)
get_or-take (suc n) i [] h = refl
get_or-take (suc n) zero (x ∷ xs) h = refl
get_or-take (suc n) (suc i) (x ∷ xs) h = get_or-take n i xs (omega arith)

-- The search over the slots in use.
abbrev pub next_of : ℕ → Store → Wanted
next_of after s =
    find_loop after (take s.slot_count s.slot_sequences) 0 (record { sequence = 0; slot = 0 })

-- What the search finds in the array.
pub record IsFound (after : ℕ) (s : Store) (w : Wanted) : Type 0 where
  pub inside : w.sequence ≢ 0 → w.slot < s.slot_count
  pub holds : w.sequence ≢ 0 → get_or s.slot_sequences w.slot 0 ≡ w.sequence
  pub above : w.sequence ≢ 0 → after < w.sequence
  pub least :
      (i : ℕ)
      → i < s.slot_count
      → after < get_or s.slot_sequences i 0
      → (w.sequence ≢ 0) × (w.sequence ≤ get_or s.slot_sequences i 0)

pub next_of-IsFound : (after : ℕ) (s : Store) → IsLog s → IsFound after s (next_of after s)
next_of-IsFound after s v =
    let n = find_loop-IsNext after (take s.slot_count s.slot_sequences) in
    let all : length (take s.slot_count s.slot_sequences) ≡ s.slot_count =
      omega (arith, length-take s.slot_count s.slot_sequences, v.sized, v.limit) in
    record {
      inside = λ h. let k = n.inside h in omega arith;
      holds = λ h.
          let k = n.inside h in
          sym (get_or-take s.slot_count (next_of after s).slot s.slot_sequences (omega arith))
          ∙ n.holds h;
      above = n.above;
      least = λ i h k.
          let same = get_or-take s.slot_count i s.slot_sequences h in
          let (x, y) = n.least i (omega arith) (rw same k) in (x, omega arith);
    }

pub get_after-eq :
    (f : Flash) (after : ℕ) (c : f.Contents) (s : Store)
    → s.locked ≡ true
    → (next_of after s).sequence ≢ 0
    → capture_store_get_after f true after (some c) s ≡ read_slot f c (next_of after s).slot
unfolding capture_store_get_after
get_after-eq f after c s l n =
    let b : ((next_of after s).sequence == 0) ≡ false = ground arith in rw (l, b) refl

get_after-none :
    (f : Flash) (after : ℕ) (c : f.Contents) (s : Store)
    → s.locked ≡ true
    → ((next_of after s).sequence == 0) ≡ true
    → capture_store_get_after f true after (some c) s ≡ none
unfolding capture_store_get_after
get_after-none f after c s l b = rw (l, b) refl

-- Where the log is well-formed, its array agrees with the flash and its mutex is there and taken,
-- `capture_store_get_after` hands out the record that the bytes of a slot in the flash read as, which
-- passes `record_valid` and has the least number of the array above the given one; and it hands out
-- nothing only where no slot of the array has a number above the given one.
pub get_after-Answers :
    (f : Flash) (after : ℕ) (c : f.Contents) (s : Store)
    → IsLog s
    → IsMirror f c s
    → s.locked ≡ true
    → Answers f c after s (capture_store_get_after f true after (some c) s)
get_after-Answers f after c s v m l =
    let n = next_of-IsFound after s v in
    elim (Bool-cases ((next_of after s).sequence == 0)) [
      | inl p ↦ rw (get_after-none f after c s l p) (λ i h. ground (arith, n.least i h))
      | inr p ↦
          let z : (next_of after s).sequence ≢ 0 = ground arith in
          let held = n.holds z in
          let (r, b, k) = m.slots (next_of after s).slot (n.inside z) (λ y. z (sym held ∙ y)) in
          let same : r.sequence ≡ (next_of after s).sequence = k ∙ held in
          rw (get_after-eq f after c s l z, b)
            (
              ground (arith, n.above z),
              ((next_of after s).slot, n.inside z, sym k, read_slot-IsHeld f c _ r b),
              λ i h g. ground (arith, n.least i h g),
            )
    ]

-- ===== src/Capture/Mirror.antt =====
-- main/capture_store.c: the array `s_slot_sequences` against the slots of the flash.
use lin_tac09cpbpsl_esp32c.Common.{
  ℕ, zero, suc, ◌+◌, ◌*◌, ◌≤◌, ◌<◌, ◌≡◌, ◌≢◌, refl, ◌∙◌, ap, true, ◌||◌, List, [], ◌∷◌, none, some,
  length, get_or, set, replicate, ltb, leb, ◌==◌, if◌then◌else◌, Bool-cases, inl, inr, get_or-set,
  arith,
}
use lin_tac09cpbpsl_esp32c.Capture.Layout.{
  record_size, FlashRecord, record_of, record_valid, record_erased,
}
use lin_tac09cpbpsl_esp32c.Capture.Flash.{Flash, erased_bytes}
use lin_tac09cpbpsl_esp32c.Capture.Store.{Store, read_slot}
use lin_tac09cpbpsl_esp32c.Capture.Write.{forget_loop}

-- Every slot with a sequence number holds a record with this number.
pub record IsMirror (f : Flash) (c : f.Contents) (s : Store) : Type 0 where
  pub slots :
      (i : ℕ)
      → i < s.slot_count
      → get_or s.slot_sequences i 0 ≢ 0
      → (r : FlashRecord) × (read_slot f c i ≡ some r) × (r.sequence ≡ get_or s.slot_sequences i 0)

-- A sector that is forgotten, and the others.
forget_round :
    (slot count i : ℕ) (xs : List ℕ)
    → i ≢ slot
    → get_or (if ltb slot count then set xs slot 0 else xs) i 0 ≡ get_or xs i 0
forget_round slot count i xs h = ground (arith, get_or-set xs slot i 0 0)

forget-before :
    (n slot count i : ℕ) (xs : List ℕ)
    → i < slot
    → get_or (forget_loop n slot count xs) i 0 ≡ get_or xs i 0
unfolding forget_loop
forget-before zero slot count i xs h = refl
forget-before (suc n) slot count i xs h =
    forget-before n (slot + 1) count i _ (omega arith) ∙ forget_round slot count i xs (omega arith)

forget-after :
    (n slot count i : ℕ) (xs : List ℕ)
    → slot + n ≤ i
    → get_or (forget_loop n slot count xs) i 0 ≡ get_or xs i 0
unfolding forget_loop
forget-after zero slot count i xs h = refl
forget-after (suc n) slot count i xs h =
    forget-after n (slot + 1) count i _ (omega arith) ∙ forget_round slot count i xs (omega arith)

pub forget-outside :
    (n slot count i : ℕ) (xs : List ℕ)
    → (ltb i slot || leb (slot + n) i) ≡ true
    → get_or (forget_loop n slot count xs) i 0 ≡ get_or xs i 0
forget-outside n slot count i xs h = elim (Bool-cases (ltb i slot)) [
  | inl p ↦ forget-before n slot count i xs (ground arith)
  | inr p ↦ forget-after n slot count i xs (ground arith)
]

pub forget-inside :
    (n slot count i : ℕ) (xs : List ℕ)
    → slot ≤ i
    → i < slot + n
    → i < count
    → get_or (forget_loop n slot count xs) i 0 ≡ 0
unfolding forget_loop
forget-inside zero slot count i xs h k l = absurd (omega arith)
forget-inside (suc n) slot count i xs h k l = elim (Bool-cases (i == slot)) [
  | inl p ↦
      forget-before n (slot + 1) count i _ (ground arith) ∙ ground (arith, get_or-set xs slot i 0 0)
  | inr p ↦ forget-inside n (slot + 1) count i _ (ground arith) (omega arith) l
]

-- A slot that is erased holds no record.
pub erased-none :
    (f : Flash) (c : f.Contents) (i : ℕ)
    → f.read c (i * record_size) ≡ some erased_bytes
    → read_slot f c i ≡ none
unfolding read_slot record_of record_valid
erased-none f c i e = rw (e, read_slot) refl

erased_list : (xs : List ℕ) → record_erased xs ≡ true → xs ≡ replicate (length xs) 0xff
unfolding record_erased
erased_list [] h = refl
erased_list (x ∷ xs) h =
    let x' : x ≡ 0xff = ground arith in
    let xs' : xs ≡ replicate (length xs) 0xff = erased_list xs (ground arith) in
    ap (λ y. y ∷ xs) x' ∙ ap (λ ys. 0xff ∷ ys) xs'

pub erased_record :
    (xs : List ℕ) → length xs ≡ record_size → record_erased xs ≡ true → xs ≡ erased_bytes
erased_record xs h e = erased_list xs e ∙ ap (λ n. replicate n 0xff) h

-- What `prepare_next_slot_locked` gives: the slot is erased, and the flash and the array agree.
pub record IsReady (f : Flash) (c : f.Contents) (s : Store) : Type 0 where
  pub mirror : IsMirror f c s
  pub erased : f.read c s.next_offset ≡ some erased_bytes

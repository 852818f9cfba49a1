-- ===== src/Capture/RoundTrip.antt =====
-- main/capture_store.c: a record in the flash, written and read again.
use lin_tac09cpbpsl_esp32c.Common.{
  ℕ, zero, suc, ◌-◌, ◌^◌, ◌≤◌, ◌<◌, ◌≡◌, ◌≢◌, refl, sym, subst, ◌∙◌, ap, true, false, List, [], ◌∷◌,
  ◌++◌, length, take, drop, replicate, leb, ◌==◌, ==_refl, length-append, length-take,
  length-replicate, arith,
}
use lin_tac09cpbpsl_esp32c.Capture.Detect.{crc32_bytes-lt}
use lin_tac09cpbpsl_esp32c.Capture.Layout.{
  data_max, record_size, type_frame, type_system, FlashRecord, little_endian, value_of, body,
  bytes_of, record_of, record_valid, padded,
}
use lin_tac09cpbpsl_esp32c.Capture.Store.{CaptureRequest}
use lin_tac09cpbpsl_esp32c.Capture.Write.{record_for}

-- The fields fit in the words of `capture_flash_record_t`, and the array has its size.
pub record IsPacked (r : FlashRecord) : Type 0 where
  pub magic : r.magic < 2 ^ 32
  pub sequence : r.sequence < 2 ^ 32
  pub timestamp_us : r.timestamp_us < 2 ^ 64
  pub data_bytes : length r.data_bytes ≡ data_max
  pub crc32 : r.crc32 < 2 ^ 32

word_lem : (x : ℕ) → x < 2 ^ 32 → value_of (little_endian 4 x) ≡ x
unfolding value_of little_endian
word_lem x h = omega arith

long_lem : (x : ℕ) → x < 2 ^ 64 → value_of (little_endian 8 x) ≡ x
unfolding value_of little_endian
long_lem x h = omega arith

take-append : {A : Type 0} (n : ℕ) (xs ys : List A) → length xs ≡ n → take n (xs ++ ys) ≡ xs
take-append zero [] ys h = refl
take-append zero (x ∷ xs) ys h = absurd (omega arith)
take-append (suc n) [] ys h = absurd (omega arith)
take-append (suc n) (x ∷ xs) ys h = ap (λ zs. x ∷ zs) (take-append n xs ys (omega arith))

drop-append : {A : Type 0} (n : ℕ) (xs ys : List A) → length xs ≡ n → drop n (xs ++ ys) ≡ ys
drop-append zero [] ys h = refl
drop-append zero (x ∷ xs) ys h = absurd (omega arith)
drop-append (suc n) [] ys h = absurd (omega arith)
drop-append (suc n) (x ∷ xs) ys h = drop-append n xs ys (omega arith)

crc_bytes :
    (r : FlashRecord)
    → length r.data_bytes ≡ data_max
    → take 4 (drop 124 (bytes_of r)) ≡ little_endian 4 r.crc32
unfolding bytes_of body little_endian
crc_bytes r h = ap (take 4) (drop-append 104 r.data_bytes (little_endian 4 r.crc32) h)

data_lem :
    (r : FlashRecord)
    → length r.data_bytes ≡ data_max
    → take 104 (drop 20 (bytes_of r)) ≡ r.data_bytes
unfolding bytes_of body little_endian
data_lem r h = take-append 104 r.data_bytes (little_endian 4 r.crc32) h

-- The bytes of a record read as the record.
pub record_of-bytes_of : (r : FlashRecord) → IsPacked r → record_of (bytes_of r) ≡ r
unfolding record_of bytes_of body little_endian
record_of-bytes_of r p = λ i. record {
  magic = word_lem r.magic p.magic i;
  sequence = word_lem r.sequence p.sequence i;
  timestamp_us = long_lem r.timestamp_us p.timestamp_us i;
  type = r.type;
  direction = r.direction;
  kind = r.kind;
  length = r.length;
  data_bytes = data_lem r p.data_bytes i;
  crc32 = (ap value_of (crc_bytes r p.data_bytes) ∙ word_lem r.crc32 p.crc32) i;
}

-- The queue holds what `enqueue_record` puts there: a text that fits, with a type of its own.
pub record IsRequest (q : CaptureRequest) : Type 0 where
  pub timestamp_us : q.timestamp_us < 2 ^ 64
  pub low : type_frame ≤ q.type
  pub high : q.type ≤ type_system
  pub short : q.length ≤ data_max
  pub sized : length q.data_bytes ≡ data_max

pub length-padded :
    (n : ℕ) (xs : List ℕ) → n ≤ length xs → n ≤ data_max → length (padded n xs) ≡ data_max
unfolding padded
length-padded n xs h k = omega (
  arith,
  length-append (take n xs) (replicate (data_max - n) 0),
  length-take n xs,
  length-replicate {A = ℕ} (data_max - n) 0,
)

pub record_for-IsPacked :
    (q : CaptureRequest) (sequence : ℕ)
    → IsRequest q
    → sequence < 2 ^ 32
    → IsPacked (record_for q sequence)
unfolding record_for
record_for-IsPacked q sequence v h = record {
  magic = omega arith;
  sequence = h;
  timestamp_us = v.timestamp_us;
  data_bytes = length-padded q.length q.data_bytes (ground (arith, v.short, v.sized)) v.short;
  crc32 = crc32_bytes-lt _;
}

-- A record that is written passes the checks.
pub record_for-valid :
    (q : CaptureRequest) (sequence : ℕ)
    → IsRequest q
    → sequence ≢ 0
    → record_valid (record_for q sequence) ≡ true
unfolding record_valid record_for body
record_for-valid q sequence v h =
    let low : leb type_frame q.type ≡ true = ground (arith, v.low) in
    let high : leb q.type type_system ≡ true = ground (arith, v.high) in
    let short : leb q.length data_max ≡ true = ground (arith, v.short) in
    let nonzero : (sequence == 0) ≡ false = ground arith in
    rw (low, high, short, nonzero) (==_refl _)

-- What a record tells of a request: all its fields, and its bytes up to the length.
pub record Tells (q : CaptureRequest) (sequence : ℕ) (r : FlashRecord) : Type 0 where
  pub numbered : r.sequence ≡ sequence
  pub timestamp_as : r.timestamp_us ≡ q.timestamp_us
  pub type_as : r.type ≡ q.type
  pub direction_as : r.direction ≡ q.direction
  pub kind_as : r.kind ≡ q.kind
  pub length_as : r.length ≡ q.length
  pub bytes_as : take r.length r.data_bytes ≡ take q.length q.data_bytes

record_for-Tells :
    (q : CaptureRequest) (sequence : ℕ) → IsRequest q → Tells q sequence (record_for q sequence)
unfolding record_for padded
record_for-Tells q sequence v = record {
  numbered = refl;
  timestamp_as = refl;
  type_as = refl;
  direction_as = refl;
  kind_as = refl;
  length_as = refl;
  bytes_as =
      take-append q.length (take q.length q.data_bytes) (replicate (data_max - q.length) 0)
        (ground (arith, length-take q.length q.data_bytes, v.short, v.sized));
}

-- The bytes that `write_request` puts into the flash for a queued request, with a number that is not
-- 0, read as a record that passes `record_valid`, has this number, and tells the request: time, type,
-- direction, kind, length, and each of its bytes.
pub read_written :
    (q : CaptureRequest) (sequence : ℕ)
    → IsRequest q
    → sequence ≢ 0
    → sequence < 2 ^ 32
    → Tells q sequence (record_of (bytes_of (record_for q sequence)))
      × (record_of (bytes_of (record_for q sequence)) ≡ record_for q sequence)
      × (record_valid (record_of (bytes_of (record_for q sequence))) ≡ true)
read_written q sequence v h k =
    let e = record_of-bytes_of (record_for q sequence) (record_for-IsPacked q sequence v k) in
    (
      subst (Tells q sequence) (sym e) (record_for-Tells q sequence v),
      e,
      ap record_valid e ∙ record_for-valid q sequence v h,
    )

pub length-bytes_of :
    (q : CaptureRequest) (sequence : ℕ)
    → IsRequest q
    → length (bytes_of (record_for q sequence)) ≡ record_size
unfolding bytes_of body little_endian record_for
length-bytes_of q sequence v = ground (
  arith,
  length-append (padded q.length q.data_bytes) (little_endian 4 (record_for q sequence).crc32),
  length-padded q.length q.data_bytes (ground (arith, v.short, v.sized)) v.short,
)

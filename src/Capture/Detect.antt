-- ===== src/Capture/Detect.antt =====
-- main/capture_store.c: the CRC of two texts that differ in one byte.
use lin_tac09cpbpsl_esp32c.Common.{
  ℕ, zero, suc, ◌/◌, ◌%◌, ◌^◌, ◌≤◌, ◌<◌, bit_xor, ◌≡◌, ◌≢◌, refl, sym, ◌∙◌, ap, true, false, List,
  [], ◌∷◌, ◌++◌, ◌==◌, if◌then◌else◌, Bool-cases, inl, inr, arith,
}
use lin_tac09cpbpsl_esp32c.Common.Bits.{xor_comm, xor_cancel, xor-lt, bit_xor-zero}
use lin_tac09cpbpsl_esp32c.Capture.Crc.{
  polynomial, crc_bit, crc_bits, crc_byte, crc_loop, crc32_bytes,
}

-- Every byte of a list fits in eight bits.
abbrev pub AllBytes : List ℕ → Type 0
AllBytes [] = Unit {0}
AllBytes (x ∷ xs) = (x < 2 ^ 8) × AllBytes xs

crc_bit-lt : (x : ℕ) → x < 2 ^ 32 → crc_bit x < 2 ^ 32
unfolding crc_bit
crc_bit-lt x h =
    xor-lt 32 (x / 2) (if x % 2 == 1 then polynomial else 0) (omega arith) (ground arith)

-- The polynomial has its highest bit set, so the highest bit of the result tells the lowest one of
-- the argument.
crc_bit-top : (x : ℕ) → x < 2 ^ 32 → (x % 2 == 1) ≡ true → 2 ^ 31 ≤ crc_bit x
unfolding crc_bit
crc_bit-top x h odd =
    rw odd (
      ground (arith, xor-lt 31 (x / 2) (bit_xor (x / 2) polynomial), xor_cancel (x / 2) polynomial))

crc_bit-low : (x : ℕ) → x < 2 ^ 32 → (x % 2 == 1) ≡ false → crc_bit x ≡ x / 2
unfolding crc_bit
crc_bit-low x h even = rw even (bit_xor-zero (x / 2))

xor_right_cancel : (a b c : ℕ) → bit_xor a c ≡ bit_xor b c → a ≡ b
xor_right_cancel a b c e =
    sym (xor_cancel c a) ∙ ap (bit_xor c) (xor_comm c a ∙ e ∙ xor_comm b c) ∙ xor_cancel c b

crc_bit-odd : (x : ℕ) → (x % 2 == 1) ≡ true → crc_bit x ≡ bit_xor (x / 2) polynomial
unfolding crc_bit
crc_bit-odd x odd = rw odd

crc_bit_injective : (x y : ℕ) → x < 2 ^ 32 → y < 2 ^ 32 → crc_bit x ≡ crc_bit y → x ≡ y
crc_bit_injective x y h k e = elim (Bool-cases (x % 2 == 1)) [
  | inl p ↦ elim (Bool-cases (y % 2 == 1)) [
    | inl q ↦
        let halves : x / 2 ≡ y / 2 =
          xor_right_cancel (x / 2) (y / 2) polynomial
            (sym (crc_bit-odd x p) ∙ e ∙ crc_bit-odd y q) in
        ground arith
    | inr q ↦ absurd (ground (arith, crc_bit-top x h p, crc_bit-low y k q))
  ]
  | inr p ↦ elim (Bool-cases (y % 2 == 1)) [
    | inl q ↦ absurd (ground (arith, crc_bit-top y k q, crc_bit-low x h p))
    | inr q ↦ ground (arith, crc_bit-low x h p, crc_bit-low y k q)
  ]
]

crc_bits-lt : (n x : ℕ) → x < 2 ^ 32 → crc_bits n x < 2 ^ 32
unfolding crc_bits
crc_bits-lt zero x h = h
crc_bits-lt (suc n) x h = crc_bits-lt n (crc_bit x) (crc_bit-lt x h)

crc_bits_injective : (n x y : ℕ) → x < 2 ^ 32 → y < 2 ^ 32 → crc_bits n x ≡ crc_bits n y → x ≡ y
unfolding crc_bits
crc_bits_injective zero x y h k e = e
crc_bits_injective (suc n) x y h k e =
    crc_bit_injective x y h k
      (crc_bits_injective n (crc_bit x) (crc_bit y) (crc_bit-lt x h) (crc_bit-lt y k) e)

with_byte-lt : (crc byte : ℕ) → crc < 2 ^ 32 → byte < 2 ^ 8 → bit_xor crc byte < 2 ^ 32
with_byte-lt crc byte h k = xor-lt 32 crc byte h (omega arith)

crc_byte-lt : (crc byte : ℕ) → crc < 2 ^ 32 → byte < 2 ^ 8 → crc_byte crc byte < 2 ^ 32
unfolding crc_byte
crc_byte-lt crc byte h k = crc_bits-lt 8 (bit_xor crc byte) (with_byte-lt crc byte h k)

pub crc_loop-lt : (crc : ℕ) (xs : List ℕ) → crc < 2 ^ 32 → AllBytes xs → crc_loop crc xs < 2 ^ 32
unfolding crc_loop
crc_loop-lt crc [] h a = h
crc_loop-lt crc (x ∷ xs) h (b, a) = crc_loop-lt (crc_byte crc x) xs (crc_byte-lt crc x h b) a

-- The loop is injective in the value that it starts from.
crc_loop_injective :
    (c e : ℕ) (xs : List ℕ)
    → c < 2 ^ 32
    → e < 2 ^ 32
    → AllBytes xs
    → crc_loop c xs ≡ crc_loop e xs
    → c ≡ e
unfolding crc_loop crc_byte
crc_loop_injective c e [] h k a q = q
crc_loop_injective c e (x ∷ xs) h k (b, a) q =
    let step =
      crc_loop_injective (crc_byte c x) (crc_byte e x) xs (crc_byte-lt c x h b)
        (crc_byte-lt e x k b) a q in
    xor_right_cancel c e x (
      crc_bits_injective 8 (bit_xor c x) (bit_xor e x) (with_byte-lt c x h b) (with_byte-lt e x k b)
        step)

crc_byte_injective :
    (crc x y : ℕ) → crc < 2 ^ 32 → x < 2 ^ 8 → y < 2 ^ 8 → crc_byte crc x ≡ crc_byte crc y → x ≡ y
unfolding crc_byte
crc_byte_injective crc x y h k l e =
    sym (xor_cancel crc x)
    ∙ ap (bit_xor crc) (
        crc_bits_injective 8 (bit_xor crc x) (bit_xor crc y) (with_byte-lt crc x h k)
          (with_byte-lt crc y h l) e)
    ∙ xor_cancel crc y

crc_loop-change :
    (crc : ℕ) (before after : List ℕ) (x y : ℕ)
    → crc < 2 ^ 32
    → AllBytes (before ++ x ∷ after)
    → y < 2 ^ 8
    → crc_loop crc (before ++ x ∷ after) ≡ crc_loop crc (before ++ y ∷ after)
    → x ≡ y
unfolding crc_loop
crc_loop-change crc [] after x y h (b, a) k e = crc_byte_injective crc x y h b k (
    crc_loop_injective (crc_byte crc x) (crc_byte crc y) after (crc_byte-lt crc x h b)
      (crc_byte-lt crc y h k) a e)
crc_loop-change crc (z ∷ before) after x y h (b, a) k e =
    crc_loop-change (crc_byte crc z) before after x y (crc_byte-lt crc z h b) a k e

AllBytes-change :
    (before after : List ℕ) (x y : ℕ)
    → AllBytes (before ++ x ∷ after)
    → y < 2 ^ 8
    → AllBytes (before ++ y ∷ after)
AllBytes-change [] after x y (b, a) k = (k, a)
AllBytes-change (z ∷ before) after x y (b, a) k = (b, AllBytes-change before after x y a k)

-- A change of any one byte of a text changes its CRC.
pub crc32_bytes_detects :
    (before after : List ℕ) (x y : ℕ)
    → AllBytes (before ++ x ∷ after)
    → y < 2 ^ 8
    → x ≢ y
    → crc32_bytes (before ++ x ∷ after) ≢ crc32_bytes (before ++ y ∷ after)
unfolding crc32_bytes
crc32_bytes_detects before after x y a k ne e =
    let b = AllBytes-change before after x y a k in
    let start : ℕ = 0xffff_ffff in
    let lt = crc_loop-lt start (before ++ x ∷ after) (omega arith) a in
    let lt' = crc_loop-lt start (before ++ y ∷ after) (omega arith) b in
    ne (crc_loop-change start before after x y (omega arith) a k (omega arith))

-- The CRC is an `uint32_t`.
pub crc32_bytes-lt : (bytes : List ℕ) → crc32_bytes bytes < 2 ^ 32
unfolding crc32_bytes
crc32_bytes-lt bytes = omega arith

-- The check value of the CRC-32, of the text 123456789.
crc32_check : crc32_bytes (49 ∷ 50 ∷ 51 ∷ 52 ∷ 53 ∷ 54 ∷ 55 ∷ 56 ∷ 57 ∷ []) ≡ 0xcbf43926
unfolding crc32_bytes crc_loop
crc32_check = refl

-- ===== src/Capture/Crc.antt =====
-- main/capture_store.c: `crc32_bytes`.
use lin_tac09cpbpsl_esp32c.Common.{
  ℕ, zero, suc, ◌-◌, ◌/◌, ◌%◌, bit_xor, List, [], ◌∷◌, ◌==◌, if◌then◌else◌,
}

-- The reflected polynomial of the CRC-32.
abbrev pub polynomial : ℕ
polynomial = 0xedb88320

-- One round of the inner loop: the mask is all ones where the lowest bit is set, and else zero.
unfoldable pub crc_bit : ℕ → ℕ
crc_bit crc = bit_xor (crc / 2) (if crc % 2 == 1 then polynomial else 0)

unfoldable pub crc_bits : ℕ → ℕ → ℕ
unfolding crc_bit
crc_bits zero crc = crc
crc_bits (suc rounds) crc = crc_bits rounds (crc_bit crc)

-- The body of the outer loop, for one byte.
unfoldable pub crc_byte : ℕ → ℕ → ℕ
unfolding crc_bits
crc_byte crc byte = crc_bits 8 (bit_xor crc byte)

unfoldable pub crc_loop : ℕ → List ℕ → ℕ
unfolding crc_byte
crc_loop crc [] = crc
crc_loop crc (byte ∷ bytes) = crc_loop (crc_byte crc byte) bytes

-- `crc32_bytes`; `~crc` of an `uint32_t` is the difference to UINT32_MAX.
unfoldable pub crc32_bytes : List ℕ → ℕ
unfolding crc_loop
crc32_bytes bytes = 0xffff_ffff - crc_loop 0xffff_ffff bytes

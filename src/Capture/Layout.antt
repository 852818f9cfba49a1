-- ===== src/Capture/Layout.antt =====
-- main/capture_store.c: a record of the log, and its bytes in the flash. The target is
-- little-endian, and `capture_flash_record_t` has no padding.
use lin_tac09cpbpsl_esp32c.Common.{
  ℕ, zero, suc, ◌+◌, ◌-◌, ◌*◌, ◌/◌, ◌%◌, Bool, true, not, ◌&&◌, List, [], ◌∷◌, ◌++◌, take, drop,
  get_or, replicate, leb, ◌==◌,
}
use lin_tac09cpbpsl_esp32c.Capture.Crc.{crc32_bytes}

-- CAPTURE_MAGIC, CAPTURE_STORE_DATA_MAX, CAPTURE_RECORD_SIZE
abbrev pub magic_word : ℕ
magic_word = 0x3150434b

abbrev pub data_max : ℕ
data_max = 104

abbrev pub record_size : ℕ
record_size = 128

-- CAPTURE_RECORD_FRAME, CAPTURE_RECORD_MARKER, CAPTURE_RECORD_BOOT, CAPTURE_RECORD_SYSTEM
abbrev pub type_frame : ℕ
type_frame = 1

abbrev pub type_marker : ℕ
type_marker = 2

abbrev pub type_boot : ℕ
type_boot = 3

abbrev pub type_system : ℕ
type_system = 4

-- `capture_flash_record_t`; the time is the bit pattern of an `int64_t`.
pub record FlashRecord : Type 0 where
  pub magic : ℕ
  pub sequence : ℕ
  pub timestamp_us : ℕ
  pub type : ℕ
  pub direction : ℕ
  pub kind : ℕ
  pub length : ℕ
  pub data_bytes : List ℕ
  pub crc32 : ℕ

-- The bytes of a number in memory, the lowest first.
unfoldable pub little_endian : ℕ → ℕ → List ℕ
little_endian zero n = []
little_endian (suc size) n = n % 256 ∷ little_endian size (n / 256)

unfoldable pub value_of : List ℕ → ℕ
value_of [] = 0
value_of (x ∷ xs) = x + 256 * value_of xs

-- The bytes of a record before its CRC.
unfoldable pub body : FlashRecord → List ℕ
unfolding little_endian
body r =
    little_endian 4 r.magic
    ++ (little_endian 4 r.sequence
        ++ (little_endian 8 r.timestamp_us
            ++ (r.type ∷ r.direction ∷ r.kind ∷ r.length ∷ r.data_bytes)))

-- The bytes that are written to the flash.
unfoldable pub bytes_of : FlashRecord → List ℕ
unfolding body
bytes_of r = body r ++ little_endian 4 r.crc32

-- The record that 128 bytes of the flash are read as.
unfoldable pub record_of : List ℕ → FlashRecord
unfolding value_of
record_of bytes = record {
  magic = value_of (take 4 bytes);
  sequence = value_of (take 4 (drop 4 bytes));
  timestamp_us = value_of (take 8 (drop 8 bytes));
  type = get_or bytes 16 0;
  direction = get_or bytes 17 0;
  kind = get_or bytes 18 0;
  length = get_or bytes 19 0;
  data_bytes = take data_max (drop 20 bytes);
  crc32 = value_of (take 4 (drop 124 bytes));
}

-- `record_valid`
unfoldable pub record_valid : FlashRecord → Bool
record_valid r =
    r.magic == magic_word
    && not (r.sequence == 0)
    && leb r.length data_max
    && leb type_frame r.type
    && leb r.type type_system
    && r.crc32 == crc32_bytes (body r)

-- `record_erased`
unfoldable pub record_erased : List ℕ → Bool
record_erased [] = true
record_erased (x ∷ xs) = x == 0xff && record_erased xs

-- The array `data` after a copy of `length` bytes into a record that was cleared.
unfoldable pub padded : ℕ → List ℕ → List ℕ
padded length bytes = take length bytes ++ replicate (data_max - length) 0

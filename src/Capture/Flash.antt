-- ===== src/Capture/Flash.antt =====
-- The flash partition under main/capture_store.c. Its driver belongs to ESP-IDF: it is a parameter,
-- with what its documentation says as laws.
use lin_tac09cpbpsl_esp32c.Common.{ℕ, ◌/◌, ◌≡◌, ◌≢◌, Option, some, List, length, replicate}
use lin_tac09cpbpsl_esp32c.Capture.Layout.{record_size}

-- CAPTURE_SECTOR_SIZE
abbrev pub sector_size : ℕ
sector_size = 4096

-- `esp_partition_read` of a record, `none` for an error; `esp_partition_erase_range` of a sector and
-- `esp_partition_write` of a record, with their `esp_err_t`, 0 for `ESP_OK`. All are given an offset.
pub record Flash : Type 1 where
  pub Contents : Type 0
  pub read : Contents → ℕ → Option (List ℕ)
  pub erase : Contents → ℕ → ℕ × Contents
  pub write : Contents → ℕ → List ℕ → ℕ × Contents

-- The bytes of a record in an erased sector.
abbrev pub erased_bytes : List ℕ
erased_bytes = replicate record_size 0xff

-- What a call that succeeds does: a sector that was erased reads as ones, and a record that was
-- written over ones is read back. A call touches no other sector, or no other record.
pub record IsFlash (f : Flash) : Type 0 where
  pub erase_read :
      (c : f.Contents) (sector offset : ℕ)
      → (f.erase c sector).0 ≡ 0
      → offset / sector_size ≡ sector / sector_size
      → f.read (f.erase c sector).1 offset ≡ some erased_bytes
  pub erase_elsewhere :
      (c : f.Contents) (sector offset : ℕ)
      → offset / sector_size ≢ sector / sector_size
      → f.read (f.erase c sector).1 offset ≡ f.read c offset
  pub write_read :
      (c : f.Contents) (offset : ℕ) (bytes : List ℕ)
      → length bytes ≡ record_size
      → f.read c offset ≡ some erased_bytes
      → (f.write c offset bytes).0 ≡ 0
      → f.read (f.write c offset bytes).1 offset ≡ some bytes
  pub write_elsewhere :
      (c : f.Contents) (offset other : ℕ) (bytes : List ℕ)
      → other / record_size ≢ offset / record_size
      → f.read (f.write c offset bytes).1 other ≡ f.read c other
  pub read_size :
      (c : f.Contents) (offset : ℕ) (bytes : List ℕ)
      → f.read c offset ≡ some bytes
      → length bytes ≡ record_size

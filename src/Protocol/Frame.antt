-- ===== src/Protocol/Frame.antt =====
-- main/ac_protocol.c: the check byte, the frame size and the translation of mode/fan codes.
-- A pointer argument is the list of the bytes that it points to; it is not null.
use lin_tac09cpbpsl_esp32c.Common.{
  ℕ, zero, suc, ◌-◌, bit_xor, Bool, false, not, ◌&&◌, ◌||◌, List, [], ◌∷◌, get_or, set, ltb, ◌==◌,
  if◌then◌else◌,
}
use lin_tac09cpbpsl_esp32c.Protocol.Wire.{
  header_0, header_1, xor_target, panel_body_length, main_body_length, panel_frame_size,
  main_frame_size,
}

-- The loop of `ac_protocol_xor`, with the bytes and the rounds that are left.
unfoldable pub xor_loop : ℕ → List ℕ → ℕ → ℕ
xor_loop value bytes zero = value
xor_loop value [] (suc n) = value
xor_loop value (b ∷ bytes) (suc n) = xor_loop (bit_xor value b) bytes n

-- `ac_protocol_xor`
unfoldable pub xor : List ℕ → ℕ → ℕ
unfolding xor_loop
xor bytes length = xor_loop 0 bytes length

-- The two body lengths with the frame size that belongs to each.
unfoldable pub known_size : List ℕ → ℕ → Bool
known_size bytes length =
    (get_or bytes 2 0 == panel_body_length && length == panel_frame_size)
    || (get_or bytes 2 0 == main_body_length && length == main_frame_size)

-- `ac_protocol_checksum_valid`
unfoldable pub checksum_valid : List ℕ → ℕ → Bool
checksum_valid bytes length =
    if ltb length 3 then false else known_size bytes length && xor bytes length == xor_target

-- `ac_protocol_expected_size`
unfoldable pub expected_size : List ℕ → ℕ → ℕ
expected_size bytes available =
    if ltb available 3 || not (get_or bytes 0 0 == header_0) || not (get_or bytes 1 0 == header_1)
    then 0
    else if get_or bytes 2 0 == panel_body_length
    then panel_frame_size
    else if get_or bytes 2 0 == main_body_length
    then main_frame_size
    else 0

-- `ac_protocol_finalize`
unfoldable pub finalize : List ℕ → ℕ → List ℕ
finalize bytes length =
    if ltb length 3
    then bytes
    else if known_size bytes length
    then set bytes (length - 1) (bit_xor (xor bytes (length - 1)) xor_target)
    else bytes

-- `ac_protocol_panel_to_main_mode_fan`
unfoldable pub panel_to_main_mode_fan : ℕ → ℕ
panel_to_main_mode_fan code = if code == 0x22 then 0x21 else code

-- `ac_protocol_main_to_panel_mode_fan`
unfoldable pub main_to_panel_mode_fan : ℕ → ℕ
main_to_panel_mode_fan code = if code == 0x21 then 0x22 else code

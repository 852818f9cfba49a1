-- ===== src/Protocol/Written.antt =====
-- The frame that `ac_protocol_apply_control` makes, and what the parser of the panel's frames
-- requires.
use lin_tac09cpbpsl_esp32c.Common.{
  ℕ, ◌+◌, ◌<◌, ◌≡◌, ◌∙◌, Bool, true, false, List, get_or, length, some, arith,
}
use lin_tac09cpbpsl_esp32c.Protocol.Types.{PanelState, Request}
use lin_tac09cpbpsl_esp32c.Protocol.Wire.{panel_frame_size}
use lin_tac09cpbpsl_esp32c.Protocol.Frame.{known_size, checksum_valid, expected_size, finalize}
use lin_tac09cpbpsl_esp32c.Protocol.Checksum.{checksum_valid_iff, finalize_valid}
use lin_tac09cpbpsl_esp32c.Protocol.Parse.{panel_fields, parse_panel}
use lin_tac09cpbpsl_esp32c.Protocol.Control.{
  rejects, needs_bootstrap, bootstrap_current, requested_mode_fan, write_panel, apply_control,
}
use lin_tac09cpbpsl_esp32c.Protocol.Bytes.{written, body-byte}

-- What the parser of the panel's frames requires, and what it reads.
pub parse_panel_parts :
    (f : List ℕ) {state : PanelState}
    → parse_panel f ≡ some state
    → (get_or f 0 0 ≡ 0x54)
      × (get_or f 1 0 ≡ 0x44)
      × (get_or f 2 0 ≡ 0x0b)
      × (checksum_valid f panel_frame_size ≡ true)
      × (state ≡ panel_fields f)
unfolding parse_panel expected_size
parse_panel_parts f h = ground arith

pub parse_panel_of :
    (f : List ℕ)
    → get_or f 0 0 ≡ 0x54
    → get_or f 1 0 ≡ 0x44
    → get_or f 2 0 ≡ 0x0b
    → checksum_valid f panel_frame_size ≡ true
    → parse_panel f ≡ some (panel_fields f)
unfolding parse_panel expected_size
parse_panel_of f a b c d = ground arith

-- The code that the request asks for, from what the panel's frame showed.
unfoldable pub panel_code : PanelState → Request → ℕ
panel_code state r =
    requested_mode_fan
      (bootstrap_current (needs_bootstrap state.setpoint_c r)
        (record { mode_fan_code = state.mode_fan_code; mode = state.mode; fan = state.fan }))
      r

-- The frame that `ac_protocol_apply_control` makes: it has the panel's size and a right check
-- byte, and each other byte is the one that the statements write.
pub record IsWritten (f : List ℕ) (size encoded : ℕ) (boot : Bool) (code : ℕ) (r : Request)
    (event : Bool) (out : List ℕ) : Type 0 where
  pub size_kept : length out ≡ size
  pub check_right : checksum_valid out size ≡ true
  pub bytes :
      (j : ℕ) → j + 1 < size → get_or out j 0 ≡ written encoded boot code r event j (get_or f j 0)

known_size_of_parse :
    (f g : List ℕ) (n : ℕ)
    → get_or g 2 0 ≡ get_or f 2 0
    → checksum_valid f n ≡ true
    → known_size g n ≡ true
unfolding known_size
known_size_of_parse f g n e v = ground (arith, (checksum_valid_iff f n).0 v)

pub IsWritten-finalize :
    (f g : List ℕ) (size encoded : ℕ) (boot : Bool) (code : ℕ) (r : Request) (event : Bool)
    → 6 < encoded
    → checksum_valid f size ≡ true
    → length g ≡ size
    → ((j : ℕ) → get_or g j 0 ≡ written encoded boot code r event j (get_or f j 0))
    → IsWritten f size encoded boot code r event (finalize g size)
unfolding written
IsWritten-finalize f g size encoded boot code r event h v l b =
    let (check, len, kept) =
      finalize_valid g size (known_size_of_parse f g size (ground (arith, b 2)) v) l in
    record { size_kept = len; check_right = check; bytes = λ j lt. kept j (omega arith) ∙ b j }

apply_control-eq :
    (f : List ℕ) (r : Request) (event : Bool) {state : PanelState}
    → parse_panel f ≡ some state
    → rejects r ≡ false
    → apply_control f r event ≡ some (finalize (write_panel state r event f) panel_frame_size)
unfolding apply_control
apply_control-eq f r event p ok = rw (p, apply_control) (rw ok)

pub apply_control-IsWritten :
    (f : List ℕ) (r : Request) (event : Bool) {state : PanelState}
    → length f ≡ panel_frame_size
    → parse_panel f ≡ some state
    → rejects r ≡ false
    → (out : List ℕ) × (apply_control f r event ≡ some out)
      × IsWritten f panel_frame_size 9
          (needs_bootstrap state.setpoint_c r)
          (panel_code state r)
          r
          event
          out
unfolding write_panel panel_code
apply_control-IsWritten f r event {state} l p ok =
    let boot = needs_bootstrap state.setpoint_c r in
    let code = panel_code state r in
    let g = write_panel state r event f in
    let body = λ (j : ℕ). body-byte r f 9 code j boot event (omega arith) (omega arith) in
    (
      finalize g panel_frame_size,
      apply_control-eq f r event p ok,
      IsWritten-finalize f g panel_frame_size 9 boot code r event (omega arith)
          (parse_panel_parts f p).3 ((body 0).0 ∙ l) (λ j. (body j).1),
    )

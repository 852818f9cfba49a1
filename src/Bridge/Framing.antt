-- ===== src/Bridge/Framing.antt =====
-- main/bridge_service.c: how `consume_byte` cuts the byte streams into frames.
use lin_tac09cpbpsl_esp32c.Common.{
  ℕ, suc, ◌+◌, ◌≤◌, ◌<◌, ◌≡◌, refl, ◌∙◌, true, false, ◌&&◌, List, [], ◌∷◌, ◌++◌, length,
  length-append, none, some, Bool-cases, Option-cases, ◌⊎◌, inl, inr, ltb, ◌==◌, arith,
}
use lin_tac09cpbpsl_esp32c.Protocol.Wire.{header_0, panel_frame_size, main_frame_size}
use lin_tac09cpbpsl_esp32c.Protocol.Frame.{expected_size}
use lin_tac09cpbpsl_esp32c.Bridge.Types.{Profile, Side, Kind, Service}
use lin_tac09cpbpsl_esp32c.Bridge.Mirror.{Results}
use lin_tac09cpbpsl_esp32c.Bridge.Stream.{
  Stream, hybrid_byte, flush_stream_raw, start_frame, check_length, check_complete, append_byte,
  flush_reason, consume_loop, consume_byte,
}
use lin_tac09cpbpsl_esp32c.Bridge.Hybrid.{SameFrame, hybrid_byte-SameFrame}

-- What a stream holds between two bytes: the start of a frame, shorter than the size that its
-- header announces. The size is known from the third byte on.
pub record IsFramed (st : Stream) : Type 0 where
  pub short : length st.bytes < 3 → st.expected ≡ 0
  pub long :
      3 ≤ length st.bytes
      → ((st.expected ≡ panel_frame_size) ⊎ (st.expected ≡ main_frame_size))
        × (length st.bytes < st.expected)

-- An empty stream is framed.
empty-IsFramed : (st : Stream) → st.bytes ≡ [] → st.expected ≡ 0 → IsFramed st
empty-IsFramed st b e = record {
  short = λ _. e;
  long = λ (h : 3 ≤ length st.bytes). absurd (ground arith);
}

flush_stream_raw-empty :
    (p : Profile) (side : Side) (reason : Kind) (st : Stream) (s : Service)
    → 0 < length st.bytes
    → let t = (flush_stream_raw p side reason st s).0 in (t.bytes ≡ []) × (t.expected ≡ 0)
unfolding flush_stream_raw
flush_stream_raw-empty p side reason st s h =
    let e : (length st.bytes == 0) ≡ false = ground arith in rw e (refl, refl)

pub flush_stream_raw-IsFramed :
    (p : Profile) (side : Side) (reason : Kind) (st : Stream) (s : Service)
    → IsFramed st
    → IsFramed (flush_stream_raw p side reason st s).0
      × (length (flush_stream_raw p side reason st s).0.bytes ≡ 0)
unfolding flush_stream_raw
flush_stream_raw-IsFramed p side reason st s v = elim (Bool-cases (length st.bytes == 0)) [
  | inl e ↦ rw e (v, ground arith)
  | inr e ↦ rw e (empty-IsFramed _ refl refl, refl)
]

IsFramed-start :
    (byte now : ℕ) (st t : Stream)
    → SameFrame t (record st { bytes = byte ∷ [] })
    → st.expected ≡ 0
    → IsFramed (record t { last_byte_us = now })
IsFramed-start byte now st t same e = record {
  short = λ _. same.1 ∙ e;
  long = λ (h : 3 ≤ length t.bytes). absurd (ground arith);
}

start_frame-IsFramed :
    (p : Profile) (side : Side) (now byte : ℕ) (st : Stream) (s : Service)
    → length st.bytes ≡ 0
    → IsFramed st
    → IsFramed (start_frame p side now byte st s).0
unfolding start_frame
start_frame-IsFramed p side now byte st s h v = elim (Bool-cases (byte == header_0)) [
  | inl e ↦ rw e (
      IsFramed-start byte now st (hybrid_byte p side 0 byte (record st { bytes = byte ∷ [] }) s).0
        (hybrid_byte-SameFrame p side 0 byte (record st { bytes = byte ∷ [] }) s)
        (v.short (omega arith)))
  | inr e ↦ rw e (record { short = v.short; long = v.long })
]

-- What `ac_protocol_expected_size` answers of three bytes.
expected_size_cases :
    (bytes : List ℕ)
    → (expected_size bytes 3 ≡ 0)
      ⊎ (expected_size bytes 3 ≡ panel_frame_size)
      ⊎ (expected_size bytes 3 ≡ main_frame_size)
unfolding expected_size
expected_size_cases bytes = ground arith

-- Behind one more byte, before the frame is complete: the sizes allow equality.
record IsGrown (st : Stream) : Type 0 where
  short : length st.bytes < 3 → st.expected ≡ 0
  long :
      3 ≤ length st.bytes
      → ((st.expected ≡ panel_frame_size) ⊎ (st.expected ≡ main_frame_size))
        × (length st.bytes ≤ st.expected)

check_length-IsGrown :
    (p : Profile) (side : Side) (st : Stream) (s : Service)
    → (length st.bytes < 3 → st.expected ≡ 0)
    → (4 ≤ length st.bytes
        → ((st.expected ≡ panel_frame_size) ⊎ (st.expected ≡ main_frame_size))
          × (length st.bytes ≤ st.expected))
    → IsGrown (check_length p side st s).0
unfolding check_length
check_length-IsGrown p side st s h k = elim (Bool-cases (length st.bytes == 3)) [
  | inr e ↦ rw e (record { short = h; long = λ (g : 3 ≤ length st.bytes). ground arith })
  | inl e ↦ elim (Bool-cases (expected_size st.bytes 3 == 0)) [
    | inl f ↦
        let st' = record st { expected = expected_size st.bytes 3 } in
        let t = (flush_stream_raw p side Kind.bad_length st' s).0 in
        let empty = flush_stream_raw-empty p side Kind.bad_length st' s (ground arith) in
        rw (e, f)
          (record {
            short = λ _. empty.1;
            long = λ (g : 3 ≤ length t.bytes). absurd (ground arith);
          })
    | inr f ↦
        rw (e, f)
          (record {
            short = λ (g : length st.bytes < 3). absurd (ground arith);
            long = λ _. ground (arith, expected_size_cases st.bytes);
          })
  ]
]

check_complete-IsFramed :
    (p : Profile) (d : Results) (side : Side) (now : ℕ) (st : Stream) (s : Service)
    → IsGrown st
    → IsFramed (check_complete p d side now st s).0
unfolding check_complete
check_complete-IsFramed p d side now st s v =
    elim (Bool-cases (ltb 0 st.expected && length st.bytes == st.expected)) [
      | inl e ↦ rw e (empty-IsFramed _ refl refl)
      | inr e ↦
          rw e
            (record { short = v.short; long = λ (h : 3 ≤ length st.bytes). ground (arith, v.long) })
    ]

length-snoc : (xs : List ℕ) (x : ℕ) → length (xs ++ (x ∷ [])) ≡ length xs + 1
length-snoc xs x = length-append xs (x ∷ [])

append_byte-IsFramed :
    (p : Profile) (d : Results) (side : Side) (now byte : ℕ) (st : Stream) (s : Service)
    → IsFramed st
    → IsFramed (append_byte p d side now byte st s).0
unfolding append_byte
append_byte-IsFramed p d side now byte st s v =
    let grown = record st { bytes = st.bytes ++ (byte ∷ []) } in
    let (st1, s1) = hybrid_byte p side (length st.bytes) byte grown s in
    let same = hybrid_byte-SameFrame p side (length st.bytes) byte grown s in
    let st1' = record st1 { last_byte_us = now } in
    let len = length-snoc st.bytes byte in
    let (st2, s2) = check_length p side st1' s1 in
    check_complete-IsFramed p d side now st2 s2 (
      check_length-IsGrown p side st1' s1 (λ (h : length st1.bytes < 3). ground (arith, v.short))
        (λ (h : 4 ≤ length st1.bytes). ground (arith, v.long)))

IsFramed-lt : (t : Stream) → IsFramed t → length t.bytes < main_frame_size
IsFramed-lt t v = elim (Bool-cases (ltb (length t.bytes) 3)) [
  | inl e ↦ ground arith
  | inr e ↦ ground (arith, v.long (ground arith))
]

-- The three ways on of the loop.
module _ (p : Profile) (d : Results) (side : Side) (now byte rounds : ℕ) (st : Stream)
    (s : Service) where
  pub loop-start :
      length st.bytes ≡ 0
      → consume_loop p d side now byte (suc rounds) st s ≡ some (start_frame p side now byte st s)
  unfolding consume_loop
  loop-start h = let e : (length st.bytes == 0) ≡ true = ground arith in rw (e, consume_loop)

  pub loop-append :
      (length st.bytes == 0) ≡ false
      → flush_reason st byte ≡ none
      → consume_loop p d side now byte (suc rounds) st s ≡ some (append_byte p d side now byte st s)
  unfolding consume_loop
  loop-append e f = rw (e, f, consume_loop)

  pub loop-flush :
      (reason : Kind)
      → (length st.bytes == 0) ≡ false
      → flush_reason st byte ≡ some reason
      → consume_loop p d side now byte (suc rounds) st s ≡ (
          let (st', s') = flush_stream_raw p side reason st s in
          consume_loop p d side now byte rounds st' s')
  unfolding consume_loop
  loop-flush reason e f = rw (e, f, consume_loop)

-- `consume_byte` always ends, within its two rounds, and leaves a stream that is framed again: the
-- bytes held never exceed 21, so the buffer of 64 does not overflow.
pub consume_byte-IsFramed :
    (p : Profile) (d : Results) (side : Side) (now byte : ℕ) (st : Stream) (s : Service)
    → IsFramed st
    → (t : Stream) × (u : Service) × (consume_byte p d side now byte st s ≡ some (t, u))
      × IsFramed t
      × (length t.bytes < main_frame_size)
unfolding consume_byte
consume_byte-IsFramed p d side now byte st s v = elim (Bool-cases (length st.bytes == 0)) [
  | inl e ↦
      let (t, u) = start_frame p side now byte st s in
      let w = start_frame-IsFramed p side now byte st s (ground arith) v in
      (t, u, loop-start p d side now byte 1 st s (ground arith), w, IsFramed-lt t w)
  | inr e ↦ elim (Option-cases (flush_reason st byte)) [
    | inl f ↦
        let (t, u) = append_byte p d side now byte st s in
        let w = append_byte-IsFramed p d side now byte st s v in
        (t, u, loop-append p d side now byte 1 st s e f, w, IsFramed-lt t w)
    | inr (reason, f) ↦
        let (st', s') = flush_stream_raw p side reason st s in
        let (flushed, empty) = flush_stream_raw-IsFramed p side reason st s v in
        let (t, u) = start_frame p side now byte st' s' in
        let w = start_frame-IsFramed p side now byte st' s' empty flushed in
        (
          t,
          u,
          loop-flush p d side now byte 1 st s reason e f
              ∙ loop-start p d side now byte 0 st' s' empty,
          w,
          IsFramed-lt t w,
        )
  ]
]

-- ===== src/Clients/Web/Buffer.antt =====
-- main/web_service.c: the text of a response, in a buffer of a fixed size.
use lin_tac09cpbpsl_esp32c.Common.{
  ℕ, ◌+◌, ◌-◌, ◌<◌, ◌≡◌, refl, sym, ◌∙◌, ap, Bool, true, false, ◌||◌, List, [], ◌∷◌, ◌++◌, length,
  take, ltb, leb, ◌==◌, if◌then◌else◌, Bool-cases, inl, inr, length-append, take_short, take_prefix,
  append_nil, append_one, append_assoc, arith,
}

-- `append_char`, with the text that is in the buffer, without the zero byte at its end.
unfoldable pub append_char : ℕ → List ℕ → ℕ → Bool × List ℕ
append_char capacity buffer value =
    if leb capacity (length buffer + 1) then (false, buffer) else (true, buffer ++ value ∷ [])

-- `append_text`
unfoldable pub append_text : ℕ → List ℕ → List ℕ → Bool × List ℕ
unfolding append_char
append_text capacity buffer [] = (true, buffer)
append_text capacity buffer (value ∷ values) =
    let (ok, next) = append_char capacity buffer value in
    let rest = append_text capacity next values in if ok then rest else (false, next)

-- The characters that `append_json_escaped` puts for one of the text: a backslash and a letter for a
-- quote, a backslash, and three of the control characters; nothing for the other ones.
unfoldable pub escape : ℕ → List ℕ
escape value =
    if value == 34 || value == 92
    then 92 ∷ value ∷ []
    else if value == 10
    then 92 ∷ 110 ∷ []
    else if value == 13
    then 92 ∷ 114 ∷ []
    else if value == 9
    then 92 ∷ 116 ∷ []
    else if leb 0x20 value
    then value ∷ []
    else []

-- `append_json_escaped`
unfoldable pub append_json_escaped : ℕ → List ℕ → List ℕ → Bool × List ℕ
unfolding append_text escape
append_json_escaped capacity buffer [] = (true, buffer)
append_json_escaped capacity buffer (value ∷ values) =
    let (ok, next) = append_text capacity buffer (escape value) in
    let rest = append_json_escaped capacity next values in if ok then rest else (false, next)

-- The whole text with its escapes.
unfoldable pub escaped : List ℕ → List ℕ
escaped [] = []
escaped (value ∷ values) = escape value ++ escaped values

-- A text that is cut so that it fits into the buffer with its zero byte, and whether it was whole.
abbrev pub fitted : ℕ → List ℕ → Bool × List ℕ
fitted capacity text = (ltb (length text) capacity, take (capacity - 1) text)

pub append_text-fitted :
    (capacity : ℕ) (buffer values : List ℕ)
    → length buffer < capacity
    → append_text capacity buffer values ≡ fitted capacity (buffer ++ values)
unfolding append_text append_char
append_text-fitted capacity buffer [] h =
    let whole : ltb (length buffer) capacity ≡ true = ground arith in
    rw (append_nil buffer, take_short (capacity - 1) buffer (omega arith), whole) refl
append_text-fitted capacity buffer (value ∷ values) h =
    elim (Bool-cases (leb capacity (length buffer + 1))) [
      | inl p ↦
          let cut : ltb (length (buffer ++ value ∷ values)) capacity ≡ false =
            ground (arith, length-append buffer (value ∷ values)) in
          let full =
            take_prefix (capacity - 1) buffer (value ∷ values) (ground arith)
            ∙ take_short (capacity - 1) buffer (omega arith) in
          rw (p, cut, full) refl
      | inr p ↦ rw p (
          append_text-fitted capacity (buffer ++ value ∷ []) values
            (ground (arith, length-append buffer (value ∷ [])))
          ∙ ap (fitted capacity) (append_one buffer values value))
    ]

-- `append_json_escaped` puts the escaped text behind what is in the buffer, cut so that the buffer
-- with its zero byte is not overrun, and returns whether it was whole.
pub append_json_escaped-fitted :
    (capacity : ℕ) (buffer values : List ℕ)
    → length buffer < capacity
    → append_json_escaped capacity buffer values ≡ fitted capacity (buffer ++ escaped values)
unfolding append_json_escaped escaped
append_json_escaped-fitted capacity buffer [] h = append_text-fitted capacity buffer [] h
append_json_escaped-fitted capacity buffer (value ∷ values) h =
    let next = buffer ++ escape value in
    let step = append_text-fitted capacity buffer (escape value) h in
    elim (Bool-cases (ltb (length next) capacity)) [
      | inl p ↦
          let same = take_short (capacity - 1) next (ground arith) in
          rw (step, p, same)
            (append_json_escaped-fitted capacity next values (ground arith)
              ∙ ap (fitted capacity) (append_assoc buffer (escape value) (escaped values)))
      | inr p ↦
          let cut : ltb (length (next ++ escaped values)) capacity ≡ false =
            ground (arith, length-append next (escaped values)) in
          let full = take_prefix (capacity - 1) next (escaped values) (ground arith) in
          rw (step, p)
            (ap (λ b. (b, take (capacity - 1) next)) (sym cut)
              ∙ ap (λ t. (ltb (length (next ++ escaped values)) capacity, t)) (sym full)
              ∙ ap (fitted capacity) (append_assoc buffer (escape value) (escaped values)))
    ]

-- ===== src/Clients/Mqtt/Payload.antt =====
-- main/mqtt_service.c: the text of a payload, as a string, a number or a JSON object.
use lin_tac09cpbpsl_esp32c.Common.{
  ℕ, ◌+◌, ◌-◌, ◌^◌, Bool, true, not, ◌&&◌, ◌||◌, List, [], ◌∷◌, Option, none, some, length, get_or,
  take, drop, ltb, leb, ◌==◌, if◌then◌else◌,
}
use lin_tac09cpbpsl_esp32c.Clients.Json.{Library}

-- MQTT_MAX_COMMAND_PAYLOAD
abbrev pub max_payload : ℕ
max_payload = 768

-- A buffer as a text: what stands before the first zero byte.
unfoldable pub c_string : List ℕ → List ℕ
c_string [] = []
c_string (x ∷ xs) = let rest = c_string xs in if x == 0 then [] else x ∷ rest

module _ (j : Library) where
  -- `is_space_only`
  unfoldable pub is_space_only : List ℕ → Bool
  is_space_only [] = true
  is_space_only (x ∷ xs) = j.is_space x && is_space_only xs

  -- `parse_complete_json`
  unfoldable pub parse_complete_json : List ℕ → Option j.Value
  unfolding is_space_only c_string
  parse_complete_json bytes =
      if length bytes == 0 || ltb max_payload (length bytes) || not (j.calloc (length bytes + 1))
      then none
      else elim (j.parse_opts bytes) [
        | none ↦ none
        | some (root, end) ↦
            if j.is_object root && is_space_only (c_string end) then some root else none
      ]

  unfoldable pub skip_space : List ℕ → List ℕ
  skip_space [] = []
  skip_space (x ∷ xs) = let rest = skip_space xs in if j.is_space x then rest else x ∷ xs

  -- The loop from the end: what stands before the spaces at the end.
  unfoldable pub drop_space : List ℕ → List ℕ
  drop_space [] = []
  drop_space (x ∷ xs) = elim (drop_space xs) [
    | [] ↦ if j.is_space x then [] else x ∷ []
    | y ∷ ys ↦ x ∷ y ∷ ys
  ]

  -- `parse_string_payload`, for a buffer of `out_len` bytes.
  unfoldable pub parse_string_payload : List ℕ → ℕ → Option (List ℕ)
  unfolding skip_space drop_space parse_complete_json c_string
  parse_string_payload bytes out_len =
      let trimmed = drop_space (skip_space bytes) in
      if length bytes == 0
        || ltb max_payload (length bytes)
        || length trimmed == 0
        || leb out_len (length trimmed)
      then none
      else if get_or trimmed 0 0 == 34
      then elim (parse_complete_json trimmed) [
        | none ↦ none
        | some root ↦ elim (j.string_of root) [
          | none ↦ none
          | some value ↦ some (take (out_len - 1) value)
        ]
      ]
      else some (c_string trimmed)

  -- What follows the digits: a fraction of zeros is skipped.
  unfoldable pub skip_zeros : List ℕ → List ℕ
  skip_zeros [] = []
  skip_zeros (x ∷ xs) = let rest = skip_zeros xs in if x == 48 then rest else x ∷ xs

  unfoldable pub skip_fraction : List ℕ → Option (List ℕ)
  unfolding skip_zeros
  skip_fraction end =
      if get_or end 0 0 == 46
      then (if get_or end 1 0 == 0 || not (j.is_digit (get_or end 1 0))
          then none
          else some (skip_zeros (drop 1 end)))
      else some end

  -- `parse_integer_payload`: the sign and the magnitude of the number.
  unfoldable pub parse_integer_payload : List ℕ → Option (Bool × ℕ)
  unfolding skip_space skip_fraction is_space_only c_string
  parse_integer_payload bytes =
      let start = skip_space (c_string bytes) in
      let (negative, parsed, read) = j.strtol start in
      if length bytes == 0 || ltb 32 (length bytes)
      then none
      else if read == 0 || ltb (if negative then 2 ^ 31 else 2 ^ 31 - 1) parsed
      then none
      else elim (skip_fraction (drop read start)) [
        | none ↦ none
        | some end ↦ if is_space_only end then some (negative, parsed) else none
      ]

-- ===== src/Clients/Web/Line.antt =====
-- main/web_service.c: how long the parts of an exported line are, with and without their escapes.
use lin_tac09cpbpsl_esp32c.Common.{
  ℕ, ◌+◌, ◌-◌, ◌*◌, ◌/◌, ◌%◌, ◌^◌, ◌≤◌, ◌≡◌, refl, Bool, true, not, ◌&&◌, List, [], ◌∷◌, ◌++◌,
  length, take, ltb, leb, ◌==◌, Bool-cases, inl, inr, length-append, length-take, codes, decimal,
  print_u32, print_i64, hex_digit, hex_byte, hex_loop, IsDigits, decimal-IsDigits, length-decimal,
  arith,
}
use lin_tac09cpbpsl_esp32c.Capture.Layout.{data_max, FlashRecord}
use lin_tac09cpbpsl_esp32c.Clients.Mqtt.Payload.{c_string}
use lin_tac09cpbpsl_esp32c.Clients.Web.Buffer.{escape, escaped}
use lin_tac09cpbpsl_esp32c.Clients.Web.Export.{bytes_to_hex, direction_name, kind_name, frame_text}

-- The length of a text with its escapes.
abbrev pub width : List ℕ → ℕ
width xs = length (escaped xs)

width_cons : (x : ℕ) (xs : List ℕ) → width (x ∷ xs) ≡ length (escape x) + width xs
unfolding escaped
width_cons x xs = length-append (escape x) (escaped xs)

width_nil : width [] ≡ 0
unfolding escaped
width_nil = refl

escape-short : (x : ℕ) → length (escape x) ≤ 2
unfolding escape
escape-short x = ground arith

escape-plain : (x : ℕ) → 35 ≤ x → x ≤ 91 → length (escape x) ≡ 1
unfolding escape
escape-plain x h k = ground arith

-- At most so long without, and with its escapes.
abbrev pub IsShort : ℕ → ℕ → List ℕ → Type 0
IsShort k w xs = (length xs ≤ k) × (width xs ≤ w)

width-append : (xs ys : List ℕ) → width (xs ++ ys) ≡ width xs + width ys
width-append [] ys = omega (arith, width_nil)
width-append (x ∷ xs) ys =
    omega (arith, width_cons x xs, width_cons x (xs ++ ys), width-append xs ys)

pub IsShort-append :
    {a b c d : ℕ} (xs ys : List ℕ)
    → IsShort a b xs
    → IsShort c d ys
    → IsShort (a + c) (b + d) (xs ++ ys)
IsShort-append xs ys h k = (omega (arith, length-append xs ys), omega (arith, width-append xs ys))

-- A text of any characters.
pub any-IsShort : (n : ℕ) (xs : List ℕ) → length xs ≤ n → IsShort n (2 * n) xs
any-IsShort n [] h = (h, omega (arith, width_nil))
any-IsShort n (x ∷ xs) h =
    let (a, b) = any-IsShort (n - 1) xs (omega arith) in
    (h, omega (arith, width_cons x xs, escape-short x))

digits-IsShort : (n : ℕ) (xs : List ℕ) → IsDigits xs → length xs ≤ n → IsShort n n xs
digits-IsShort n [] h k = (k, omega (arith, width_nil))
digits-IsShort n (x ∷ xs) (a, b, h) k =
    let (c, d) = digits-IsShort (n - 1) xs h (omega arith) in
    (k, omega (arith, width_cons x xs, escape-plain x (omega arith) (omega arith)))

decimal-IsShort : (size n : ℕ) → IsShort size size (decimal size n)
decimal-IsShort size n =
    digits-IsShort size (decimal size n) (decimal-IsDigits size n) (length-decimal size n)

pub print_u32-IsShort : (n : ℕ) → IsShort 10 10 (print_u32 n)
unfolding print_u32
print_u32-IsShort n = decimal-IsShort 10 n

pub print_i64-IsShort : (n : ℕ) → IsShort 20 20 (print_i64 n)
unfolding print_i64
print_i64-IsShort n = elim (Bool-cases (ltb n (2 ^ 63))) [
  | inl p ↦ rw p (let (a, b) = decimal-IsShort 19 n in (omega arith, omega arith))
  | inr p ↦ rw p (
      let (a, b) = decimal-IsShort 19 (2 ^ 64 - n) in
      (omega arith, omega (arith, width_cons 45 (decimal 19 (2 ^ 64 - n)), escape-plain 45)))
]

hex-plain : (x : ℕ) → length (escape (hex_digit 65 (x % 16))) ≡ 1
unfolding hex_digit
hex-plain x = escape-plain _ (ground arith) (ground arith)

hex_loop-IsShort :
    (size offset : ℕ) (xs : List ℕ)
    → IsShort (2 * length xs) (2 * length xs) (hex_loop size offset xs)
unfolding hex_loop hex_byte
hex_loop-IsShort size offset [] = (omega arith, omega (arith, width_nil))
hex_loop-IsShort size offset (x ∷ xs) =
    let (a, b) = hex_loop-IsShort size (offset + 2) xs in
    let rest = hex_loop size (offset + 2) xs in
    elim (Bool-cases (ltb (offset + 2) size)) [
      | inl p ↦ rw p (
        omega arith,
        omega (
          arith,
          width_cons (hex_digit 65 (x / 16 % 16)) (hex_digit 65 (x % 16) ∷ rest),
          width_cons (hex_digit 65 (x % 16)) rest,
          hex-plain (x / 16),
          hex-plain x,
        ),
      )
      | inr p ↦ rw p (omega arith, omega (arith, width_nil))
    ]

-- A text without quotes, backslashes and control characters, such as the literals.
unfoldable pub plain_text : List ℕ → Bool
plain_text [] = true
plain_text (x ∷ xs) = leb 32 x && not (x == 34) && not (x == 92) && plain_text xs

plain-escape : (x : ℕ) → (leb 32 x && not (x == 34) && not (x == 92)) ≡ true → length (escape x) ≡ 1
unfolding escape
plain-escape x h = ground arith

pub plain-IsShort : (n : ℕ) (xs : List ℕ) → plain_text xs ≡ true → length xs ≤ n → IsShort n n xs
unfolding plain_text
plain-IsShort n [] h k = (k, omega (arith, width_nil))
plain-IsShort n (x ∷ xs) h k =
    let (a, b) = plain-IsShort (n - 1) xs (ground arith) (omega arith) in
    (k, omega (arith, width_cons x xs, plain-escape x (ground arith)))

direction_name-IsShort : (direction : ℕ) → IsShort 13 13 (direction_name direction)
unfolding direction_name plain_text
direction_name-IsShort n = elim (Bool-cases (n == 1)) [
  | inl a ↦ rw a (plain-IsShort 13 (codes "panel_to_main") refl (omega arith))
  | inr a ↦ elim (Bool-cases (n == 2)) [
    | inl b ↦ rw (a, b) (plain-IsShort 13 (codes "main_to_panel") refl (omega arith))
    | inr b ↦ rw (a, b) (plain-IsShort 13 (codes "unknown") refl (omega arith))
  ]
]

kind_name-IsShort : (kind : ℕ) → IsShort 12 12 (kind_name kind)
unfolding kind_name plain_text
kind_name-IsShort n = elim (Bool-cases (n == 1)) [
  | inl a ↦ rw a (plain-IsShort 12 (codes "initial") refl (omega arith))
  | inr a ↦ elim (Bool-cases (n == 2)) [
    | inl b ↦ rw (a, b) (plain-IsShort 12 (codes "state_change") refl (omega arith))
    | inr b ↦ elim (Bool-cases (n == 3)) [
      | inl c ↦ rw (a, b, c) (plain-IsShort 12 (codes "event") refl (omega arith))
      | inr c ↦ elim (Bool-cases (n == 4)) [
        | inl d ↦ rw (a, b, c, d) (plain-IsShort 12 (codes "wifi_command") refl (omega arith))
        | inr d ↦ elim (Bool-cases (n == 5)) [
          | inl e ↦ rw (a, b, c, d, e) (plain-IsShort 12 (codes "error") refl (omega arith))
          | inr e ↦ rw (a, b, c, d, e) (plain-IsShort 12 (codes "unknown") refl (omega arith))
        ]
      ]
    ]
  ]
]

pub length-c_string : (xs : List ℕ) → length (c_string xs) ≤ length xs
unfolding c_string
length-c_string [] = omega arith
length-c_string (x ∷ xs) = ground (arith, length-c_string xs)

-- A literal in front.
pub literal_IsShort :
    {b d : ℕ} (n : ℕ) (xs ys : List ℕ)
    → plain_text xs ≡ true
    → length xs ≤ n
    → IsShort b d ys
    → IsShort (n + b) (n + d) (xs ++ ys)
literal_IsShort n xs ys h k l = IsShort-append xs ys (plain-IsShort n xs h k) l

hex-IsShort :
    (r : FlashRecord)
    → r.length ≤ data_max
    → IsShort 208 208 (bytes_to_hex (data_max + data_max + 1) r.data_bytes r.length)
unfolding bytes_to_hex
hex-IsShort r h =
    let (a, b) = hex_loop-IsShort 209 0 (take r.length r.data_bytes) in
    let e = length-take r.length r.data_bytes in (omega arith, omega arith)

pub frame_text-IsShort : (r : FlashRecord) → r.length ≤ data_max → IsShort 319 400 (frame_text r)
unfolding frame_text plain_text
frame_text-IsShort r h =
    let a = literal_IsShort 5 (codes ",hex=") _ refl (omega arith) (hex-IsShort r h) in
    let b =
      literal_IsShort 5 (codes ",len=") _ refl (omega arith)
        (IsShort-append (print_u32 r.length) _ (print_u32-IsShort r.length) a) in
    let c =
      literal_IsShort 6 (codes ",kind=") _ refl (omega arith)
        (IsShort-append (kind_name r.kind) _ (kind_name-IsShort r.kind) b) in
    let d =
      literal_IsShort 11 (codes ",direction=") _ refl (omega arith)
        (IsShort-append (direction_name r.direction) _ (direction_name-IsShort r.direction) c) in
    let (x, y) =
      literal_IsShort 11 (codes "FRAME,t_us=") _ refl (omega arith)
        (IsShort-append (print_i64 r.timestamp_us) _ (print_i64-IsShort r.timestamp_us) d) in
    (omega arith, omega arith)

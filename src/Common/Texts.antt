-- ===== src/Common/Texts.antt =====
-- Texts as lists of bytes: the literals of C, and the conversions of `snprintf` and `strtoull`.
use Prim.Native.Nat.{ℕ, zero, suc, ◌+◌, ◌-◌, ◌*◌, ◌/◌, ◌%◌, ◌^◌, ◌≤◌, ◌<◌}
use Prim.Native.Char.{code}
use Prim.Native.String.{String}
use mathlib.Core.Path.{◌≡◌, refl, ap, ◌∙◌}
use mathlib.Core.Logic.{inl, inr}
use mathlib.Core.Bool.{true, ◌&&◌, ◌||◌}
use mathlib.Core.List.{List, [], ◌∷◌, ◌++◌}
use native.Mathlib.Omega.{arith}
use lin_tac09cpbpsl_esp32c.Common.Tests.{ltb, leb, ◌==◌, if◌then◌else◌, Bool-cases}
use lin_tac09cpbpsl_esp32c.Common.Lists.{length, length-append}

-- The bytes of a literal, without the zero byte at its end. `String` has its own `[]` and `∷`.
abbrev pub codes : String → List ℕ
codes String.[] = []
codes (String.◌∷◌ c s) = code c ∷ codes s

-- `%u`, for a number of at most `size` digits.
unfoldable pub decimal : ℕ → ℕ → List ℕ
decimal zero n = []
decimal (suc size) n =
    let front = decimal size (n / 10) in
    if ltb n 10 then (48 + n) ∷ [] else front ++ ((48 + n % 10) ∷ [])

-- `PRIu32`, `PRIu64` and `PRId64`; the last one is given the bit pattern of the number.
unfoldable pub print_u32 : ℕ → List ℕ
unfolding decimal
print_u32 n = decimal 10 n

unfoldable pub print_u64 : ℕ → List ℕ
unfolding decimal
print_u64 n = decimal 20 n

unfoldable pub print_i64 : ℕ → List ℕ
unfolding decimal
print_i64 n = if ltb n (2 ^ 63) then decimal 19 n else 45 ∷ decimal 19 (2 ^ 64 - n)

-- A digit of `%02X`, or of `%02x`, for which the letters start at `b'a'`.
unfoldable pub hex_digit : ℕ → ℕ → ℕ
hex_digit letter value = if ltb value 10 then 48 + value else letter + (value - 10)

unfoldable pub hex_byte : ℕ → ℕ → List ℕ
unfolding hex_digit
hex_byte letter value = hex_digit letter (value / 16 % 16) ∷ hex_digit letter (value % 16) ∷ []

-- The loop that writes bytes with `%02X` into a buffer, of which `offset` bytes are used.
unfoldable pub hex_loop : ℕ → ℕ → List ℕ → List ℕ
unfolding hex_byte
hex_loop output_size offset [] = []
hex_loop output_size offset (x ∷ xs) =
    let rest = hex_loop output_size (offset + 2) xs in
    if ltb (offset + 2) output_size then hex_byte 65 x ++ rest else []

-- All bytes with `%02X`.
unfoldable pub hex_text : List ℕ → List ℕ
unfolding hex_byte
hex_text [] = []
hex_text (x ∷ xs) = hex_byte 65 x ++ hex_text xs

-- The number that a text of digits starts with, behind `n`.
unfoldable pub read_digits : ℕ → List ℕ → ℕ
read_digits n [] = n
read_digits n (x ∷ xs) =
    let rest = read_digits (10 * n + (x - 48)) xs in if leb 48 x && leb x 57 then rest else n

-- The least of the number and the greatest `uint64_t`.
unfoldable pub clamp_u64 : ℕ → ℕ
clamp_u64 n = if ltb n (2 ^ 64) then n else 2 ^ 64 - 1

-- `strtoull` in base 10: spaces, a sign, and digits. A minus sign negates the number.
unfoldable pub strtoull : List ℕ → ℕ
unfolding read_digits clamp_u64
strtoull [] = 0
strtoull (x ∷ xs) =
    let rest = strtoull xs in
    if x == 32 || (leb 9 x && leb x 13)
    then rest
    else if x == 43
    then clamp_u64 (read_digits 0 xs)
    else if x == 45
    then (if ltb (read_digits 0 xs) (2 ^ 64)
        then (2 ^ 64 - read_digits 0 xs) % 2 ^ 64
        else 2 ^ 64 - 1)
    else clamp_u64 (read_digits 0 (x ∷ xs))

-- Printing is at most as long as it is said to be.
pub length-decimal : (size n : ℕ) → length (decimal size n) ≤ size
unfolding decimal
length-decimal zero n = omega arith
length-decimal (suc size) n = ground (
  arith,
  length-decimal size (n / 10),
  length-append (decimal size (n / 10)) ((48 + n % 10) ∷ []),
)

-- Digits alone.
abbrev pub IsDigits : List ℕ → Type 0
IsDigits [] = Unit {0}
IsDigits (x ∷ xs) = (48 ≤ x) × (x ≤ 57) × IsDigits xs

IsDigits-append : (xs ys : List ℕ) → IsDigits xs → IsDigits ys → IsDigits (xs ++ ys)
IsDigits-append [] ys h k = k
IsDigits-append (x ∷ xs) ys (a, b, h) k = (a, b, IsDigits-append xs ys h k)

pub decimal-IsDigits : (size n : ℕ) → IsDigits (decimal size n)
unfolding decimal
decimal-IsDigits zero n = tt
decimal-IsDigits (suc size) n = elim (Bool-cases (ltb n 10)) [
  | inl p ↦ rw p (omega arith, ground arith, tt)
  | inr p ↦ rw p (
      IsDigits-append (decimal size (n / 10)) ((48 + n % 10) ∷ []) (decimal-IsDigits size (n / 10))
        (omega arith, omega arith, tt))
]

read_digits-append :
    (a : ℕ) (xs : List ℕ) (x : ℕ)
    → IsDigits xs
    → x < 10
    → read_digits a (xs ++ ((48 + x) ∷ [])) ≡ 10 * read_digits a xs + x
unfolding read_digits
read_digits-append a [] x h k = ground arith
read_digits-append a (y ∷ ys) x (b, c, h) k =
    ground (arith, read_digits-append (10 * a + (y - 48)) ys x h k)

-- Where there is room for all digits, the printed number is read back.
pub read_digits-decimal : (size n : ℕ) → n < 10 ^ size → read_digits 0 (decimal size n) ≡ n
unfolding decimal read_digits
read_digits-decimal zero n h = omega arith
read_digits-decimal (suc size) n h = elim (Bool-cases (ltb n 10)) [
  | inl p ↦ rw p (ground arith)
  | inr p ↦ rw p (
      read_digits-append 0 (decimal size (n / 10)) (n % 10) (decimal-IsDigits size (n / 10))
        (omega arith)
      ∙ omega (arith, read_digits-decimal size (n / 10) (omega arith)))
]

strtoull-digits : (xs : List ℕ) → IsDigits xs → strtoull xs ≡ clamp_u64 (read_digits 0 xs)
unfolding strtoull read_digits
strtoull-digits [] h = ground arith
strtoull-digits (x ∷ xs) (a, b, h) = ground arith

-- `strtoull` reads back what `PRIu64` prints.
pub strtoull-print_u64 : (n : ℕ) → n < 2 ^ 64 → strtoull (print_u64 n) ≡ n
unfolding print_u64 clamp_u64
strtoull-print_u64 n h =
    strtoull-digits (decimal 20 n) (decimal-IsDigits 20 n)
    ∙ ground (arith, read_digits-decimal 20 n (omega arith))

-- A buffer that is large enough takes all bytes.
pub hex_loop-whole :
    (size offset : ℕ) (xs : List ℕ)
    → offset + 2 * length xs < size
    → hex_loop size offset xs ≡ hex_text xs
unfolding hex_loop hex_text
hex_loop-whole size offset [] h = refl
hex_loop-whole size offset (x ∷ xs) h =
    let fits : ltb (offset + 2) size ≡ true = ground arith in
    rw fits (ap (λ t. hex_byte 65 x ++ t) (hex_loop-whole size (offset + 2) xs (omega arith)))

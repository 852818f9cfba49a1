-- ===== src/Protocol/Checksum.antt =====
-- The check byte of main/ac_protocol.c: after `finalize`, and in a frame with a wrong byte.
use lin_tac09cpbpsl_esp32c.Common.{
  ℕ, zero, suc, ◌≤◌, ◌<◌, bit_xor, ◌≡◌, refl, ◌∙◌, ap, ◌≢◌, sym, ◌↔◌, Bool-cases, ◌⊎◌, inl, inr,
  true, false, List, [], ◌∷◌, length, get_or, set, length-set, get_or-set, arith,
}
use lin_tac09cpbpsl_esp32c.Common.Bits.{bit_xor-zero, xor_assoc, xor_comm, xor_self, xor_cancel}
use lin_tac09cpbpsl_esp32c.Protocol.Wire.{xor_target, panel_frame_size, main_frame_size}
use lin_tac09cpbpsl_esp32c.Protocol.Frame.{xor_loop, xor, known_size, checksum_valid, finalize}

-- A write at the end of the range, or behind it, leaves the loop alone.
xor_loop-set_ge :
    (value : ℕ) (bytes : List ℕ) (n i x : ℕ)
    → n ≤ i
    → xor_loop value (set bytes i x) n ≡ xor_loop value bytes n
unfolding xor_loop
xor_loop-set_ge value bytes zero i x h = refl
xor_loop-set_ge value [] (suc n) i x h = refl
xor_loop-set_ge value (b ∷ bytes) (suc n) zero x h = absurd (omega arith)
xor_loop-set_ge value (b ∷ bytes) (suc n) (suc i) x h =
    xor_loop-set_ge (bit_xor value b) bytes n i x (omega arith)

-- The value that the loop starts from is added to its result.
xor_loop-start :
    (v w : ℕ) (bytes : List ℕ) (n : ℕ)
    → xor_loop (bit_xor v w) bytes n ≡ bit_xor v (xor_loop w bytes n)
unfolding xor_loop
xor_loop-start v w bytes zero = refl
xor_loop-start v w [] (suc n) = refl
xor_loop-start v w (b ∷ bytes) (suc n) =
    rw (xor_assoc v w b) (xor_loop-start v (bit_xor w b) bytes n)

-- The loop over one byte more.
xor_loop-suc :
    (value : ℕ) (bytes : List ℕ) (n : ℕ)
    → n < length bytes
    → xor_loop value bytes (suc n) ≡ bit_xor (xor_loop value bytes n) (get_or bytes n 0)
unfolding xor_loop
xor_loop-suc value [] n h = elim h [ ]
xor_loop-suc value (b ∷ bytes) zero h = refl
xor_loop-suc value (b ∷ bytes) (suc n) h = xor_loop-suc (bit_xor value b) bytes n (omega arith)

swap_byte : (v b x : ℕ) → bit_xor v x ≡ bit_xor (bit_xor b x) (bit_xor v b)
swap_byte v b x =
    cc (xor_comm b x, xor_comm v b, xor_assoc x b (bit_xor b v), xor_cancel b v, xor_comm x v)

-- A write inside the range adds the old and the new byte.
xor_loop-set :
    (value : ℕ) (bytes : List ℕ) (n i x : ℕ)
    → i < n
    → i < length bytes
    → xor_loop value (set bytes i x) n
      ≡ bit_xor (bit_xor (get_or bytes i 0) x) (xor_loop value bytes n)
unfolding xor_loop
xor_loop-set value bytes zero i x h g = absurd (omega arith)
xor_loop-set value [] (suc n) i x h g = elim g [ ]
xor_loop-set value (b ∷ bytes) (suc n) zero x h g =
    ap (λ v. xor_loop v bytes n) (swap_byte value b x)
    ∙ xor_loop-start (bit_xor b x) (bit_xor value b) bytes n
xor_loop-set value (b ∷ bytes) (suc n) (suc i) x h g =
    xor_loop-set (bit_xor value b) bytes n i x (omega arith) (omega arith)

xor-eq_cancel : (a x c : ℕ) → bit_xor (bit_xor a x) c ≡ c → a ≡ x
xor-eq_cancel a x c h = cc (
  xor_comm (bit_xor a x) c,
  xor_cancel c (bit_xor a x),
  xor_self c,
  h,
  xor_cancel a x,
  bit_xor-zero a,
)

pub known_size_cases :
    (bytes : List ℕ) (n : ℕ)
    → known_size bytes n ≡ true
    → (n ≡ panel_frame_size) ⊎ (n ≡ main_frame_size)
unfolding known_size
known_size_cases bytes n h = ground arith

-- Writes elsewhere than to the length byte keep a known size known.
known_size-set :
    (bytes : List ℕ) (n i x : ℕ) → i ≢ 2 → known_size (set bytes i x) n ≡ known_size bytes n
unfolding known_size
known_size-set bytes n i x h = ground (arith, get_or-set bytes i 2 x 0)

xor-set_last :
    (bytes : List ℕ) (m c : ℕ)
    → m < length bytes
    → xor (set bytes m c) (suc m) ≡ bit_xor (xor bytes m) c
unfolding xor
xor-set_last bytes m c h = ground (
  arith,
  xor_loop-suc 0 (set bytes m c) m,
  xor_loop-set_ge 0 bytes m m c,
  length-set bytes m c,
  get_or-set bytes m m c 0,
)

finalize-eq :
    (bytes : List ℕ) (m : ℕ)
    → known_size bytes (suc m) ≡ true
    → finalize bytes (suc m) ≡ set bytes m (bit_xor (xor bytes m) xor_target)
unfolding finalize
finalize-eq bytes m h = ground (arith, known_size_cases bytes (suc m) h)

pub checksum_valid_iff :
    (bytes : List ℕ) (n : ℕ)
    → (checksum_valid bytes n ≡ true) ↔ (known_size bytes n ≡ true) × (xor bytes n ≡ xor_target)
unfolding checksum_valid
checksum_valid_iff bytes n = ground (arith, known_size_cases bytes n)

finalize_valid_suc :
    (bytes : List ℕ) (m : ℕ)
    → known_size bytes (suc m) ≡ true
    → length bytes ≡ suc m
    → (checksum_valid (finalize bytes (suc m)) (suc m) ≡ true)
      × (length (finalize bytes (suc m)) ≡ suc m)
      × ((i : ℕ) → suc i ≢ suc m → get_or (finalize bytes (suc m)) i 0 ≡ get_or bytes i 0)
finalize_valid_suc bytes m k e =
    let check = bit_xor (xor bytes m) xor_target in
    rw (finalize-eq bytes m k) (
      (checksum_valid_iff (set bytes m check) (suc m)).1 (
        ground (arith, known_size_cases bytes (suc m) k, known_size-set bytes (suc m) m check),
        ground (arith, xor-set_last bytes m check, xor_cancel (xor bytes m) xor_target),
      ),
      ground (arith, length-set bytes m check),
      λ i h. ground (arith, get_or-set bytes m i check 0),
    )

-- A frame of a known size is valid after `finalize`, which keeps its length and every byte but
-- the last.
pub finalize_valid :
    (bytes : List ℕ) (n : ℕ)
    → known_size bytes n ≡ true
    → length bytes ≡ n
    → (checksum_valid (finalize bytes n) n ≡ true)
      × (length (finalize bytes n) ≡ n)
      × ((i : ℕ) → suc i ≢ n → get_or (finalize bytes n) i 0 ≡ get_or bytes i 0)
finalize_valid bytes zero k e = absurd (omega (arith, known_size_cases bytes zero k))
finalize_valid bytes (suc m) k e = finalize_valid_suc bytes m k e

-- In a valid frame a change of any one byte, the length byte and the check byte included, makes
-- the check fail.
pub corruption_detected :
    (bytes : List ℕ) (n i x : ℕ)
    → length bytes ≡ n
    → checksum_valid bytes n ≡ true
    → i < n
    → x ≢ get_or bytes i 0
    → checksum_valid (set bytes i x) n ≡ false
unfolding xor
corruption_detected bytes n i x e v lt ne = elim (Bool-cases (checksum_valid (set bytes i x) n)) [
  | inl bad ↦
      let before = (checksum_valid_iff bytes n).0 v in
      let after = (checksum_valid_iff (set bytes i x) n).0 bad in
      absurd (
        ne (
          sym (
            xor-eq_cancel (get_or bytes i 0) x xor_target
              (ground (arith, xor_loop-set 0 bytes n i x)))))
  | inr good ↦ good
]

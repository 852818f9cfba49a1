-- ===== src/Clients/Web/Token.antt =====
-- main/web_service.c: `secure_token_equal` against a comparison that stops at the first difference.
use lin_tac09cpbpsl_esp32c.Common.{
  ℕ, zero, suc, ◌+◌, ◌<◌, ◌≡◌, refl, sym, ◌∙◌, ap, subst, bit_or, bit_xor, Bool, true, false, List,
  [], ◌∷◌, length, get_or, ltb, if◌then◌else◌, arith,
}
use lin_tac09cpbpsl_esp32c.Common.Bits.{or_eq_zero, xor_eq_zero, xor_self}
use lin_tac09cpbpsl_esp32c.Bridge.Update.{same_bytes}
use lin_tac09cpbpsl_esp32c.Clients.Web.{token_loop, secure_token_equal}

here_or_later :
    (e c : List ℕ) (n i : ℕ)
    → get_or e i 0 ≡ get_or c i 0
    → ((k : ℕ) → k < n → get_or e (i + 1 + k) 0 ≡ get_or c (i + 1 + k) 0)
    → (k : ℕ) → k < suc n
    → get_or e (i + k) 0 ≡ get_or c (i + k) 0
here_or_later e c n i h t zero l = let z : i + 0 ≡ i = omega arith in rw z h
here_or_later e c n i h t (suc k) l =
    let z : i + suc k ≡ i + 1 + k = omega arith in rw z (t k (omega arith))

-- What the loop leaves at 0: the start value, and the differences of all rounds.
loop_zero :
    (e c : List ℕ) (n i d : ℕ)
    → token_loop e c n i d ≡ 0
    → (d ≡ 0) × ((k : ℕ) → k < n → get_or e (i + k) 0 ≡ get_or c (i + k) 0)
unfolding token_loop
loop_zero e c zero i d h = (h, λ k l. absurd (omega arith))
loop_zero e c (suc n) i d h =
    let (first, rest) =
      loop_zero e c n (i + 1) (bit_or d (bit_xor (get_or e i 0) (get_or c i 0))) h in
    let (start, here) = or_eq_zero d _ first in
    (start, here_or_later e c n i (xor_eq_zero _ _ here) rest)

loop_same : (e : List ℕ) (n i : ℕ) → token_loop e e n i 0 ≡ 0
unfolding token_loop
loop_same e zero i = refl
loop_same e (suc n) i =
    ap (token_loop e e n (i + 1)) (ap (bit_or 0) (xor_self (get_or e i 0))) ∙ loop_same e n (i + 1)

pointwise_same :
    (xs ys : List ℕ)
    → length xs ≡ length ys
    → ((k : ℕ) → k < length xs → get_or xs k 0 ≡ get_or ys k 0)
    → same_bytes xs ys ≡ true
unfolding same_bytes
pointwise_same [] [] l h = refl
pointwise_same [] (y ∷ ys) l h = absurd (omega arith)
pointwise_same (x ∷ xs) [] l h = absurd (omega arith)
pointwise_same (x ∷ xs) (y ∷ ys) l h =
    let head : x ≡ y = h 0 (omega arith) in
    let tail = pointwise_same xs ys (omega arith) (λ k m. h (suc k) (omega arith)) in
    rw tail (ground arith)

same_eq : (xs ys : List ℕ) → same_bytes xs ys ≡ true → xs ≡ ys
unfolding same_bytes
same_eq [] [] h = refl
same_eq [] (y ∷ ys) h = absurd (ground arith)
same_eq (x ∷ xs) [] h = absurd (ground arith)
same_eq (x ∷ xs) (y ∷ ys) h =
    let head : x ≡ y = ground arith in
    ap (λ z. z ∷ xs) head ∙ ap (λ zs. y ∷ zs) (same_eq xs ys (ground arith))

true_token : (e c : List ℕ) → secure_token_equal e c ≡ true → same_bytes e c ≡ true
unfolding secure_token_equal
true_token e c h =
    let rounds = if ltb (length c) (length e) then length e else length c in
    let (start, all) = loop_zero e c rounds 0 (bit_xor (length e) (length c)) (ground arith) in
    let l = xor_eq_zero (length e) (length c) start in
    pointwise_same e c l (λ k m.
      let z : 0 + k ≡ k = omega arith in
      subst (λ q. get_or e q 0 ≡ get_or c q 0) z (all k (ground arith)))

own_token : (e : List ℕ) → secure_token_equal e e ≡ true
unfolding secure_token_equal
own_token e =
    rw (xor_self (length e))
      (rw (loop_same e (if ltb (length e) (length e) then length e else length e) 0) refl)

equal_tests : (a b : Bool) → (a ≡ true → b ≡ true) → (b ≡ true → a ≡ true) → a ≡ b
equal_tests true b f g = sym (f refl)
equal_tests false true f g = g refl
equal_tests false false f g = refl

-- `secure_token_equal` gives the same result as a comparison of the two texts that stops at the
-- first difference.
pub secure_token_equal-eq-same_bytes :
    (expected candidate : List ℕ)
    → secure_token_equal expected candidate ≡ same_bytes expected candidate
secure_token_equal-eq-same_bytes e c =
    equal_tests _ _ (true_token e c)
      (λ h. subst (λ x. secure_token_equal e x ≡ true) (same_eq e c h) (own_token e))

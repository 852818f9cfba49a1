-- ===== src/Capture/Next.antt =====
-- main/capture_store.c: the search of `capture_store_get_after`.
use lin_tac09cpbpsl_esp32c.Common.{
  ℕ, zero, suc, ◌+◌, ◌≤◌, ◌<◌, ◌≡◌, ◌≢◌, refl, sym, ◌∙◌, ap, ◌&&◌, ◌||◌, ◌⊎◌, inl, inr, List, [],
  ◌∷◌, length, get_or, ltb, ◌==◌, if◌then◌else◌, Bool-cases, arith,
}
use lin_tac09cpbpsl_esp32c.Capture.Store.{Wanted, find_loop}

-- `w` names the slot with the least sequence number above `after`, and has the number 0 where there
-- is none.
pub record IsNext (after : ℕ) (slots : List ℕ) (w : Wanted) : Type 0 where
  pub inside : w.sequence ≢ 0 → w.slot < length slots
  pub holds : w.sequence ≢ 0 → get_or slots w.slot 0 ≡ w.sequence
  pub above : w.sequence ≢ 0 → after < w.sequence
  pub least :
      (i : ℕ)
      → i < length slots
      → after < get_or slots i 0
      → (w.sequence ≢ 0) × (w.sequence ≤ get_or slots i 0)

-- A round of the loop: the slot is taken or the earlier one is kept.
better : ℕ → ℕ → ℕ → Wanted → Wanted
better after sequence slot w =
    if ltb after sequence && (w.sequence == 0 || ltb sequence w.sequence)
    then record { sequence = sequence; slot = slot }
    else w

better_lem :
    (after x slot : ℕ) (w : Wanted)
    → ((better after x slot w ≡ w)
        ⊎ ((better after x slot w ≡ record { sequence = x; slot = slot }) × (after < x)))
      × (w.sequence ≢ 0
          → ((better after x slot w).sequence ≢ 0)
            × ((better after x slot w).sequence ≤ w.sequence))
      × (after < x
          → ((better after x slot w).sequence ≢ 0) × ((better after x slot w).sequence ≤ x))
unfolding better
better_lem after x slot w =
    elim (Bool-cases (ltb after x && (w.sequence == 0 || ltb x w.sequence))) [
      | inl p ↦ rw p (ground arith)
      | inr p ↦ rw p (ground arith)
    ]

find_loop-eq :
    (after x slot : ℕ) (slots : List ℕ) (w : Wanted)
    → find_loop after (x ∷ slots) slot w ≡ find_loop after slots (slot + 1) (better after x slot w)
unfolding find_loop better
find_loop-eq after x slot slots w = refl

-- The loop, from a slot that was found before.
record IsSearch (after slot : ℕ) (slots : List ℕ) (w u : Wanted) : Type 0 where
  from :
      (u ≡ w)
      ⊎ ((i : ℕ) × (i < length slots)
          × (u.slot ≡ slot + i)
          × (get_or slots i 0 ≡ u.sequence)
          × (after < u.sequence))
  down : w.sequence ≢ 0 → (u.sequence ≢ 0) × (u.sequence ≤ w.sequence)
  least :
      (i : ℕ)
      → i < length slots
      → after < get_or slots i 0
      → (u.sequence ≢ 0) × (u.sequence ≤ get_or slots i 0)

find_loop-nil : (after slot : ℕ) (w : Wanted) → find_loop after [] slot w ≡ w
unfolding find_loop
find_loop-nil after slot w = refl

-- What the rounds after the first one find, seen from the first one.
from_lem :
    (after slot x : ℕ) (slots : List ℕ) (w b u : Wanted)
    → (b ≡ w) ⊎ ((b ≡ record { sequence = x; slot = slot }) × (after < x))
    → (u ≡ b)
      ⊎ ((i : ℕ) × (i < length slots)
          × (u.slot ≡ slot + 1 + i)
          × (get_or slots i 0 ≡ u.sequence)
          × (after < u.sequence))
    → (u ≡ w)
      ⊎ ((i : ℕ) × (i < length (x ∷ slots))
          × (u.slot ≡ slot + i)
          × (get_or (x ∷ slots) i 0 ≡ u.sequence)
          × (after < u.sequence))
from_lem after slot x slots w b u (inl p) (inl q) = inl (q ∙ p)
from_lem after slot x slots w b u (inr (p, h)) (inl q) =
    let e = q ∙ p in inr (0, omega arith, ground arith, sym (ap (λ t. t.sequence) e), ground arith)
from_lem after slot x slots w b u p (inr (i, a, c, d, e)) =
    inr (suc i, omega arith, omega arith, d, e)

least_lem :
    (after x : ℕ) (slots : List ℕ) (b u : Wanted)
    → (after < x → (b.sequence ≢ 0) × (b.sequence ≤ x))
    → (b.sequence ≢ 0 → (u.sequence ≢ 0) × (u.sequence ≤ b.sequence))
    → ((i : ℕ)
        → i < length slots
        → after < get_or slots i 0
        → (u.sequence ≢ 0) × (u.sequence ≤ get_or slots i 0))
    → (i : ℕ) → i < length (x ∷ slots)
    → after < get_or (x ∷ slots) i 0
    → (u.sequence ≢ 0) × (u.sequence ≤ get_or (x ∷ slots) i 0)
least_lem after x slots b u t d l zero h k = ground (arith, t, d)
least_lem after x slots b u t d l (suc i) h k = l i (omega arith) k

find_loop-IsSearch :
    (after slot : ℕ) (slots : List ℕ) (w : Wanted)
    → IsSearch after slot slots w (find_loop after slots slot w)
find_loop-IsSearch after slot [] w =
    rw (find_loop-nil after slot w)
      (record { from = inl refl; down = λ h. (h, omega arith); least = λ i h k. elim h [ ] })
find_loop-IsSearch after slot (x ∷ slots) w =
    let (kind, lower, taken) = better_lem after x slot w in
    let v = find_loop-IsSearch after (slot + 1) slots (better after x slot w) in
    rw (find_loop-eq after x slot slots w) (record {
      from = from_lem after slot x slots w _ _ kind v.from;
      down = λ h. ground (arith, lower, v.down);
      least =
          least_lem after x slots (better after x slot w)
            (find_loop after slots (slot + 1) (better after x slot w)) taken v.down v.least;
    })

wanted-IsNext :
    (after : ℕ) (slots : List ℕ) (u : Wanted)
    → (u ≡ record { sequence = 0; slot = 0 })
      ⊎ ((i : ℕ) × (i < length slots)
          × (u.slot ≡ 0 + i)
          × (get_or slots i 0 ≡ u.sequence)
          × (after < u.sequence))
    → ((i : ℕ)
        → i < length slots
        → after < get_or slots i 0
        → (u.sequence ≢ 0) × (u.sequence ≤ get_or slots i 0))
    → IsNext after slots u
wanted-IsNext after slots u (inl e) l =
    let e' : u.sequence ≡ 0 = ap (λ t. t.sequence) e in
    record {
      inside = λ h. absurd (h e');
      holds = λ h. absurd (h e');
      above = λ h. absurd (h e');
      least = l;
    }
wanted-IsNext after slots u (inr (i, a, c, d, e)) l =
    let c' : u.slot ≡ i = omega arith in
    record { inside = λ h. omega arith; holds = λ h. rw c' d; above = λ h. e; least = l }

-- The loop of `capture_store_get_after` finds the slot with the least sequence number above the
-- given one, and the number 0 where no slot has such a number.
pub find_loop-IsNext :
    (after : ℕ) (slots : List ℕ)
    → IsNext after slots (find_loop after slots 0 (record { sequence = 0; slot = 0 }))
find_loop-IsNext after slots =
    let v = find_loop-IsSearch after 0 slots (record { sequence = 0; slot = 0 }) in
    wanted-IsNext after slots _ v.from v.least

-- ===== src/Telemetry/Ring.antt =====
-- main/telemetry.c: the ring holds the last 96 of all the lines that were published.
use lin_tac09cpbpsl_esp32c.Common.{
  ℕ, ◌+◌, ◌-◌, ◌%◌, ◌^◌, ◌≤◌, ◌<◌, ◌≡◌, ◌≢◌, refl, ◌∙◌, ap, true, false, not, ◌&&◌, List, [], ◌∷◌,
  none, some, length, get_or, set, ltb, leb, ◌==◌, if◌then◌else◌, Bool-cases, inl, inr, arith,
  get_or-set, length-set,
}
use lin_tac09cpbpsl_esp32c.Telemetry.{
  ring_entries, Entry, Telemetry, telemetry_init, slot, telemetry_publish, oldest,
  telemetry_get_after,
}

-- All lines of a run, the newest first, published one after the other.
unfoldable pub publish_all : List (List ℕ) → Telemetry
publish_all [] = telemetry_init true
publish_all (line ∷ lines) = telemetry_publish true line (publish_all lines)

-- The line with the index `k`, counted from the start of the run.
unfoldable pub line_at : List (List ℕ) → ℕ → List ℕ
line_at [] k = []
line_at (line ∷ lines) k = if k == length lines then line else line_at lines k

record IsRing (lines : List (List ℕ)) (t : Telemetry) : Type 0 where
  locked : t.locked ≡ true
  sized : length t.entries ≡ ring_entries
  latest : t.latest_sequence ≡ length lines
  slots :
      (k : ℕ) (d : Entry)
      → k < length lines
      → length lines ≤ k + ring_entries
      → get_or t.entries (k % ring_entries) d ≡ record { sequence = k + 1; text = line_at lines k }

small : (n : ℕ) → n < 2 ^ 64 → n % 2 ^ 64 ≡ n
small n h = omega arith

slot_suc : (n : ℕ) → n + 1 < 2 ^ 64 → slot (n + 1) ≡ n % ring_entries
unfolding slot
slot_suc n h = ap (λ x. x % ring_entries) (omega arith)

publish_eq :
    (n : ℕ) (line : List ℕ) (t : Telemetry)
    → n + 1 < 2 ^ 64
    → t.locked ≡ true
    → t.latest_sequence ≡ n
    → telemetry_publish true line t ≡ record t {
      entries = set t.entries (n % ring_entries) (record { sequence = n + 1; text = line });
      latest_sequence = n + 1;
    }
unfolding telemetry_publish
publish_eq n line t h l e = rw (l, e, small (n + 1) h, slot_suc n h) refl

start-IsRing : IsRing [] (telemetry_init true)
unfolding telemetry_init
start-IsRing = record { locked = refl; sized = refl; latest = refl; slots = λ k d h l. elim h [ ] }

-- What a slot holds after the write of the next line.
written_slot :
    (lines : List (List ℕ)) (line : List ℕ) (entries : List Entry) (k : ℕ) (d : Entry)
    → length entries ≡ ring_entries
    → ((j : ℕ) (e : Entry)
        → j < length lines
        → length lines ≤ j + ring_entries
        → get_or entries (j % ring_entries) e ≡ record { sequence = j + 1; text = line_at lines j })
    → k < length lines + 1
    → length lines + 1 ≤ k + ring_entries
    → get_or
        (set entries
          (length lines % ring_entries)
          (record { sequence = length lines + 1; text = line }))
        (k % ring_entries)
        d
      ≡ record { sequence = k + 1; text = if k == length lines then line else line_at lines k }
written_slot lines line entries k d sz slots h l =
    get_or-set entries (length lines % ring_entries) (k % ring_entries) _ d
    ∙ elim (Bool-cases (k == length lines)) [
      | inl e ↦
          let n : length lines ≡ k = ground arith in
          let hit : (length lines % ring_entries == k % ring_entries) ≡ true = ground arith in
          let inside : ltb (length lines % ring_entries) (length entries) ≡ true = ground arith in
          rw (hit, inside, e) (ap (λ x. record { sequence = x + 1; text = line }) n)
      | inr e ↦
          let n : length lines % ring_entries ≢ k % ring_entries = ground arith in
          let miss : (length lines % ring_entries == k % ring_entries) ≡ false = ground arith in
          rw (miss, e) (slots k d (ground arith) (ground arith))
    ]

publish-IsRing :
    (lines : List (List ℕ)) (line : List ℕ) (t : Telemetry)
    → length lines + 1 < 2 ^ 64
    → IsRing lines t
    → IsRing (line ∷ lines) (telemetry_publish true line t)
unfolding line_at
publish-IsRing lines line t b v =
    rw (publish_eq (length lines) line t b v.locked v.latest) (record {
      locked = v.locked;
      sized = length-set _ _ _ ∙ v.sized;
      latest = omega arith;
      slots = λ k d h l.
          written_slot lines line t.entries k d v.sized v.slots (omega arith) (omega arith);
    })

publish_all-IsRing :
    (lines : List (List ℕ)) → length lines < 2 ^ 64 → IsRing lines (publish_all lines)
unfolding publish_all
publish_all-IsRing [] h = start-IsRing
publish_all-IsRing (line ∷ lines) h =
    publish-IsRing lines line (publish_all lines) (omega arith)
      (publish_all-IsRing lines (omega arith))

-- The number of the first line after the line `after` that is still in the ring, where there is
-- one: a reader that is too far behind goes on at the oldest line.
unfoldable pub next_line : ℕ → ℕ → ℕ
next_line count after =
    if ltb (after + ring_entries) count then count - ring_entries + 1 else after + 1

wanted_eq :
    (count after : ℕ)
    → after < count
    → (if ltb (after + 1) (oldest count) then oldest count else after + 1) ≡ next_line count after
unfolding oldest next_line
wanted_eq count after h = ground arith

past_all :
    (count after : ℕ)
    → ltb after count ≡ false
    → let wanted = if ltb (after + 1) (oldest count) then oldest count else after + 1 in
      (not (wanted == 0) && leb wanted count) ≡ false
unfolding oldest
past_all count after h = ground arith

-- The number of the next line, and the number before it as an index.
next_line-lt :
    (count after : ℕ)
    → after < count
    → (k : ℕ) × (next_line count after ≡ k + 1) × (k < count) × (count ≤ k + ring_entries)
unfolding next_line
next_line-lt count after h = (next_line count after - 1, ground arith, ground arith, ground arith)

read_next :
    (lines : List (List ℕ)) (after : ℕ) (t : Telemetry) (d : Entry)
    → length lines < 2 ^ 64
    → after < length lines
    → IsRing lines t
    → let n = next_line (length lines) after in
      (if not (n == 0) && leb n (length lines) then some (get_or t.entries (slot n) d) else none)
      ≡ some (record { sequence = n; text = line_at lines (n - 1) })
read_next lines after t d b h v =
    let (k, e, lt, le) = next_line-lt (length lines) after h in
    let found : leb (k + 1) (length lines) ≡ true = ground arith in
    let positive : (k + 1 == 0) ≡ false = ground arith in
    let index : k + 1 - 1 ≡ k = omega arith in
    rw (e, slot_suc k (omega arith), positive, found, index) (ap some (v.slots k d lt le))

-- A reader that has seen the lines up to the number `after` gets the next line of the run that the
-- ring still holds, with its number; it gets nothing exactly where it has seen every line.
pub telemetry_get_after-publish_all :
    (lines : List (List ℕ)) (after : ℕ)
    → length lines < 2 ^ 64
    → after + 1 < 2 ^ 64
    → telemetry_get_after true after (publish_all lines) ≡ (
        if ltb after (length lines)
        then some (record {
          sequence = next_line (length lines) after;
          text = line_at lines (next_line (length lines) after - 1);
        })
        else none)
unfolding telemetry_get_after
telemetry_get_after-publish_all lines after h k =
    let v = publish_all-IsRing lines h in
    let t = publish_all lines in
    rw (v.locked, v.latest, small (after + 1) k)
      (elim (Bool-cases (ltb after (length lines))) [
        | inl e ↦
            rw (e, wanted_eq (length lines) after (ground arith))
              (read_next lines after t _ h (ground arith) v)
        | inr e ↦ rw (e, past_all (length lines) after e) refl
      ])

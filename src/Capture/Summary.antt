-- ===== src/Capture/Summary.antt =====
-- main/capture_store.c: `refresh_info_locked` against the array.
use lin_tac09cpbpsl_esp32c.Common.{
  ℕ, ◌+◌, ◌≤◌, ◌≡◌, ◌≢◌, refl, Bool, true, false, ◌||◌, ◌⊎◌, inl, inr, List, [], ◌∷◌, length, take,
  ◌==◌, if◌then◌else◌, Bool-cases, ==_refl, arith,
}
use lin_tac09cpbpsl_esp32c.Capture.Store.{
  Info, Store, Summary, count_slot, summary_loop, no_summary, refresh_info,
}

-- The slots that hold a record.
unfoldable pub stored : List ℕ → List ℕ
stored [] = []
stored (sequence ∷ slots) =
    let rest = stored slots in if sequence == 0 then rest else sequence ∷ rest

-- Whether a number is among those of a list.
unfoldable pub holds : ℕ → List ℕ → Bool
holds n [] = false
holds n (x ∷ xs) = n == x || holds n xs

-- What the counters say of the sequence numbers in the slots that hold a record.
pub record IsSummary (found : List ℕ) (info : Info) : Type 0 where
  pub count : info.valid_records ≡ length found
  pub empty : length found ≡ 0 → (info.oldest_sequence ≡ 0) × (info.latest_sequence ≡ 0)
  pub least : (n : ℕ) → holds n found ≡ true → info.oldest_sequence ≤ n
  pub most : (n : ℕ) → holds n found ≡ true → n ≤ info.latest_sequence
  pub oldest : length found ≢ 0 → holds info.oldest_sequence found ≡ true
  pub latest : length found ≢ 0 → holds info.latest_sequence found ≡ true

-- The loop from a summary of the slots before.
record IsTally (found : List ℕ) (t u : Summary) : Type 0 where
  count : u.count ≡ t.count + length found
  up : t.latest ≤ u.latest
  down : t.oldest ≢ 0 → (u.oldest ≤ t.oldest) × (u.oldest ≢ 0)
  least : (n : ℕ) → holds n found ≡ true → (u.oldest ≤ n) × (u.oldest ≢ 0)
  most : (n : ℕ) → holds n found ≡ true → n ≤ u.latest
  oldest : (u.oldest ≡ t.oldest) ⊎ (holds u.oldest found ≡ true)
  latest : (u.latest ≡ t.latest) ⊎ (holds u.latest found ≡ true)

count_slot-up :
    (x : ℕ) (t : Summary)
    → x ≢ 0
    → ((count_slot x t).count ≡ t.count + 1)
      × (t.latest ≤ (count_slot x t).latest)
      × (x ≤ (count_slot x t).latest)
      × ((count_slot x t).oldest ≢ 0)
      × ((count_slot x t).oldest ≤ x)
      × (((count_slot x t).oldest ≡ t.oldest) ⊎ ((count_slot x t).oldest ≡ x))
      × (((count_slot x t).latest ≡ t.latest) ⊎ ((count_slot x t).latest ≡ x))
      × (t.oldest ≢ 0 → (count_slot x t).oldest ≤ t.oldest)
unfolding count_slot
count_slot-up x t h = ground arith

summary_loop-IsTally :
    (slots : List ℕ) (t : Summary) → IsTally (stored slots) t (summary_loop slots t)
unfolding summary_loop stored holds
summary_loop-IsTally [] t = record {
  count = omega arith;
  up = omega arith;
  down = λ h. (omega arith, h);
  least = λ n h. ground arith;
  most = λ n h. ground arith;
  oldest = inl refl;
  latest = inl refl;
}
summary_loop-IsTally (x ∷ slots) t = elim (Bool-cases (x == 0)) [
  | inl p ↦ rw p (summary_loop-IsTally slots t)
  | inr p ↦
      let c = count_slot-up x t (ground arith) in
      let v = summary_loop-IsTally slots (count_slot x t) in
      rw p (record {
        count = ground (arith, v.count, c);
        up = ground (arith, v.up, c);
        down = λ h. ground (arith, v.down, c);
        least = λ n h. ground (arith, v.down, v.least n, c);
        most = λ n h. ground (arith, v.up, v.most n, c);
        oldest = ground (arith, v.oldest, c);
        latest = ground (arith, v.latest, c);
      })
]

first_holds : (x : ℕ) (xs : List ℕ) → holds x (x ∷ xs) ≡ true
unfolding holds
first_holds x xs = rw (==_refl x) refl

no_records :
    (info : Info) (u : Summary)
    → info.valid_records ≡ u.count
    → info.oldest_sequence ≡ u.oldest
    → info.latest_sequence ≡ u.latest
    → IsTally [] no_summary u
    → IsSummary [] info
unfolding holds
no_records info u a b c v = record {
  count = ground (arith, v.count);
  empty = λ h. ground (arith, v.oldest, v.latest, b, c);
  least = λ n h. ground (arith, v.least n);
  most = λ n h. ground (arith, v.most n);
  oldest = λ h. ground arith;
  latest = λ h. ground arith;
}

some_records :
    (x : ℕ) (found : List ℕ) (info : Info) (u : Summary)
    → info.valid_records ≡ u.count
    → info.oldest_sequence ≡ u.oldest
    → info.latest_sequence ≡ u.latest
    → IsTally (x ∷ found) no_summary u
    → IsSummary (x ∷ found) info
some_records x found info u a b c v =
    let low = v.least x (first_holds x found) in
    let high = v.most x (first_holds x found) in
    record {
      count = ground (arith, v.count);
      empty = λ h. ground arith;
      least = λ n h. ground (arith, v.least n, b);
      most = λ n h. ground (arith, v.most n, c);
      oldest = λ h. rw b (ground (arith, v.oldest));
      latest = λ h. rw c (ground (arith, v.latest));
    }

summary_of_loop :
    (found : List ℕ) (info : Info) (u : Summary)
    → info.valid_records ≡ u.count
    → info.oldest_sequence ≡ u.oldest
    → info.latest_sequence ≡ u.latest
    → IsTally found no_summary u
    → IsSummary found info
summary_of_loop [] info u a b c v = no_records info u a b c v
summary_of_loop (x ∷ found) info u a b c v = some_records x found info u a b c v

-- `refresh_info_locked` counts the slots that hold a record, and stores the least and the greatest
-- of their sequence numbers, 0 for both where no slot holds one.
pub refresh_info-IsSummary :
    (s : Store) → IsSummary (stored (take s.slot_count s.slot_sequences)) (refresh_info s).info
unfolding refresh_info
refresh_info-IsSummary s =
    summary_of_loop _ _ (summary_loop (take s.slot_count s.slot_sequences) no_summary) refl refl
      refl (summary_loop-IsTally (take s.slot_count s.slot_sequences) no_summary)

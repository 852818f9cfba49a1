-- ===== src/Clients/Web/Exported.antt =====
-- main/web_service.c: the turns of `capture_export_handler`, over the records of the log.
use lin_tac09cpbpsl_esp32c.Common.{
  ℕ, zero, suc, ◌+◌, ◌*◌, ◌^◌, ◌≤◌, ◌<◌, ◌≡◌, refl, sym, ap, ◌∙◌, subst, Bool, true, false, List,
  [], ◌∷◌, map, Option, none, some, get_or, Bool-cases, Option-cases, inl, inr, arith,
}
use lin_tac09cpbpsl_esp32c.Capture.Layout.{data_max, record_size, FlashRecord, record_valid}
use lin_tac09cpbpsl_esp32c.Capture.Flash.{Flash}
use lin_tac09cpbpsl_esp32c.Capture.Store.{Store, read_slot, capture_store_get_after}
use lin_tac09cpbpsl_esp32c.Capture.Inv.{IsLog}
use lin_tac09cpbpsl_esp32c.Capture.Mirror.{IsMirror}
use lin_tac09cpbpsl_esp32c.Capture.Answer.{Answers, get_after-Answers}
use lin_tac09cpbpsl_esp32c.Clients.Web.Export.{
  Turn, ExportErr, export_loop, export_fuel, first_after, export_result, capture_export_handler,
}
use lin_tac09cpbpsl_esp32c.Clients.Web.Whole.{full_line, export_line-full_line}

-- The store while the server reads it: the log is well-formed, its array agrees with the flash, and
-- holds numbers of 32 bits.
pub record IsReadable (f : Flash) (c : f.Contents) (s : Store) : Type 0 where
  pub is_log : IsLog s
  pub is_mirror : IsMirror f c s
  pub numbers : (i : ℕ) → i < s.slot_count → get_or s.slot_sequences i 0 < 2 ^ 32

read_slot-length :
    (f : Flash) (c : f.Contents) (slot : ℕ) (r : FlashRecord)
    → read_slot f c slot ≡ some r
    → r.length ≤ data_max
unfolding read_slot record_valid
read_slot-length f c slot r e = elim (Option-cases (f.read c (slot * record_size))) [
  | inl a ↦ ground arith
  | inr (bytes, a) ↦ ground arith
]

-- A record that the store hands out is no longer than its array.
get_after-length :
    (f : Flash) (taken : Bool) (after : ℕ) (c : Option f.Contents) (s : Store) (r : FlashRecord)
    → capture_store_get_after f taken after c s ≡ some r
    → r.length ≤ data_max
unfolding capture_store_get_after
get_after-length f taken after none s r e = ground arith
get_after-length f taken after (some c) s r e = ground (arith, read_slot-length f c)

-- It is handed out only under the mutex.
get_after-under :
    (f : Flash) (taken : Bool) (after : ℕ) (c : f.Contents) (s : Store) (r : FlashRecord)
    → capture_store_get_after f taken after (some c) s ≡ some r
    → (taken ≡ true) × (s.locked ≡ true)
unfolding capture_store_get_after
get_after-under f taken after c s r e = ground arith

-- What it hands out is the next record, and its number has 32 bits.
next_record :
    (f : Flash) (taken : Bool) (after : ℕ) (c : f.Contents) (s : Store) (r : FlashRecord)
    → IsReadable f c s
    → capture_store_get_after f taken after (some c) s ≡ some r
    → Answers f c after s (some r) × (r.sequence < 2 ^ 32)
next_record f taken after c s r v e =
    let (t, l) = get_after-under f taken after c s r e in
    let answer =
      subst (Answers f c after s)
        (sym (ap (λ b. capture_store_get_after f b after (some c) s) t) ∙ e)
        (get_after-Answers f after c s v.is_log v.is_mirror l) in
    let (i, inside, same, held) = answer.1 in
    let bound = v.numbers i inside in (answer, omega arith)

-- Every turn of the loop finds the store readable, where it finds it at all.
abbrev pub AllReadable : (f : Flash) → (ℕ → Turn f) → Type 0
AllReadable f turns =
    (k : ℕ) (c : f.Contents) → (turns k).contents ≡ some c → IsReadable f c (turns k).store

turn_record :
    (f : Flash) (turn : Turn f) (after : ℕ) (r : FlashRecord)
    → ((c : f.Contents) → turn.contents ≡ some c → IsReadable f c turn.store)
    → capture_store_get_after f turn.taken after turn.contents turn.store ≡ some r
    → (after < r.sequence) × (r.sequence < 2 ^ 32)
unfolding capture_store_get_after
turn_record f turn after r v e = elim (Option-cases (turn.contents)) [
  | inl a ↦
      absurd (ground (arith, ap (λ c. capture_store_get_after f turn.taken after c turn.store) a))
  | inr (c, a) ↦
      let (answer, bound) =
        next_record f turn.taken after c turn.store r (v c a)
          (sym (ap (λ c. capture_store_get_after f turn.taken after c turn.store) a) ∙ e) in
      (answer.0, bound)
]

-- The loop comes to its end, since the numbers grow.
export_loop-ends :
    (f : Flash) (fuel : ℕ) (turns : ℕ → Turn f) (k after : ℕ)
    → AllReadable f turns
    → 2 ^ 32 ≤ fuel + after
    → after < 2 ^ 32
    → (r : Bool × List (List ℕ)) × (export_loop f fuel turns k after ≡ some r)
unfolding export_loop
export_loop-ends f zero turns k after v h l = absurd (omega arith)
export_loop-ends f (suc fuel) turns k after v h l =
    let t = turns k in
    elim (Option-cases (capture_store_get_after f t.taken after t.contents t.store)) [
      | inl a ↦ rw (a, export_loop) ((true, []), refl)
      | inr (r, a) ↦
          let (x, y) = turn_record f t after r (v k) a in
          let whole =
            export_line-full_line r (get_after-length f t.taken after t.contents t.store r a) in
          elim (Bool-cases (t.sent)) [
            | inr b ↦ rw (a, whole, b, export_loop) ((false, []), refl)
            | inl b ↦
                let ((ended, chunks), e) =
                  export_loop-ends f fuel turns (suc k) r.sequence v (omega arith) y in
                rw (a, whole, b, e, export_loop) ((ended, full_line r ∷ chunks), refl)
          ]
    ]

first_after-bound : (n : ℕ) → first_after n < 2 ^ 32
unfolding first_after
first_after-bound n = ground arith

-- Whatever the other tasks write to the log between two turns, as long as it stays readable, and
-- whichever chunks are sent, the export ends after at most 2 ^ 32 turns.
pub capture_export_handler-ends :
    (f : Flash) (authorized : Bool) (requested_after : ℕ) (turns : ℕ → Turn f)
    → AllReadable f turns
    → (r : ExportErr) × (capture_export_handler f authorized requested_after turns ≡ some r)
unfolding capture_export_handler export_result
capture_export_handler-ends f false requested_after turns v = (ExportErr.unauthorized, refl)
capture_export_handler-ends f true requested_after turns v =
    let ((ended, chunks), e) =
      export_loop-ends f export_fuel turns 0 (first_after requested_after) v (omega arith)
        (first_after-bound requested_after) in
    (_, ap export_result e)

-- The records of the flash that a reader gets one after the other: each is the next one after the
-- last, and behind the last one there is none.
abbrev pub Exported : (f : Flash) → f.Contents → ℕ → Store → List FlashRecord → Type 0
Exported f c after s [] = Answers f c after s none
Exported f c after s (r ∷ rs) = Answers f c after s (some r) × Exported f c r.sequence s rs

-- Turns that all find the same store, and send their chunk.
abbrev pub steady : (f : Flash) → f.Contents → Store → ℕ → Turn f
steady f c s k = record { taken = true; contents = some c; store = s; sent = true }

export_loop-exports :
    (f : Flash) (c : f.Contents) (s : Store) (fuel k after : ℕ)
    → IsReadable f c s
    → s.locked ≡ true
    → 2 ^ 32 ≤ fuel + after
    → after < 2 ^ 32
    → (rs : List FlashRecord) × Exported f c after s rs
      × (export_loop f fuel (steady f c s) k after ≡ some (true, map full_line rs))
unfolding export_loop
export_loop-exports f c s zero k after v b h l = absurd (omega arith)
export_loop-exports f c s (suc fuel) k after v b h l =
    elim (Option-cases (capture_store_get_after f true after (some c) s)) [
      | inl a ↦
          let answer =
            subst (Answers f c after s) a (get_after-Answers f after c s v.is_log v.is_mirror b) in
          rw (a, export_loop) ([], answer, refl)
      | inr (r, a) ↦
          let (answer, y) = next_record f true after c s r v a in
          let whole = export_line-full_line r (get_after-length f true after (some c) s r a) in
          let (rs, exported, e) =
            export_loop-exports f c s fuel (suc k) r.sequence v b (ground (arith, answer.0)) y in
          rw (a, whole, e, export_loop) (r ∷ rs, (answer, exported), refl)
    ]

-- From a readable log that does not change, while the mutex is taken and every chunk is sent, an
-- authorized request is sent the whole line of each record numbered above the requested number, one
-- chunk for each. The records are those that the flash holds, valid, in the slots with these numbers;
-- each is the next one by number after the last, and behind the last the array has no greater number.
pub capture_export_handler-exports :
    (f : Flash) (c : f.Contents) (s : Store) (requested_after : ℕ)
    → IsReadable f c s
    → s.locked ≡ true
    → (rs : List FlashRecord) × Exported f c (first_after requested_after) s rs
      × (capture_export_handler f true requested_after (steady f c s)
          ≡ some (ExportErr.exported (map full_line rs)))
unfolding capture_export_handler export_result
capture_export_handler-exports f c s requested_after v l =
    let (rs, exported, e) =
      export_loop-exports f c s export_fuel 0 (first_after requested_after) v l (omega arith)
        (first_after-bound requested_after) in
    (rs, exported, ap export_result e)

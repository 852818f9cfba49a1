-- ===== src/Clients/Web/Listed.antt =====
-- main/web_service.c: the text that `logs_handler` sends, against the readings of the ring.
use lin_tac09cpbpsl_esp32c.Common.{
  ℕ, zero, suc, ◌+◌, ◌-◌, ◌*◌, ◌≤◌, ◌<◌, ◌≡◌, refl, sym, ◌∙◌, ap, subst, Bool, true, List, [], ◌∷◌,
  ◌++◌, Option, none, some, length, take, codes, print_u64, length-decimal, length-append,
  take_short, append_assoc, append_nil, Option-cases, inl, inr, arith,
}
use lin_tac09cpbpsl_esp32c.Telemetry.{Entry, Telemetry, telemetry_get_after}
use lin_tac09cpbpsl_esp32c.Clients.Web.Buffer.{
  append_text, escaped, append_text-fitted, append_json_escaped-fitted,
}
use lin_tac09cpbpsl_esp32c.Clients.Web.Line.{width}
use lin_tac09cpbpsl_esp32c.Clients.Web.Whole.{whole_fitted}
use lin_tac09cpbpsl_esp32c.Clients.Web.Logs.{
  json_buffer_size, logs_per_response, short_size, log_prefix, log_suffix, append_entry,
  after_entry, logs_loop, logs_handler,
}

length-log_prefix : (emitted sequence : ℕ) → length (log_prefix emitted sequence) ≤ 37
unfolding log_prefix print_u64
length-log_prefix emitted sequence =
    ground
      (arith, length-decimal 20 sequence, length-append (print_u64 sequence) (codes ",\"text\":\""))

length-log_suffix : (latest : ℕ) → length (log_suffix latest) ≤ 32
unfolding log_suffix print_u64
length-log_suffix latest =
    ground (arith, length-decimal 20 latest, length-append (print_u64 latest) (codes "}"))

-- An entry of the list, and all entries.
unfoldable pub log_entry : ℕ → Entry → List ℕ
log_entry emitted e = (log_prefix emitted e.sequence ++ escaped e.text) ++ codes "\"}"

unfoldable pub log_entries : ℕ → List Entry → List ℕ
log_entries emitted [] = []
log_entries emitted (e ∷ es) = log_entry emitted e ++ log_entries (suc emitted) es

append_entry-whole :
    (prefix text buffer : List ℕ)
    → length buffer + length prefix + width text + 2 < json_buffer_size
    → append_entry prefix text buffer ≡ (true, ((buffer ++ prefix) ++ escaped text) ++ codes "\"}")
unfolding append_entry
append_entry-whole prefix text buffer h =
    let l = length-append buffer prefix in
    let m = length-append (buffer ++ prefix) (escaped text) in
    let n = length-append ((buffer ++ prefix) ++ escaped text) (codes "\"}") in
    let first =
      append_text-fitted json_buffer_size buffer prefix (omega arith)
      ∙ whole_fitted json_buffer_size (buffer ++ prefix) (omega arith) in
    let second =
      append_json_escaped-fitted json_buffer_size (buffer ++ prefix) text (omega arith)
      ∙ whole_fitted json_buffer_size ((buffer ++ prefix) ++ escaped text) (omega arith) in
    let third =
      append_text-fitted json_buffer_size ((buffer ++ prefix) ++ escaped text) (codes "\"}")
        (omega arith)
      ∙ whole_fitted json_buffer_size (((buffer ++ prefix) ++ escaped text) ++ codes "\"}")
          (omega arith) in
    rw (first, second, third) refl

-- The parts of an entry behind the buffer, as one text.
behind : (a b c d : List ℕ) → ((a ++ b) ++ c) ++ d ≡ a ++ ((b ++ c) ++ d)
behind a b c d = ap (λ x. x ++ d) (append_assoc a b c) ∙ append_assoc a (b ++ c) d

append_entry-log_entry :
    (emitted : ℕ) (e : Entry) (buffer : List ℕ)
    → length buffer + width e.text + 39 < json_buffer_size
    → append_entry (take (short_size - 1) (log_prefix emitted e.sequence)) e.text buffer
      ≡ (true, buffer ++ log_entry emitted e)
unfolding log_entry
append_entry-log_entry emitted e buffer h =
    let p = length-log_prefix emitted e.sequence in
    ap (λ x. append_entry x e.text buffer)
      (take_short (short_size - 1) (log_prefix emitted e.sequence) (omega arith))
    ∙ append_entry-whole (log_prefix emitted e.sequence) e.text buffer (omega arith)
    ∙ ap (λ x. (true, x))
        (behind buffer (log_prefix emitted e.sequence) (escaped e.text) (codes "\"}"))

length-log_entry : (emitted : ℕ) (e : Entry) → length (log_entry emitted e) ≤ width e.text + 39
unfolding log_entry
length-log_entry emitted e = omega (
  arith,
  length-log_prefix emitted e.sequence,
  length-append (log_prefix emitted e.sequence) (escaped e.text),
  length-append (log_prefix emitted e.sequence ++ escaped e.text) (codes "\"}"),
)

-- What a turn of the loop reads.
abbrev pub read_turn : (ℕ → Bool × Telemetry) → ℕ → ℕ → Option Entry
read_turn turns k after = telemetry_get_after (turns k).0 after (turns k).1

-- The entries that are read one after the other, up to `left` of them: each with the number of the
-- one before, and where there are fewer, the next reading finds none.
abbrev pub Listed : ℕ → (ℕ → Bool × Telemetry) → ℕ → ℕ → List Entry → Type 0
Listed zero turns k after [] = Unit {0}
Listed zero turns k after (e ∷ es) = ⊥
Listed (suc left) turns k after [] = read_turn turns k after ≡ none
Listed (suc left) turns k after (e ∷ es) =
    (read_turn turns k after ≡ some e) × Listed left turns (suc k) e.sequence es

logs_loop-eq :
    (left : ℕ) (turns : ℕ → Bool × Telemetry) (k after : ℕ) (buffer : List ℕ) (e : Entry)
    → read_turn turns k after ≡ some e
    → logs_loop (suc left) turns k after buffer
      ≡ after_entry
          (append_entry (take (short_size - 1) (log_prefix k e.sequence)) e.text buffer)
          (λ next. logs_loop left turns (suc k) e.sequence next)
unfolding logs_loop
logs_loop-eq left turns k after buffer e a = rw (a, logs_loop) refl

logs_loop-next :
    (left : ℕ) (turns : ℕ → Bool × Telemetry) (k after : ℕ) (buffer : List ℕ) (e : Entry)
    → read_turn turns k after ≡ some e
    → length buffer + width e.text + 39 < json_buffer_size
    → logs_loop (suc left) turns k after buffer
      ≡ logs_loop left turns (suc k) e.sequence (buffer ++ log_entry k e)
unfolding after_entry
logs_loop-next left turns k after buffer e a h =
    logs_loop-eq left turns k after buffer e a
    ∙ ap (λ r. after_entry r (λ next. logs_loop left turns (suc k) e.sequence next))
        (append_entry-log_entry k e buffer h)

logs_loop-lists :
    (left : ℕ) (turns : ℕ → Bool × Telemetry) (k after : ℕ) (buffer : List ℕ)
    → ((i a : ℕ) (e : Entry) → read_turn turns i a ≡ some e → width e.text ≤ 1300)
    → length buffer + 1340 * left < 16200
    → (es : List Entry) × Listed left turns k after es
      × (logs_loop left turns k after buffer ≡ buffer ++ log_entries k es)
      × (length (buffer ++ log_entries k es) < 16200)
unfolding logs_loop log_entries
logs_loop-lists zero turns k after buffer v h =
    ([], tt, sym (append_nil buffer), omega (arith, length-append {A = ℕ} buffer []))
logs_loop-lists (suc left) turns k after buffer v h =
    elim (Option-cases (read_turn turns k after)) [
      | inl a ↦
          rw (a, logs_loop)
            ([], a, sym (append_nil buffer), omega (arith, length-append {A = ℕ} buffer []))
      | inr (e, a) ↦
          let w = v k after e a in
          let step = logs_loop-next left turns k after buffer e a (omega arith) in
          let (es, listed, s, t) =
            logs_loop-lists left turns (suc k) e.sequence (buffer ++ log_entry k e) v
              (omega (arith, length-append buffer (log_entry k e), length-log_entry k e)) in
          let same = append_assoc buffer (log_entry k e) (log_entries (suc k) es) in
          (e ∷ es, (a, listed), step ∙ s ∙ same, subst (λ x. length x < 16200) same t)
    ]

-- Where no line of the ring is longer than 1300 characters with its escapes, the response is whole:
-- the entries that the readings gave, at most twelve and each with the number that the next reading
-- goes on from, and the latest number. No array is too small for its part.
pub logs_handler-lists :
    (after latest : ℕ) (turns : ℕ → Bool × Telemetry)
    → ((i a : ℕ) (e : Entry) → read_turn turns i a ≡ some e → width e.text ≤ 1300)
    → (es : List Entry) × Listed logs_per_response turns 0 after es
      × (logs_handler true after turns latest
          ≡ some ((codes "{\"entries\":[" ++ log_entries 0 es) ++ log_suffix latest))
unfolding logs_handler
logs_handler-lists after latest turns v =
    let start = codes "{\"entries\":[" in
    let opened = append_text-fitted json_buffer_size [] start (omega arith) in
    let (es, listed, e, l) =
      logs_loop-lists logs_per_response turns 0 after start v (omega arith) in
    let p = length-log_suffix latest in
    let whole = length-append (start ++ log_entries 0 es) (log_suffix latest) in
    let closed =
      append_text-fitted json_buffer_size (start ++ log_entries 0 es) (log_suffix latest)
        (omega arith)
      ∙ whole_fitted json_buffer_size ((start ++ log_entries 0 es) ++ log_suffix latest)
          (omega arith) in
    (
      es,
      listed,
      ap
            (λ b.
              some
                (append_text json_buffer_size (logs_loop logs_per_response turns 0 after b.1)
                  (take (short_size - 1) (log_suffix latest))).1)
            opened
          ∙ ap
              (λ b.
                some (append_text json_buffer_size b (take (short_size - 1) (log_suffix latest))).1)
              e
          ∙ ap (λ x. some (append_text json_buffer_size (start ++ log_entries 0 es) x).1)
              (take_short (short_size - 1) (log_suffix latest) (omega arith))
          ∙ ap (λ r. some r.1) closed,
    )

-- ===== src/Clients/Web/Marked.antt =====
-- main/web_service.c: what `marker_handler` puts into the capture store, and what the export makes of it.
use lin_tac09cpbpsl_esp32c.Common.{
  ℕ, ◌-◌, ◌≤◌, ◌<◌, ◌≡◌, refl, ap, ◌∙◌, Bool, true, false, not, ◌&&◌, ◌||◌, List, [], ◌∷◌, ◌++◌,
  Option, none, some, length, take, replicate, ltb, leb, ◌==◌, Bool-cases, Option-cases, inl, inr,
  codes, print_i64, take_short, take_prefix, length-append, length-take, arith,
}
use lin_tac09cpbpsl_esp32c.Capture.Layout.{data_max, type_marker, padded}
use lin_tac09cpbpsl_esp32c.Capture.Store.{Store, enqueue_record, capture_store_record_marker}
use lin_tac09cpbpsl_esp32c.Capture.Write.{record_for}
use lin_tac09cpbpsl_esp32c.Clients.Json.{Item, Library, item_text}
use lin_tac09cpbpsl_esp32c.Clients.Mqtt.Payload.{c_string}
use lin_tac09cpbpsl_esp32c.Clients.Web.Buffer.{escape, escaped}
use lin_tac09cpbpsl_esp32c.Clients.Web.Export.{detail_text, whole_text}
use lin_tac09cpbpsl_esp32c.Clients.Web.Marker.{
  Part, MarkerErr, read_loop, read_json_body, read_once, safe_characters, marker_label_valid,
  marker_response, label_of, marker_handler,
}

length-read_loop :
    (content_len : ℕ) (body : List ℕ) (parts : List Part) (r : List ℕ)
    → length body ≤ content_len
    → read_loop content_len body parts ≡ some r
    → length r ≡ content_len
unfolding read_loop
length-read_loop n body [] r h e = ground arith
length-read_loop n body (Part.timeout ∷ parts) r h e =
    ground (arith, length-read_loop n body parts r h)
length-read_loop n body (Part.closed ∷ parts) r h e = ground arith
length-read_loop n body (Part.bytes xs ∷ parts) r h e =
    let received = take (n - length body) xs in
    let l = length-append body received in
    let k = length-take (n - length body) xs in
    ground (arith, length-read_loop n (body ++ received) parts r (omega arith))

-- A body that is read has the announced length, which is not 0, and leaves room for the zero byte at
-- its end, whatever the parts are.
pub read_json_body-length :
    (capacity content_len : ℕ) (parts : List Part) (r : List ℕ)
    → read_json_body capacity content_len parts ≡ some r
    → (length r ≡ content_len) × (0 < content_len) × (content_len < capacity)
unfolding read_json_body
read_json_body-length capacity n parts r e =
    ground (arith, length-read_loop n [] parts r (omega arith))

-- The label that a request asks for: the text under the key label in the object that its body, of the
-- announced length, is read as.
pub record IsAsked (j : Library) (content_len : ℕ) (parts : List Part) (label : List ℕ)
    : Type 0 where
  pub body : List ℕ
  pub received : read_once content_len [] parts ≡ some body
  pub whole : length body ≡ content_len
  pub root : j.Value
  pub parsed : j.parse body ≡ some root
  pub text : j.get root (codes "label") ≡ some (Item.text label)

-- What the response tells of the marker: it is recorded exactly where the label that was asked for,
-- which is valid, is in the queue of the store as the newest request; it is refused by the store only
-- where there is no queue, or no room in it; and in all other cases the store is as before and nothing
-- is published.
abbrev pub Marked :
    Library → ℕ → List Part → ℕ → Bool → Store → MarkerErr × Store × Option (List ℕ) → Type 0
Marked j n parts now room s (MarkerErr.recorded, t, told) =
    (label : List ℕ) × (told ≡ some label)
    × IsAsked j n parts label
    × (marker_label_valid label ≡ true)
    × (t ≡ record s {
      pending =
          s.pending
          ++ (record {
            timestamp_us = now;
            type = type_marker;
            direction = 0;
            kind = 0;
            length = length label;
            data_bytes = padded (length label) label;
          }
              ∷ []);
    })
Marked j n parts now room s (MarkerErr.not_persisted, t, told) =
    ((s.queued && room) ≡ false)
    × (t.pending ≡ s.pending)
    × (label : List ℕ) × (told ≡ some label)
    × IsAsked j n parts label
Marked j n parts now room s (_, t, told) = (t ≡ s) × (told ≡ none)

length-read_once :
    (content_len : ℕ) (body : List ℕ) (parts : List Part) (r : List ℕ)
    → length body ≤ content_len
    → read_once content_len body parts ≡ some r
    → length r ≡ content_len
unfolding read_once
length-read_once n body [] r h e = ground arith
length-read_once n body (Part.timeout ∷ parts) r h e = ground arith
length-read_once n body (Part.closed ∷ parts) r h e = ground arith
length-read_once n body (Part.bytes xs ∷ parts) r h e =
    let received = take (n - length body) xs in
    let l = length-append body received in
    let k = length-take (n - length body) xs in
    ground (arith, length-read_once n (body ++ received) parts r (omega arith))

item_text-eq :
    (item : Option Item) (label : List ℕ)
    → item_text item ≡ some label
    → item ≡ some (Item.text label)
unfolding item_text
item_text-eq none label e = absurd (ground (arith, e))
item_text-eq (some (Item.text value)) label e =
    let same : value ≡ label = ground (arith, e) in ap (λ v. some (Item.text v)) same
item_text-eq (some (Item.boolean b)) label e = absurd (ground (arith, e))
item_text-eq (some (Item.number s n w)) label e = absurd (ground (arith, e))
item_text-eq (some Item.other) label e = absurd (ground (arith, e))

-- What `label_of` gives is valid, and is the text of the object.
label_of-IsAsked :
    (j : Library) (content_len : ℕ) (parts : List Part) (body label : List ℕ)
    → read_once content_len [] parts ≡ some body
    → label_of j body ≡ some label
    → IsAsked j content_len parts label × (marker_label_valid label ≡ true)
unfolding label_of
label_of-IsAsked j n parts body label c e = elim (Option-cases (j.parse body)) [
  | inl a ↦ absurd (ground (arith, a, e))
  | inr (root, a) ↦ elim (Option-cases (item_text (j.get root (codes "label")))) [
    | inl b ↦ absurd (ground (arith, a, b, e))
    | inr (text, b) ↦
        let (same, valid) : (text ≡ label) × (marker_label_valid label ≡ true) =
          ground (arith, a, b, e) in
        (
          record {
            body = body;
            received = c;
            whole = length-read_once n [] parts body (omega arith) c;
            root = root;
            parsed = a;
            text = item_text-eq _ label (b ∙ ap some same);
          },
          valid,
        )
  ]
]

label-bounds :
    (label : List ℕ)
    → marker_label_valid label ≡ true
    → (0 < length label) × (length label ≤ data_max)
unfolding marker_label_valid
label-bounds label h = ground arith

recorded-Marked :
    (j : Library) (n : ℕ) (parts : List Part) (now : ℕ) (room : Bool) (s : Store) (label : List ℕ)
    → IsAsked j n parts label
    → marker_label_valid label ≡ true
    → Marked j n parts now room s (
        let (err, t) = capture_store_record_marker room now label s in
        (marker_response err, t, some label))
unfolding capture_store_record_marker enqueue_record marker_response
recorded-Marked j n parts now room s label asked h =
    let (a, b) = label-bounds label h in
    let small : (length label == 0 || ltb data_max (length label)) ≡ false = ground arith in
    elim (Bool-cases (s.queued)) [
      | inr q ↦ rw q (refl, refl, label, refl, asked)
      | inl q ↦ elim (Bool-cases room) [
        | inl r ↦ rw (q, small, r) (label, refl, asked, h, refl)
        | inr r ↦ rw (q, small, r) (refl, refl, label, refl, asked)
      ]
    ]

-- In every case of `marker_handler` the response tells what became of the marker. It is recorded only
-- where the label, which is valid, is the text under the key label in the object that the body of the
-- announced length reads as, and is then the newest request in the queue of the store; the store
-- refuses it only where it has no queue, or no room in it; in all other cases the store is as before
-- and nothing is published.
pub marker_handler-Marked :
    (j : Library) (authorized : Bool) (content_len : ℕ) (parts : List Part) (room : Bool) (now : ℕ)
    (s : Store)
    → Marked j content_len parts now room s
        (marker_handler j authorized content_len parts room now s)
unfolding marker_handler
marker_handler-Marked j authorized n parts room now s = elim (Bool-cases (not authorized)) [
  | inl a ↦ rw a (refl, refl)
  | inr a ↦ elim (Bool-cases (n == 0 || leb 192 n)) [
    | inl b ↦ rw (a, b) (refl, refl)
    | inr b ↦ elim (Option-cases (read_once n [] parts)) [
      | inl c ↦ rw (a, b, c) (refl, refl)
      | inr (body, c) ↦ elim (Option-cases (label_of j body)) [
        | inl d ↦ rw (a, b, c, d) (refl, refl)
        | inr (label, d) ↦
            let (asked, valid) = label_of-IsAsked j n parts body label c d in
            rw (a, b, c, d) (recorded-Marked j n parts now room s label asked valid)
      ]
    ]
  ]
]

safe_text :
    (label : List ℕ)
    → safe_characters label ≡ true
    → (c_string label ≡ label) × (escaped label ≡ label)
unfolding safe_characters c_string escaped escape
safe_text [] h = (refl, refl)
safe_text (x ∷ xs) h =
    let (a, b) = safe_text xs (ground arith) in
    let zero_free : (x == 0) ≡ false = ground arith in
    let whole : escape x ≡ x ∷ [] = ground arith in (rw (zero_free, a) refl, rw (whole, b) refl)

pub take-padded : (xs : List ℕ) → take (length xs) (padded (length xs) (padded (length xs) xs)) ≡ xs
unfolding padded
take-padded xs =
    let n = length xs in
    let zeros : List ℕ = replicate (data_max - n) 0 in
    let same = take_short n xs (omega arith) in
    let once : (ys zs : List ℕ) → ys ≡ xs → take n (ys ++ zs) ≡ xs =
      λ ys zs e. ap (λ t. take n (t ++ zs)) e ∙ take_prefix n xs zs (omega arith) ∙ same in
    once (take n (take n xs ++ zeros)) zeros (once (take n xs) zeros same)

-- The record that is written for a valid label is exported with this label behind the time, and no
-- character of the label needs an escape: what a client marks is what it reads.
pub record_for-label :
    (now sequence : ℕ) (label : List ℕ)
    → marker_label_valid label ≡ true
    → (whole_text (
          record_for
            (record {
              timestamp_us = now;
              type = type_marker;
              direction = 0;
              kind = 0;
              length = length label;
              data_bytes = padded (length label) label;
            })
            sequence)
        ≡ codes "MARKER,t_us=" ++ (print_i64 now ++ (codes ",label=" ++ label)))
      × (escaped label ≡ label)
unfolding whole_text detail_text record_for marker_label_valid
record_for-label now sequence label h =
    let (a, b) = safe_text label (ground arith) in
    (
      ap (λ t. codes "MARKER,t_us=" ++ (print_i64 now ++ (codes ",label=" ++ t)))
          (ap c_string (take-padded label) ∙ a),
      b,
    )

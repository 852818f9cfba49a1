-- ===== src/Clients/Web/Whole.antt =====
-- main/web_service.c: the line of a record in the export, and the array for it.
use lin_tac09cpbpsl_esp32c.Common.{
  ℕ, ◌-◌, ◌≤◌, ◌<◌, ◌≡◌, refl, true, List, [], ◌++◌, some, length, take, ltb, ◌==◌, Bool-cases, inl,
  inr, length-append, length-take, take_short, codes, print_u32, print_i64, ◌∙◌, ap, arith,
}
use lin_tac09cpbpsl_esp32c.Capture.Layout.{
  data_max, type_frame, type_marker, type_boot, FlashRecord,
}
use lin_tac09cpbpsl_esp32c.Clients.Mqtt.Payload.{c_string}
use lin_tac09cpbpsl_esp32c.Clients.Web.Buffer.{
  escaped, fitted, append_text-fitted, append_json_escaped-fitted,
}
use lin_tac09cpbpsl_esp32c.Clients.Web.Export.{
  detail_text, whole_text, capture_record_text, text_size, line_size, prefix_size, whole_prefix,
  join_line, export_line,
}
use lin_tac09cpbpsl_esp32c.Clients.Web.Line.{
  width, IsShort, IsShort-append, any-IsShort, print_u32-IsShort, print_i64-IsShort, plain_text,
  literal_IsShort, length-c_string, frame_text-IsShort,
}

detail_text-IsShort :
    (before between : List ℕ) (r : FlashRecord)
    → plain_text before ≡ true
    → plain_text between ≡ true
    → length before ≤ 20
    → length between ≤ 25
    → r.length ≤ data_max
    → IsShort 319 400 (detail_text before between r)
unfolding detail_text
detail_text-IsShort before between r h k l m b =
    let bytes = take r.length r.data_bytes in
    let e = length-take r.length r.data_bytes in
    let detail = any-IsShort 104 (c_string bytes) (omega (arith, length-c_string bytes)) in
    let (x, y) = literal_IsShort 20 before _ h l (
      IsShort-append (print_i64 r.timestamp_us) _ (print_i64-IsShort r.timestamp_us)
        (literal_IsShort 25 between _ k m detail)) in
    (omega arith, omega arith)

whole_text-IsShort : (r : FlashRecord) → r.length ≤ data_max → IsShort 319 400 (whole_text r)
unfolding whole_text plain_text
whole_text-IsShort r h = elim (Bool-cases (r.type == type_frame)) [
  | inl a ↦ rw a (frame_text-IsShort r h)
  | inr a ↦ elim (Bool-cases (r.type == type_marker)) [
    | inl b ↦
        rw (a, b)
          (detail_text-IsShort (codes "MARKER,t_us=") (codes ",label=") r refl refl (omega arith)
            (omega arith) h)
    | inr b ↦ elim (Bool-cases (r.type == type_boot)) [
      | inl c ↦
          rw (a, b, c)
            (detail_text-IsShort (codes "CAPTURE,t_us=") (codes ",event=boot,detail=") r refl refl
              (omega arith) (omega arith) h)
      | inr c ↦
          rw (a, b, c)
            (detail_text-IsShort (codes "CAPTURE,t_us=") (codes ",event=system,detail=") r refl refl
              (omega arith) (omega arith) h)
    ]
  ]
]

length-whole_prefix : (r : FlashRecord) → length (whole_prefix r) ≤ 69
unfolding whole_prefix
length-whole_prefix r = omega (
  arith,
  length-append (print_u32 r.sequence)
      (codes ",\"device_time_us\":" ++ (print_i64 r.timestamp_us ++ codes ",\"text\":\"")),
  length-append (print_i64 r.timestamp_us) (codes ",\"text\":\""),
  (print_u32-IsShort r.sequence).0,
  (print_i64-IsShort r.timestamp_us).0,
)

pub whole_fitted :
    (capacity : ℕ) (text : List ℕ) → length text < capacity → fitted capacity text ≡ (true, text)
whole_fitted capacity text h =
    let b : ltb (length text) capacity ≡ true = ground arith in
    rw (b, take_short (capacity - 1) text (omega arith)) refl

-- The line with all of its parts.
unfoldable pub full_line : FlashRecord → List ℕ
full_line r = (whole_prefix r ++ escaped (whole_text r)) ++ codes "\"}\n"

join_line-whole :
    (prefix text : List ℕ)
    → length prefix ≤ 80
    → width text ≤ 400
    → join_line prefix text ≡ some ((prefix ++ escaped text) ++ codes "\"}\n")
unfolding join_line
join_line-whole prefix text h k =
    let first =
      append_text-fitted line_size [] prefix (omega arith)
      ∙ whole_fitted line_size prefix (omega arith) in
    let l = length-append prefix (escaped text) in
    let second =
      append_json_escaped-fitted line_size prefix text (omega arith)
      ∙ whole_fitted line_size (prefix ++ escaped text) (omega arith) in
    let m = length-append (prefix ++ escaped text) (codes "\"}\n") in
    let third =
      append_text-fitted line_size (prefix ++ escaped text) (codes "\"}\n") (omega arith)
      ∙ whole_fitted line_size ((prefix ++ escaped text) ++ codes "\"}\n") (omega arith) in
    rw (first, second, third) refl

-- The line of a record with at most 104 bytes is exported whole: none of its arrays is too small.
pub export_line-full_line :
    (r : FlashRecord) → r.length ≤ data_max → export_line r ≡ some (full_line r)
unfolding export_line capture_record_text full_line
export_line-full_line r h =
    let (a, b) = whole_text-IsShort r h in
    let p = length-whole_prefix r in
    let first = take_short (prefix_size - 1) (whole_prefix r) (omega arith) in
    let second = take_short (text_size - 1) (whole_text r) (omega arith) in
    ap (λ x. join_line x (take (text_size - 1) (whole_text r))) first
    ∙ ap (λ x. join_line (whole_prefix r) x) second
    ∙ join_line-whole (whole_prefix r) (whole_text r) (omega arith) b

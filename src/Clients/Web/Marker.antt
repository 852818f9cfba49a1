-- ===== src/Clients/Web/Marker.antt =====
-- main/web_service.c: `marker_handler`, and how the body of a request is read. The HTTP server belongs
-- to ESP-IDF: what each call of `httpd_req_recv` gives is an argument.
use lin_tac09cpbpsl_esp32c.Common.{
  ℕ, ◌-◌, Bool, true, not, ◌&&◌, ◌||◌, List, [], ◌∷◌, ◌++◌, Option, none, some, length, take, ltb,
  leb, ◌==◌, if◌then◌else◌, codes,
}
use lin_tac09cpbpsl_esp32c.Capture.Store.{CaptureErr, Store, capture_store_record_marker}
use lin_tac09cpbpsl_esp32c.Clients.Json.{Library, item_text}

-- What a call of `httpd_req_recv` gives: bytes, HTTPD_SOCK_ERR_TIMEOUT, or another error.
pub data Part : Type 0 where
  bytes : List ℕ → Part
  timeout closed : Part

-- The loop of `read_json_body`, with the body that was read so far; a part is at most as long as what
-- is missing. Behind the last part the connection is closed.
unfoldable pub read_loop : ℕ → List ℕ → List Part → Option (List ℕ)
read_loop content_len body [] = if leb content_len (length body) then some body else none
read_loop content_len body (Part.timeout ∷ parts) =
    let rest = read_loop content_len body parts in
    if leb content_len (length body) then some body else rest
read_loop content_len body (Part.closed ∷ parts) =
    if leb content_len (length body) then some body else none
read_loop content_len body (Part.bytes xs ∷ parts) =
    let received = take (content_len - length body) xs in
    let rest = read_loop content_len (body ++ received) parts in
    if leb content_len (length body) then some body else if length received == 0 then none else rest

-- `read_json_body`, for an array of `capacity` bytes.
unfoldable pub read_json_body : ℕ → ℕ → List Part → Option (List ℕ)
unfolding read_loop
read_json_body capacity content_len parts =
    if content_len == 0 || leb capacity content_len then none else read_loop content_len [] parts

-- The loop of `marker_handler`, for which a timeout is an error as well.
unfoldable pub read_once : ℕ → List ℕ → List Part → Option (List ℕ)
read_once content_len body (Part.bytes xs ∷ parts) =
    let received = take (content_len - length body) xs in
    let rest = read_once content_len (body ++ received) parts in
    if leb content_len (length body) then some body else if length received == 0 then none else rest
read_once content_len body parts = if leb content_len (length body) then some body else none

-- MARKER_MAX_BODY_SIZE, MARKER_MAX_LABEL_SIZE
abbrev pub marker_body_size : ℕ
marker_body_size = 192

abbrev pub marker_label_size : ℕ
marker_label_size = 96

-- The loop of `marker_label_valid`.
unfoldable pub safe_characters : List ℕ → Bool
safe_characters [] = true
safe_characters (x ∷ xs) = not (ltb x 0x20 || x == 44 || x == 92 || x == 34) && safe_characters xs

-- `marker_label_valid`
unfoldable pub marker_label_valid : List ℕ → Bool
unfolding safe_characters
marker_label_valid label =
    not (length label == 0 || leb marker_label_size (length label)) && safe_characters label

-- The responses of `marker_handler`.
pub data MarkerErr : Type 0 where
  unauthorized bad_body failed bad_label not_persisted recorded : MarkerErr

unfoldable pub marker_response : CaptureErr → MarkerErr
marker_response CaptureErr.ok = MarkerErr.recorded
marker_response _ = MarkerErr.not_persisted

-- The label of the JSON object, if it is valid.
unfoldable pub label_of : Library → List ℕ → Option (List ℕ)
unfolding marker_label_valid
label_of j body = elim (j.parse body) [
  | none ↦ none
  | some root ↦ elim (item_text (j.get root (codes "label"))) [
    | none ↦ none
    | some label ↦ if marker_label_valid label then some label else none
  ]
]

-- `marker_handler`: `room` tells whether the queue of the store takes the marker in time, at the time
-- `now`. The label that is published with the telemetry comes last.
unfoldable pub marker_handler :
    Library → Bool → ℕ → List Part → Bool → ℕ → Store → MarkerErr × Store × Option (List ℕ)
unfolding read_once label_of capture_store_record_marker marker_response
marker_handler j authorized content_len parts room now s =
    if not authorized
    then (MarkerErr.unauthorized, s, none)
    else if content_len == 0 || leb marker_body_size content_len
    then (MarkerErr.bad_body, s, none)
    else elim (read_once content_len [] parts) [
      | none ↦ (MarkerErr.failed, s, none)
      | some body ↦ elim (label_of j body) [
        | none ↦ (MarkerErr.bad_label, s, none)
        | some label ↦
            let (err, t) = capture_store_record_marker room now label s in
            (marker_response err, t, some label)
      ]
    ]

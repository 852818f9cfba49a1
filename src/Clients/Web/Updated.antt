-- ===== src/Clients/Web/Updated.antt =====
-- main/web_service.c: what `ota_handler` asks of the partitions.
use lin_tac09cpbpsl_esp32c.Common.{
  ℕ, suc, ◌+◌, ◌-◌, ◌≤◌, ◌≡◌, refl, Bool, true, false, not, ◌||◌, ◌⊎◌, List, [], ◌∷◌, ◌++◌, map,
  length, length-take, take, ltb, ◌==◌, if◌then◌else◌, Bool-cases, Option-cases, inl, inr, arith,
}
use lin_tac09cpbpsl_esp32c.Capture.Store.{Store}
use lin_tac09cpbpsl_esp32c.Clients.Web.Marker.{Part}
use lin_tac09cpbpsl_esp32c.Clients.Web.Ota.{
  OtaCall, OtaErr, OtaResults, ota_chunk_size, ota_loop, ota_result, ota_update, ota_handler,
}

-- The number of bytes in all chunks.
unfoldable pub image_size : List (List ℕ) → ℕ
image_size [] = 0
image_size (chunk ∷ chunks) = length chunk + image_size chunks

-- A loop that ends well has written the whole image, and no loop writes more.
ota_loop-size :
    (remaining : ℕ) (parts : List Part) (writes : ℕ → Bool) (k : ℕ)
    → let (ok, chunks) = ota_loop remaining parts writes k in
      (image_size chunks ≤ remaining)
      × (((ok ≡ true) × (image_size chunks ≡ remaining)) ⊎ (ok ≡ false))
unfolding ota_loop image_size
ota_loop-size remaining [] writes k = ground arith
ota_loop-size remaining (Part.timeout ∷ parts) writes k =
    ground (arith, ota_loop-size remaining parts writes k)
ota_loop-size remaining (Part.closed ∷ parts) writes k = ground arith
ota_loop-size remaining (Part.bytes xs ∷ parts) writes k =
    let wanted = if ltb ota_chunk_size remaining then ota_chunk_size else remaining in
    let received = take wanted xs in
    ground (
      arith,
      length-take wanted xs,
      ota_loop-size (remaining - length received) parts writes (suc k),
    )

-- What was asked of the partitions, by the response: an image is begun at most once; one that was
-- begun is ended or given up exactly once, by the last call but the choice of the boot partition; and
-- the boot partition is chosen only after the whole image was written and its check has succeeded.
abbrev pub Updated : Bool → Bool → ℕ → OtaErr × List OtaCall → Type 0
Updated ends boots n (OtaErr.accepted, calls) =
    (ends ≡ true)
    × (boots ≡ true)
    × (chunks : List (List ℕ)) × (calls
        ≡ OtaCall.begin_image n
          ∷ (map OtaCall.write chunks ++ (OtaCall.finish ∷ OtaCall.set_boot ∷ [])))
    × (image_size chunks ≡ n)
Updated ends boots n (OtaErr.failed, calls) =
    (chunks : List (List ℕ)) × (last : List OtaCall) × (calls
      ≡ OtaCall.begin_image n ∷ (map OtaCall.write chunks ++ last))
    × (image_size chunks ≤ n)
    × ((last ≡ OtaCall.abort ∷ [])
        ⊎ ((last ≡ OtaCall.finish ∷ []) × (image_size chunks ≡ n) × (ends ≡ false))
        ⊎ ((last ≡ OtaCall.finish ∷ OtaCall.set_boot ∷ [])
            × (image_size chunks ≡ n)
            × (ends ≡ true)
            × (boots ≡ false)))
Updated ends boots n (OtaErr.no_memory, calls) = calls ≡ OtaCall.begin_image n ∷ OtaCall.abort ∷ []
Updated ends boots n (OtaErr.not_begun, calls) = calls ≡ OtaCall.begin_image n ∷ []
Updated ends boots n (_, calls) = calls ≡ []

ota_result-Updated :
    (n : ℕ) (ends boots : Bool) (r : Bool × List (List ℕ))
    → image_size r.1 ≤ n
    → ((r.0 ≡ true) × (image_size r.1 ≡ n)) ⊎ (r.0 ≡ false)
    → Updated ends boots n
        (let (err, calls) = ota_result ends boots r in (err, OtaCall.begin_image n ∷ calls))
unfolding ota_result
ota_result-Updated n ends boots (false, chunks) h k =
    (chunks, OtaCall.abort ∷ [], refl, h, inl refl)
ota_result-Updated n false boots (true, chunks) h k =
    (chunks, OtaCall.finish ∷ [], refl, h, inr (inl (refl, ground arith, refl)))
ota_result-Updated n true false (true, chunks) h k = (
  chunks,
  OtaCall.finish ∷ OtaCall.set_boot ∷ [],
  refl,
  h,
  inr (inr (refl, ground arith, refl, refl)),
)
ota_result-Updated n true true (true, chunks) h k = (refl, refl, chunks, refl, ground arith)

ota_update-Updated :
    (d : OtaResults) (authorized : Bool) (content_len : ℕ) (parts : List Part)
    → Updated d.ends d.boots content_len (ota_update d authorized content_len parts)
unfolding ota_update
ota_update-Updated d authorized n parts = elim (Bool-cases (not authorized)) [
  | inl a ↦ rw a refl
  | inr a ↦ elim (Option-cases (d.size)) [
    | inl b ↦ rw (a, b) refl
    | inr (size, b) ↦ elim (Bool-cases (n == 0 || ltb size n)) [
      | inl c ↦ rw (a, b, c) refl
      | inr c ↦ elim (Bool-cases (not d.begins)) [
        | inl e ↦ rw (a, b, c, e) refl
        | inr e ↦ elim (Bool-cases (not d.memory)) [
          | inl g ↦ rw (a, b, c, e, g) refl
          | inr g ↦
              let (x, y) = ota_loop-size n parts d.writes 0 in
              rw (a, b, c, e, g)
                (ota_result-Updated n d.ends d.boots (ota_loop n parts d.writes 0) x y)
        ]
      ]
    ]
  ]
]

-- Whatever the parts of the body and the results of the calls are, `ota_handler` uses the partitions
-- as its response tells: no image that is not complete and checked is ever chosen for the next boot,
-- and none that was begun is left open.
pub ota_handler-Updated :
    (d : OtaResults) (authorized : Bool) (content_len : ℕ) (parts : List Part) (room : Bool)
    (now : ℕ) (s : Store)
    → let (err, calls, t) = ota_handler d authorized content_len parts room now s in
      Updated d.ends d.boots content_len (err, calls)
unfolding ota_handler
ota_handler-Updated d authorized n parts room now s = ota_update-Updated d authorized n parts

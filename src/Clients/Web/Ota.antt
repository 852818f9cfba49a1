-- ===== src/Clients/Web/Ota.antt =====
-- main/web_service.c: `ota_handler`, the update of the firmware, and `reboot_handler`. The partitions
-- and the server belong to ESP-IDF: the results of the calls are arguments.
use lin_tac09cpbpsl_esp32c.Common.{
  ℕ, suc, ◌-◌, Bool, true, false, not, ◌||◌, List, [], ◌∷◌, ◌++◌, map, Option, none, some, length,
  take, ltb, ◌==◌, if◌then◌else◌, codes,
}
use lin_tac09cpbpsl_esp32c.Capture.Store.{Store, capture_store_record_system}
use lin_tac09cpbpsl_esp32c.Clients.Web.Marker.{Part}

-- OTA_CHUNK_SIZE
abbrev pub ota_chunk_size : ℕ
ota_chunk_size = 4096

-- What is asked of the partitions.
pub data OtaCall : Type 0 where
  begin_image : ℕ → OtaCall
  write : List ℕ → OtaCall
  finish abort set_boot : OtaCall

-- The responses.
pub data OtaErr : Type 0 where
  unauthorized no_partition bad_size not_begun no_memory failed accepted : OtaErr

-- The loop, with what is missing of the image and the number of writes before: whether it ended with
-- ESP_OK, and the chunks that were given to `esp_ota_write`. `writes` tells which calls succeed. Behind
-- the last part the connection is closed.
unfoldable pub ota_loop : ℕ → List Part → (ℕ → Bool) → ℕ → Bool × List (List ℕ)
ota_loop remaining [] writes k = (remaining == 0, [])
ota_loop remaining (Part.timeout ∷ parts) writes k =
    let rest = ota_loop remaining parts writes k in if remaining == 0 then (true, []) else rest
ota_loop remaining (Part.closed ∷ parts) writes k = (remaining == 0, [])
ota_loop remaining (Part.bytes xs ∷ parts) writes k =
    let wanted = if ltb ota_chunk_size remaining then ota_chunk_size else remaining in
    let received = take wanted xs in
    let (ok, chunks) = ota_loop (remaining - length received) parts writes (suc k) in
    if remaining == 0
    then (true, [])
    else if length received == 0
    then (false, [])
    else if writes k
    then (ok, received ∷ chunks)
    else (false, received ∷ [])

-- The calls after the loop, and the response; `ends` and `boots` are the results of `esp_ota_end` and
-- `esp_ota_set_boot_partition`.
unfoldable pub ota_result : Bool → Bool → Bool × List (List ℕ) → OtaErr × List OtaCall
ota_result ends boots (false, chunks) =
    (OtaErr.failed, map OtaCall.write chunks ++ (OtaCall.abort ∷ []))
ota_result ends boots (true, chunks) =
    if not ends then (OtaErr.failed, map OtaCall.write chunks ++ (OtaCall.finish ∷ [])) else (
      if boots then OtaErr.accepted else OtaErr.failed,
      map OtaCall.write chunks ++ (OtaCall.finish ∷ OtaCall.set_boot ∷ []),
    )

-- The results of the calls before and after the loop; `size` is that of the next partition, if there is
-- one.
pub record OtaResults : Type 0 where
  pub size : Option ℕ
  pub begins : Bool
  pub memory : Bool
  pub writes : ℕ → Bool
  pub ends : Bool
  pub boots : Bool

-- `ota_handler` up to its response, with what it asks of the partitions.
unfoldable pub ota_update : OtaResults → Bool → ℕ → List Part → OtaErr × List OtaCall
unfolding ota_loop ota_result
ota_update d authorized content_len parts =
    if not authorized then (OtaErr.unauthorized, []) else elim (d.size) [
      | none ↦ (OtaErr.no_partition, [])
      | some size ↦
          if content_len == 0 || ltb size content_len
          then (OtaErr.bad_size, [])
          else if not d.begins
          then (OtaErr.not_begun, OtaCall.begin_image content_len ∷ [])
          else if not d.memory
          then (OtaErr.no_memory, OtaCall.begin_image content_len ∷ OtaCall.abort ∷ [])
          else (let (err, calls) =
                ota_result d.ends d.boots (ota_loop content_len parts d.writes 0) in
              (err, OtaCall.begin_image content_len ∷ calls))
    ]

-- `ota_handler`, with the store, to which an update that was accepted is reported.
unfoldable pub ota_handler :
    OtaResults → Bool → ℕ → List Part → Bool → ℕ → Store → OtaErr × List OtaCall × Store
unfolding ota_update capture_store_record_system
ota_handler d authorized content_len parts room now s =
    let (err, calls) = ota_update d authorized content_len parts in
    (
      err,
      calls,
      elim err [
        | OtaErr.accepted ↦ (capture_store_record_system room now (codes "ota_accepted") s).1
        | _ ↦ s
      ],
    )

-- `reboot_handler`: whether the restart is scheduled, and the store with its event.
unfoldable pub reboot_handler : Bool → Bool → ℕ → Store → Bool × Store
unfolding capture_store_record_system
reboot_handler authorized room now s =
    if not authorized
    then (false, s)
    else (true, (capture_store_record_system room now (codes "remote_restart") s).1)

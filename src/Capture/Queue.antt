-- ===== src/Capture/Queue.antt =====
-- main/capture_store.c: what waits in the queue for `write_request`.
use lin_tac09cpbpsl_esp32c.Common.{
  ℕ, ◌^◌, ◌≤◌, ◌<◌, Bool, not, ◌||◌, List, [], ◌∷◌, ◌++◌, length, ltb, ◌==◌, Bool-cases, inl, inr,
  arith,
}
use lin_tac09cpbpsl_esp32c.Capture.Layout.{data_max, type_frame, type_system}
use lin_tac09cpbpsl_esp32c.Capture.Store.{CaptureRequest, Store, enqueue_record}
use lin_tac09cpbpsl_esp32c.Capture.RoundTrip.{IsRequest, length-padded}

-- All requests of a queue can be written.
abbrev pub AllRequests : List CaptureRequest → Type 0
AllRequests [] = Unit {0}
AllRequests (q ∷ queue) = IsRequest q × AllRequests queue

all-append :
    (queue : List CaptureRequest) (q : CaptureRequest)
    → AllRequests queue
    → IsRequest q
    → AllRequests (queue ++ q ∷ [])
all-append [] q a r = (r, tt)
all-append (p ∷ queue) q (b, a) r = (b, all-append queue q a r)

-- `enqueue_record` with one of the four types keeps the requests in the queue writable: it refuses
-- an empty text and one that is too long, and changes nothing else than the queue and the counter
-- of the dropped records.
pub enqueue_record-AllRequests :
    (room : Bool) (now type direction kind : ℕ) (bytes : List ℕ) (s : Store)
    → now < 2 ^ 64
    → type_frame ≤ type
    → type ≤ type_system
    → AllRequests s.pending
    → AllRequests (enqueue_record room now type direction kind bytes s).1.pending
unfolding enqueue_record
enqueue_record-AllRequests room now type direction kind bytes s t l h a =
    elim (Bool-cases (not s.queued)) [
      | inl p ↦ rw p a
      | inr p ↦ rw p (elim (Bool-cases (length bytes == 0 || ltb data_max (length bytes))) [
        | inl q ↦ rw q a
        | inr q ↦ rw q (elim (Bool-cases (not room)) [
          | inl r ↦ rw r a
          | inr r ↦ rw r (
              all-append s.pending _ a (record {
                timestamp_us = t;
                low = l;
                high = h;
                short = ground arith;
                sized = length-padded (length bytes) bytes (omega arith) (ground arith);
              }))
        ])
      ])
    ]

-- ===== src/Bridge/Round.antt =====
-- main/bridge_service.c: one round of `stream_task`.
use lin_tac09cpbpsl_esp32c.Common.{
  ℕ, suc, arith, ◌+◌, ◌%◌, ◌^◌, ◌≡◌, refl, Bool, true, false, List, [], ◌∷◌, Option, none, some,
  length, ◌==◌, if◌then◌else◌,
}
use lin_tac09cpbpsl_esp32c.Bridge.Types.{Profile, Side, Kind, Service}
use lin_tac09cpbpsl_esp32c.Bridge.Mirror.{Results}
use lin_tac09cpbpsl_esp32c.Bridge.Command.{command}
use lin_tac09cpbpsl_esp32c.Bridge.Invariant.{IsValid}
use lin_tac09cpbpsl_esp32c.Bridge.Handlers.{Holds, IsValid_of_eq}
use lin_tac09cpbpsl_esp32c.Bridge.Steps.{consume_loop-Holds, stream_idle-Holds}
use lin_tac09cpbpsl_esp32c.Bridge.Stream.{Stream, consume_byte, stream_idle, flush_stream_raw}
use lin_tac09cpbpsl_esp32c.Bridge.Framing.{
  IsFramed, consume_byte-IsFramed, flush_stream_raw-IsFramed,
}

-- The counters of received bytes.
unfoldable pub count_received : Side → ℕ → Service → Service
count_received Side.main received s = record s {
  state = record (s.state) { main_rx_bytes = (s.state.main_rx_bytes + received) % 2 ^ 32 };
}
count_received Side.panel received s = record s {
  state = record (s.state) { panel_rx_bytes = (s.state.panel_rx_bytes + received) % 2 ^ 32 };
}

-- The time of the last byte of the panel.
unfoldable pub note_byte : Side → ℕ → Service → Service
note_byte Side.main now s = s
note_byte Side.panel now s = record s { panel_last_byte_us = now }

-- The loop over the received bytes; `none` is passed on from `consume_byte`.
unfoldable pub consume_all :
    Profile → Results → Side → ℕ → List ℕ → Stream → Service → Option (Stream × Service)
unfolding note_byte
consume_all p d side now [] st s = some (st, s)
consume_all p d side now (b ∷ bytes) st s =
    elim (consume_byte p d side now b st (note_byte side now s)) [
      | none ↦ none
      | some (st', s') ↦ consume_all p d side now bytes st' s'
    ]

-- One round of `stream_task`, after `uart_read_bytes` gave it the bytes `incoming`.
unfoldable pub stream_round :
    Profile → Results → Side → ℕ → List ℕ → Stream → Service → Option (Stream × Service)
unfolding count_received consume_all
stream_round p d side now incoming st s =
    if length incoming == 0
    then some (stream_idle p side now st s)
    else consume_all p d side now incoming st (count_received side (length incoming) s)

pub count_received-Holds :
    (side : Side) (n : ℕ) {s : Service} → Holds s → Holds (count_received side n s)
unfolding count_received
count_received-Holds Side.main n v = IsValid_of_eq refl v
count_received-Holds Side.panel n v = IsValid_of_eq refl v

pub note_byte-Holds : (side : Side) (now : ℕ) {s : Service} → Holds s → Holds (note_byte side now s)
unfolding note_byte
note_byte-Holds Side.main now v = v
note_byte-Holds Side.panel now v = IsValid_of_eq refl v

-- A stream that is framed beside a service that is valid.
pub record InStep (o : Option (Stream × Service)) : Type 0 where
  pub stream : Stream
  pub service : Service
  pub returned : o ≡ some (stream, service)
  pub framed : IsFramed stream
  pub holds : Holds service

byte-InStep :
    (p : Profile) (d : Results) (side : Side) (now b : ℕ) (st : Stream) {s : Service}
    → IsFramed st
    → Holds s
    → InStep (consume_byte p d side now b st (note_byte side now s))
unfolding consume_byte
byte-InStep p d side now b st {s} v w =
    let (t, u, e, x, _) = consume_byte-IsFramed p d side now b st (note_byte side now s) v in
    record {
      stream = t;
      service = u;
      returned = e;
      framed = x;
      holds = (consume_loop-Holds p side d now b 2 st e (note_byte-Holds side now w)).service;
    }

consume_all-InStep :
    (p : Profile) (d : Results) (side : Side) (now : ℕ) (bytes : List ℕ) (st : Stream) {s : Service}
    → IsFramed st
    → Holds s
    → InStep (consume_all p d side now bytes st s)
unfolding consume_all
consume_all-InStep p d side now [] st {s} v w = record {
  stream = st;
  service = s;
  returned = refl;
  framed = v;
  holds = w;
}
consume_all-InStep p d side now (b ∷ bytes) st {s} v w =
    let first = byte-InStep p d side now b st v w in
    let rest = consume_all-InStep p d side now bytes first.stream first.framed first.holds in
    record {
      stream = rest.stream;
      service = rest.service;
      returned = rw (consume_all, first.returned) rest.returned;
      framed = rest.framed;
      holds = rest.holds;
    }

fst-if :
    (b : Bool) (x y : Stream × Service)
    → IsFramed x.0
    → IsFramed y.0
    → IsFramed (if b then x else y).0
fst-if true x y v w = v
fst-if false x y v w = w

idle-InStep :
    (p : Profile) (side : Side) (now : ℕ) (st : Stream) {s : Service}
    → IsFramed st
    → Holds s
    → InStep (some (stream_idle p side now st s))
unfolding stream_idle
idle-InStep p side now st {s} v w = record {
  stream = (stream_idle p side now st s).0;
  service = (stream_idle p side now st s).1;
  returned = refl;
  framed =
      fst-if _ (flush_stream_raw p side Kind.timeout st s) (st, s)
        (flush_stream_raw-IsFramed p side Kind.timeout st s v).0 v;
  holds = (stream_idle-Holds p side now st w).service;
}

-- A round of the stream task, whatever bytes came, always ends: it leaves the start of a frame in
-- the stream, shorter than the frame, and the command of the service as valid as it was.
pub stream_round-InStep :
    (p : Profile) (d : Results) (side : Side) (now : ℕ) (incoming : List ℕ) (st : Stream)
    (s : Service)
    → IsFramed st
    → IsValid (command s)
    → InStep (stream_round p d side now incoming st s)
unfolding stream_round
stream_round-InStep p d side now [] st s v w = idle-InStep p side now st v (record { valid = w })
stream_round-InStep p d side now (b ∷ bytes) st s v w =
    let nonempty : (suc (length bytes) == 0) ≡ false = ground arith in
    rw (stream_round, nonempty)
      (consume_all-InStep p d side now (b ∷ bytes) st v
        (count_received-Holds side (suc (length bytes)) (record { valid = w })))

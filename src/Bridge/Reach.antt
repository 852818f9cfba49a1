-- ===== src/Bridge/Reach.antt =====
-- main/bridge_service.c: the tasks and the callers of the service as steps, in any order, and the
-- states that they reach.
use lin_tac09cpbpsl_esp32c.Common.{ℕ, ◌<◌, ◌≡◌, refl, Bool, true, some}
use lin_tac09cpbpsl_esp32c.Protocol.Types.{Request}
use lin_tac09cpbpsl_esp32c.Bridge.Types.{Profile, Side, Route, Service}
use lin_tac09cpbpsl_esp32c.Bridge.Mirror.{Results}
use lin_tac09cpbpsl_esp32c.Bridge.Queue.{queue_control, set_hardware_ready}
use lin_tac09cpbpsl_esp32c.Bridge.Merge.{is_exclusive, no_request-IsSound}
use lin_tac09cpbpsl_esp32c.Bridge.Tasks.{takeover_switch, takeover_finish, watchdog_round}
use lin_tac09cpbpsl_esp32c.Bridge.Stream.{Stream, consume_byte, stream_idle}
use lin_tac09cpbpsl_esp32c.Bridge.Round.{
  count_received, note_byte, count_received-Holds, note_byte-Holds,
}
use lin_tac09cpbpsl_esp32c.Bridge.Boot.{boot}
use lin_tac09cpbpsl_esp32c.Bridge.Invariant.{is_pending, IsValid}
use lin_tac09cpbpsl_esp32c.Bridge.Command.{command}
use lin_tac09cpbpsl_esp32c.Bridge.Handlers.{
  Holds, queue_control-IsValid, takeover_switch-IsValid, takeover_finish-Holds,
  watchdog_round-IsValid, set_hardware_ready-IsValid,
}
use lin_tac09cpbpsl_esp32c.Bridge.Steps.{consume_loop-Holds, stream_idle-Holds}

-- One step of the service: a critical section of a task, or a call from another component. The
-- two halves of the takeover are steps of their own, so that anything may come between them; a byte
-- with all it leads to is one step, although `consume_byte` has several critical sections. A
-- caller names a mode in one way only, and the clock has started.
pub data Step (p : Profile) : Service → Service → Type 0 where
  queue :
      (s : Service) (now : ℕ) (r : Request)
      → 0 < now
      → is_exclusive r ≡ true
      → Step p s (queue_control p now r s).2
  byte :
      (s t : Service) (d : Results) (side : Side) (now b : ℕ) (before after : Stream)
      → consume_byte p d side now b before s ≡ some (after, t)
      → Step p s t
  received : (s : Service) (side : Side) (n : ℕ) → Step p s (count_received side n s)
  noted : (s : Service) (side : Side) (now : ℕ) → Step p s (note_byte side now s)
  idle :
      (s : Service) (side : Side) (now : ℕ) (st : Stream) → Step p s (stream_idle p side now st s).1
  take_route : (s : Service) (d : Results) → Step p s (takeover_switch p d s).1
  take_over : (s : Service) (result : ℕ) → Step p s (takeover_finish result s)
  watchdog : (s : Service) (d : Results) (now : ℕ) → Step p s (watchdog_round p d now s)
  ready : (s : Service) (d : Results) (on : Bool) → Step p s (set_hardware_ready p d on s)

pub data Reach (p : Profile) (start : Service) : Service → Type 0 where
  here : Reach p start start
  next : {s t : Service} → Reach p start s → Step p s t → Reach p start t

Step-Holds : {p : Profile} {s t : Service} → Step p s t → Holds s → Holds t
unfolding consume_byte
Step-Holds {p} (queue s now r h x) v = queue_control-IsValid p now r h x v
Step-Holds {p} (byte s t d side now b before after e) v =
    (consume_loop-Holds p side d now b 2 before e v).service
Step-Holds (received s side n) v = count_received-Holds side n v
Step-Holds (noted s side now) v = note_byte-Holds side now v
Step-Holds {p} (idle s side now st) v = (stream_idle-Holds p side now st v).service
Step-Holds {p} (take_route s d) v = takeover_switch-IsValid p d v
Step-Holds (take_over s result) v = takeover_finish-Holds result v
Step-Holds {p} (watchdog s d now) v = watchdog_round-IsValid p d now v
Step-Holds {p} (ready s d on) v = set_hardware_ready-IsValid p d on v

boot-Holds : (p : Profile) (route : Route) → Holds (boot p route)
unfolding boot is_pending
boot-Holds p route = record {
  valid = record {
    override = refl;
    pending = refl;
    confirm = refl;
    status = refl;
    one_takeover = refl;
    takeover_active = refl;
    numbered = refl;
    queued = λ e. cc e;
    sound = no_request-IsSound;
  };
}

Reach-Holds : {p : Profile} {s t : Service} → Reach p s t → Holds s → Holds t
Reach-Holds here v = v
Reach-Holds (next r st) v = Step-Holds st (Reach-Holds r v)

-- In every state that the service can reach from its start, in any order of the steps of its
-- tasks and callers, the public fields agree with the overlay: a command is shown as pending
-- exactly while the overlay is active, it waits for its confirmation, it has a time stamp and the
-- number that was given out last; at most one takeover flag is set; and the request in the overlay
-- has its fields in range, no timer, and not both a raw code and a mode or fan speed.
pub Reach-IsValid :
    (p : Profile) (route : Route) {s : Service} → Reach p (boot p route) s → IsValid (command s)
Reach-IsValid p route r = (Reach-Holds r (boot-Holds p route)).valid

-- ===== src/Bridge/Handlers.antt =====
-- main/bridge_service.c: the handlers and the invariant of the command.
use lin_tac09cpbpsl_esp32c.Common.{
  ℕ, ◌<◌, ◌≡◌, refl, sym, subst, Bool, true, false, not, ◌&&◌, List, Option, none, some, Bool-cases,
  Option-cases, inl, inr, if◌then◌else◌,
}
use lin_tac09cpbpsl_esp32c.Protocol.Types.{PanelState, Request}
use lin_tac09cpbpsl_esp32c.Protocol.Parse.{parse_panel}
use lin_tac09cpbpsl_esp32c.Bridge.Types.{Profile, CommandStatus, Side, Overlay, Effect, Service}
use lin_tac09cpbpsl_esp32c.Bridge.Mirror.{Results, restore_mirror}
use lin_tac09cpbpsl_esp32c.Bridge.Update.{
  emit, count_framing_error, finish_command, update_panel_state, update_main_state,
}
use lin_tac09cpbpsl_esp32c.Bridge.Queue.{mitm_active, queue_control, set_hardware_ready}
use lin_tac09cpbpsl_esp32c.Bridge.Merge.{is_exclusive}
use lin_tac09cpbpsl_esp32c.Bridge.Tasks.{
  takeover_finish, takeover_switch, watchdog_due, count_timeout, watchdog_round,
}
use lin_tac09cpbpsl_esp32c.Bridge.Frames.{
  forward_panel_raw, process_main, panel_wins, cancel_by_panel, take_event, send_panel,
  bridge_panel, bridge_unparsed, process_panel, process_complete_frame, injection, forwarded_frame,
  is_injected,
}
use lin_tac09cpbpsl_esp32c.Bridge.Command.{
  command, command-emit, command-count_checksum_error, command-count_framing_error,
  command-update_panel_state, confirmed_by, command-update_main_state,
}
use lin_tac09cpbpsl_esp32c.Bridge.Invariant.{
  is_pending, IsValid, finish-IsValid, cancel_by_panel-IsValid, take_event-IsValid, closed-IsValid,
  takeover_finish-IsValid, accept_control-IsValid, queue_control_cases,
}

-- The invariant of a service.
pub record Holds (s : Service) : Type 0 where
  pub valid : IsValid (command s)

holds : (s : Service) → IsValid (command s) → Holds s
holds s v = record { valid = v }

-- A service with the same command is as valid.
pub IsValid_of_eq : {s t : Service} → command t ≡ command s → Holds s → Holds t
IsValid_of_eq {s} {t} e v = holds t (subst IsValid (sym e) v.valid)

pub IsValid-if : (b : Bool) (s t : Service) → Holds s → Holds t → Holds (if b then s else t)
IsValid-if true s t h k = h
IsValid-if false s t h k = k

pub IsValid-emit : (e : Effect) {s : Service} → Holds s → Holds (emit e s)
IsValid-emit e {s} v = IsValid_of_eq (command-emit e s) v

pub update_main_state-IsValid :
    (p : Profile) (d : Results) (now : ℕ) (frame : List ℕ) {s : Service}
    → Holds s
    → Holds (update_main_state p d now frame s)
unfolding is_pending
update_main_state-IsValid p d now frame {s} v = holds _ (
    subst IsValid (sym (command-update_main_state p d now frame s))
      (elim (Bool-cases (confirmed_by frame s)) [
        | inl e ↦ rw e (finish-IsValid s v.valid CommandStatus.confirmed refl)
        | inr e ↦ rw e (v.valid)
      ]))

process_main-IsValid :
    (p : Profile) (d : Results) (now : ℕ) (frame : List ℕ) {s : Service}
    → Holds s
    → Holds (process_main p d now frame s)
unfolding process_main
process_main-IsValid p d now frame {s} v =
    update_main_state-IsValid p d now frame (IsValid-if p.bridge_active _ s (IsValid-emit _ v) v)

send_panel-IsValid :
    (p : Profile) (o : Overlay) (frame : List ℕ) (out : Option (List ℕ)) {s : Service}
    → Holds s
    → Holds (send_panel p o frame out s)
unfolding send_panel
send_panel-IsValid p o frame none {s} v = IsValid-if p.hybrid_bridge s _ v (IsValid-emit _ v)
send_panel-IsValid p o frame (some forwarded) {s} v =
    let w = IsValid-if p.hybrid_bridge s _ v (IsValid-emit _ v) in
    IsValid-if o.event_pending _ _ (IsValid-emit _ w) w

IsValid-restore : (p : Profile) (d : Results) {s : Service} → Holds s → Holds (restore_mirror p d s)
unfolding restore_mirror
IsValid-restore p d {s} v = holds _ (v.valid)

bridge_panel-IsValid :
    (p : Profile) (d : Results) (actual : PanelState) (frame : List ℕ) {s : Service}
    → Holds s
    → Holds (bridge_panel p d actual frame s).1
unfolding bridge_panel
bridge_panel-IsValid p d actual frame {s} v =
    let wins = panel_wins p actual frame s in
    let t = if wins then cancel_by_panel s else s in
    let w : Holds t = IsValid-if wins _ s (holds _ (cancel_by_panel-IsValid s v.valid)) v in
    let x = holds (take_event p t) (take_event-IsValid t w.valid p) in
    send_panel-IsValid p t.overlay frame (injection t.overlay frame)
      (IsValid-if wins _ _ (IsValid-restore p d x) x)

bridge_unparsed-IsValid :
    (p : Profile) (frame : List ℕ) {s : Service} → Holds s → Holds (bridge_unparsed p frame s)
unfolding bridge_unparsed
bridge_unparsed-IsValid p frame {s} v =
    let w = holds (take_event p s) (take_event-IsValid s v.valid p) in
    IsValid-if p.hybrid_bridge _ _ w (IsValid-emit _ w)

panel_recorded :
    (now : ℕ) (frame : List ℕ) (out : Option (List ℕ)) (t : Service)
    → Holds t
    → Holds (
        update_panel_state now frame
          (forwarded_frame frame out)
          (is_injected out)
          false
          (record t { physical_panel_frame_time_us = now }))
panel_recorded now frame out t v =
    let u = record t { physical_panel_frame_time_us = now } in
    IsValid_of_eq {s = u}
      (command-update_panel_state now frame (forwarded_frame frame out) (is_injected out) false u)
      (holds u v.valid)

process_panel-IsValid :
    (p : Profile) (d : Results) (now : ℕ) (frame : List ℕ) {s : Service}
    → Holds s
    → Holds (process_panel p d now frame s)
unfolding process_panel
process_panel-IsValid p d now frame {s} v = elim (Bool-cases p.bridge_active) [
  | inr off ↦ rw off (panel_recorded now frame none s v)
  | inl on ↦ elim (Option-cases (parse_panel frame)) [
    | inl e ↦
        rw (on, e)
          (panel_recorded now frame none (bridge_unparsed p frame s)
            (bridge_unparsed-IsValid p frame v))
    | inr (actual, e) ↦
        rw (on, e)
          (panel_recorded now frame (bridge_panel p d actual frame s).0
            (bridge_panel p d actual frame s).1 (bridge_panel-IsValid p d actual frame v))
  ]
]

forward_panel_raw-IsValid :
    (p : Profile) (side : Side) (bytes : List ℕ) {s : Service}
    → Holds s
    → Holds (forward_panel_raw p side bytes s)
unfolding forward_panel_raw
forward_panel_raw-IsValid p side bytes {s} v = IsValid-if _ _ s (IsValid-emit _ v) v

pub count_framing_error-IsValid : {s : Service} → Holds s → Holds (count_framing_error s)
count_framing_error-IsValid {s} v = IsValid_of_eq (command-count_framing_error s) v

-- A complete frame of either side keeps the invariant.
pub process_complete_frame-IsValid :
    (p : Profile) (d : Results) (now : ℕ) (side : Side) (frame : List ℕ) {s : Service}
    → Holds s
    → Holds (process_complete_frame p d now side frame s)
unfolding process_complete_frame
process_complete_frame-IsValid p d now side frame {s} v =
    IsValid-if _ _ _
      (IsValid-emit _
        (forward_panel_raw-IsValid p side frame (IsValid_of_eq (command-count_checksum_error s) v)))
      (IsValid-if _ _ _ (process_main-IsValid p d now frame v) (
        IsValid-if _ _ _ (process_panel-IsValid p d now frame v) (
          IsValid-emit _ (forward_panel_raw-IsValid p side frame (count_framing_error-IsValid v)))))

pub queue_control-IsValid :
    (p : Profile) (now : ℕ) (r : Request) {s : Service}
    → 0 < now
    → is_exclusive r ≡ true
    → Holds s
    → Holds (queue_control p now r s).2
queue_control-IsValid p now r {s} h x v = elim (queue_control_cases p now r s) [
  | inl (_, e, range, timer) ↦ subst Holds (sym e) (
      holds _ (
        accept_control-IsValid s v.valid p now r h
          (record { in_range = range; no_timer = timer; one_code = x })))
  | inr e ↦ subst Holds (sym e) v
]

pub takeover_switch-IsValid :
    (p : Profile) (d : Results) {s : Service} → Holds s → Holds (takeover_switch p d s).1
unfolding takeover_switch
takeover_switch-IsValid p d {s} v = holds _ (v.valid)

pub takeover_finish-Holds : (result : ℕ) {s : Service} → Holds s → Holds (takeover_finish result s)
takeover_finish-Holds result {s} v = holds _ (takeover_finish-IsValid s v.valid result)

count_timeout-IsValid : {s : Service} → Holds s → Holds (count_timeout s)
unfolding count_timeout
count_timeout-IsValid {s} v = holds _ (v.valid)

pub watchdog_round-IsValid :
    (p : Profile) (d : Results) (now : ℕ) {s : Service} → Holds s → Holds (watchdog_round p d now s)
unfolding watchdog_round is_pending
watchdog_round-IsValid p d now {s} v =
    let done = finish_command CommandStatus.timed_out s in
    IsValid-if (watchdog_due now s) _ s
      (IsValid-restore p d (
        count_timeout-IsValid (holds done (finish-IsValid s v.valid CommandStatus.timed_out refl))))
      v

pub set_hardware_ready-IsValid :
    (p : Profile) (d : Results) (ready : Bool) {s : Service}
    → Holds s
    → Holds (set_hardware_ready p d ready s)
unfolding set_hardware_ready
set_hardware_ready-IsValid p d ready {s} v =
    let t = record s {
      hardware_ready = ready;
      state = record (s.state) { mitm_active = mitm_active p ready };
    } in
    let w = holds t (v.valid) in
    let u =
      IsValid-if (not ready && s.overlay.active) _ t (holds _ (closed-IsValid t w.valid 0)) w in
    IsValid-if (not ready) _ _ (IsValid-restore p d u) u

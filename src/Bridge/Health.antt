-- ===== src/Bridge/Health.antt =====
-- main/bridge_service.c: `health_task`, which reports to the capture store which links are up.
use lin_tac09cpbpsl_esp32c.Common.{
  ℕ, ◌≡◌, refl, sym, ap, ◌∙◌, Bool, true, false, not, ◌||◌, List, [], ◌∷◌, ◌++◌, Option, none, some,
  codes, same, if◌then◌else◌, Bool-cases, inl, inr, arith,
}
use lin_tac09cpbpsl_esp32c.Bridge.Types.{Service}
use lin_tac09cpbpsl_esp32c.Bridge.View.{get_ac_state}
use lin_tac09cpbpsl_esp32c.Capture.Store.{Store, capture_store_record_system}

-- `have_previous`, `previous_main` and `previous_panel`.
pub record Health : Type 0 where
  pub have_previous : Bool
  pub previous_main : Bool
  pub previous_panel : Bool

abbrev pub no_health : Health
no_health = record { have_previous = false; previous_main = false; previous_panel = false }

-- `link_state main=%u panel=%u`
unfoldable pub link_event : Bool → Bool → List ℕ
link_event main panel =
    codes "link_state main="
    ++ ((if main then codes "1" else codes "0")
        ++ (codes " panel=" ++ (if panel then codes "1" else codes "0")))

-- A round with the two links that `bridge_service_get_ac_state` gives: the event, if there is one.
unfoldable pub health_step : Bool → Bool → Health → Option (List ℕ) × Health
unfolding link_event
health_step main panel h =
    if not h.have_previous || not (same main h.previous_main) || not (same panel h.previous_panel)
    then (
      some (link_event main panel),
      record { have_previous = true; previous_main = main; previous_panel = panel },
    )
    else (none, h)

-- The event goes to the store, which may have no room for it.
unfoldable pub record_event : Bool → ℕ → Option (List ℕ) → Store → Store
unfolding capture_store_record_system
record_event room now none s = s
record_event room now (some event) s = (capture_store_record_system room now event s).1

-- A round of `health_task`, up to its line of telemetry.
unfoldable pub health_round : Bool → ℕ → Service → Health × Store → Health × Store
unfolding get_ac_state health_step record_event
health_round room now service (h, s) =
    let (state, _, _) = get_ac_state now service in
    let (event, next) = health_step state.main_valid state.panel_valid h in
    (next, record_event room now event s)

-- The events of a run and the state after it; the links are listed with the newest first, and so are
-- the events.
unfoldable pub health_run : List (Bool × Bool) → List (List ℕ) × Health
health_run [] = ([], no_health)
health_run ((main, panel) ∷ links) =
    let (events, h) = health_run links in
    let (event, next) = health_step main panel h in
    (elim event [ none ↦ events | some e ↦ e ∷ events ], next)

-- The newest event.
unfoldable pub newest : List (List ℕ) → Option (List ℕ)
newest [] = none
newest (e ∷ es) = some e

-- What holds after a round that has seen these links.
record IsReported (main panel : Bool) (r : List (List ℕ) × Health) : Type 0 where
  newest_event : newest r.0 ≡ some (link_event main panel)
  had : r.1.have_previous ≡ true
  main_kept : r.1.previous_main ≡ main
  panel_kept : r.1.previous_panel ≡ panel

same-eq : (a b : Bool) → same a b ≡ true → b ≡ a
same-eq true true h = refl
same-eq false false h = refl
same-eq true false h = absurd (ground arith)
same-eq false true h = absurd (ground arith)

health_step-IsReported :
    (main panel : Bool) (events : List (List ℕ)) (h : Health)
    → (h.have_previous ≡ true → newest events ≡ some (link_event h.previous_main h.previous_panel))
    → let (event, next) = health_step main panel h in
      IsReported main panel (elim event [ none ↦ events | some e ↦ e ∷ events ], next)
unfolding health_step newest
health_step-IsReported main panel events h k =
    elim (Bool-cases (
      not h.have_previous
      || not (same main h.previous_main)
      || not (same panel h.previous_panel))) [
        | inl a ↦
            rw a (record { newest_event = refl; had = refl; main_kept = refl; panel_kept = refl })
        | inr a ↦
            let had : h.have_previous ≡ true = ground arith in
            let m = same-eq main h.previous_main (ground arith) in
            let q = same-eq panel h.previous_panel (ground arith) in
            rw a (record {
              newest_event =
                  k had
                  ∙ ap (λ b. some (link_event b h.previous_panel)) m
                  ∙ ap (λ b. some (link_event main b)) q;
              had = had;
              main_kept = m;
              panel_kept = q;
            })
      ]

health_run-previous :
    (links : List (Bool × Bool))
    → let (events, h) = health_run links in
      h.have_previous ≡ true → newest events ≡ some (link_event h.previous_main h.previous_panel)
unfolding health_run
health_run-previous [] e = absurd (ground (arith, e))
health_run-previous ((main, panel) ∷ links) e =
    let (events, h) = health_run links in
    let r = health_step-IsReported main panel events h (health_run-previous links) in
    r.newest_event
    ∙ ap (λ b. some (link_event b panel)) (sym r.main_kept)
    ∙ ap (λ b. some (link_event (health_run ((main, panel) ∷ links)).1.previous_main b))
        (sym r.panel_kept)

-- After every round the newest event that `health_task` has reported names the links of this round: it
-- reports each change, and the links of its first round.
pub health_run-newest :
    (main panel : Bool) (links : List (Bool × Bool))
    → newest (health_run ((main, panel) ∷ links)).0 ≡ some (link_event main panel)
unfolding health_run
health_run-newest main panel links =
    let (events, h) = health_run links in
    (health_step-IsReported main panel events h (health_run-previous links)).newest_event

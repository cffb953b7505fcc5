-- ===== src/LabDemo/Glow.antt =====
-- The active state of the button of demo/lab_demo_button.js over sequences of events.
use mobydb_render_engine.Base.{
  ℕ, suc, ◌≤◌, Bool, true, false, Option, none, some, List, [], ◌∷◌, ◌++◌, if-both, arith,
}
use mobydb_render_engine.LabDemo.{
  Place, Point, H3, Demo, DemoEvent, boot, click, move_end, pulse_timer, toast_timer, active_timer,
  lab_cell, build_button, fly_to, fly_to_lab_cell, once_move_end, settle, on_event, run,
}

-- A button that is active has a flight to end or a timer to reset it.
abbrev pub Glows : Bool → List Place → ℕ → Type 0
Glows false ps n = Unit
Glows true [] n = 1 ≤ n
Glows true (p ∷ ps) n = Unit

abbrev pub IsResetLater : Demo → Type 0
IsResetLater s = Glows s.active s.listeners s.clearing

Glows-listener : (ps : List Place) (p : Place) (n : ℕ) → Glows true (ps ++ p ∷ []) n
Glows-listener [] p n = tt
Glows-listener (q ∷ ps) p n = tt

Glows-timer : (b : Bool) (ps : List Place) (n : ℕ) → Glows b ps (suc n)
Glows-timer false ps n = tt
Glows-timer true [] n = ground arith
Glows-timer true (p ∷ ps) n = tt

fly_to-IsResetLater : (at : Option Place) (s : Demo) → IsResetLater s → IsResetLater (fly_to at s)
fly_to-IsResetLater none s h = h
fly_to-IsResetLater (some p) s h = Glows-listener s.listeners p s.clearing

fly-IsResetLater :
    (container : Bool) (h3 : H3) (s : Demo)
    → IsResetLater s
    → IsResetLater (fly_to_lab_cell container h3 s)
unfolding fly_to_lab_cell
fly-IsResetLater false h3 s h = h
fly-IsResetLater true none s h = h
fly-IsResetLater true (some cell_to_lat_lng) s h =
    fly_to-IsResetLater (cell_to_lat_lng lab_cell) s h

settle-IsResetLater :
    (project : Place → Point) (p : Place) (ps : List Place) (s : Demo)
    → IsResetLater (settle project (p ∷ ps) s)
settle-IsResetLater project p [] s = Glows-timer s.active s.listeners s.clearing
settle-IsResetLater project p (q ∷ ps) s =
    settle-IsResetLater project q ps (once_move_end project p s)

move_end-IsResetLater :
    (project : Place → Point) (ps : List Place) (s : Demo)
    → Glows s.active ps s.clearing
    → IsResetLater (settle project ps (record s { listeners = [] }))
move_end-IsResetLater project [] s h = h
move_end-IsResetLater project (p ∷ ps) s h =
    settle-IsResetLater project p ps (record s { listeners = [] })

on_event-IsResetLater : (e : DemoEvent) (s : Demo) → IsResetLater s → IsResetLater (on_event e s)
unfolding on_event
on_event-IsResetLater (boot false) s h = h
on_event-IsResetLater (boot true) s h =
    if-both (λ (t : Demo). IsResetLater (build_button t)) s.styles h h
on_event-IsResetLater (click container h3) s h = fly-IsResetLater container h3 s h
on_event-IsResetLater (move_end project) s h = move_end-IsResetLater project s.listeners s h
on_event-IsResetLater pulse_timer s h = h
on_event-IsResetLater toast_timer s h = h
on_event-IsResetLater active_timer s h = tt

-- In every order of boots, clicks, ends of flights and timers, an active button has a flight to end
-- or a timer that resets it.
pub run-IsResetLater : (es : List DemoEvent) (s : Demo) → IsResetLater s → IsResetLater (run es s)
unfolding run
run-IsResetLater [] s h = h
run-IsResetLater (e ∷ es) s h = run-IsResetLater es (on_event e s) (on_event-IsResetLater e s h)

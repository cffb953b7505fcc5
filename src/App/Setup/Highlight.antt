-- ===== src/App/Setup/Highlight.antt =====
-- The highlighted cell of demo/app.js over sequences of events.
use mobydb_render_engine.Base.{ℕ, ◌≡◌, Bool, false, Option, none, some, List, [], ◌∷◌, ◌==◌, arith}
use mobydb_render_engine.App.View.{click_cell}
use mobydb_render_engine.App.Setup.{
  MapView, MapEvent, click, mouse_enter, mouse_leave, move_end, zoom_end, show_hint, hide_hint,
  deselected, on_cell_click, on_event, run,
}

abbrev pub is_the : Option ℕ → ℕ → Bool
is_the none j = false
is_the (some id) j = j == id

-- Exactly the selected feature has the state `selected`.
abbrev pub IsHighlighted : MapView → Type 0
IsHighlighted v = (j : ℕ) → v.is_selected j ≡ is_the v.selection.selected_feature_id j

deselected_all :
    (o : Option ℕ) (f : ℕ → Bool)
    → ((j : ℕ) → f j ≡ is_the o j)
    → (j : ℕ) → deselected o f j ≡ false
deselected_all none f h j = h j
deselected_all (some id) f h j = ground (arith, h j)

on_event-IsHighlighted :
    (z : ℕ) (e : MapEvent) (v : MapView) → IsHighlighted v → IsHighlighted (on_event z e v)
unfolding on_event on_cell_click click_cell
on_event-IsHighlighted z (click none) v h = h
on_event-IsHighlighted z (click (some (id, cell))) v h =
    λ j. ground (arith, deselected_all v.selection.selected_feature_id v.is_selected h j)
on_event-IsHighlighted z mouse_enter v h = h
on_event-IsHighlighted z mouse_leave v h = h
on_event-IsHighlighted z move_end v h = h
on_event-IsHighlighted z (zoom_end zoom) v h = h
on_event-IsHighlighted z (show_hint msg) v h = h
on_event-IsHighlighted z hide_hint v h = h

-- Over any sequence of clicks and other events of the map, from a map where exactly the selected feature,
-- if any, is highlighted: exactly the selected feature is highlighted, so never two at once.
pub run-IsHighlighted :
    (z : ℕ) (es : List MapEvent) (v : MapView) → IsHighlighted v → IsHighlighted (run z es v)
unfolding run
run-IsHighlighted z [] v h = h
run-IsHighlighted z (e ∷ es) v h =
    run-IsHighlighted z es (on_event z e v) (on_event-IsHighlighted z e v h)

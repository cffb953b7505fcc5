-- ===== src/Liveness/Tests.antt =====
-- Runs of demo/liveness_indicators.js on small inputs.
use mobydb_render_engine.Base.{
  ℕ, ◌≡◌, refl, Option, none, some, List, [], ◌∷◌, keep, Text, codes, arith, Bool, true, Result,
  throw,
}
use mobydb_render_engine.Liveness.{Log}
use mobydb_render_engine.Liveness.Window.{
  is_recent, increases, run_events, last_time, run_events_window,
}
use mobydb_render_engine.Liveness.Flash.{FlashEvent, flash_cells, frame, on_event, run}
use mobydb_render_engine.Liveness.Flash.Frames.{nothing}
use mobydb_render_engine.Liveness.Controller
use mobydb_render_engine.Liveness.Controller.{
  Controller, initial, StripEvent, map_with, cells, tick, epoch, timers, ping_url, without_slashes,
}
use mobydb_render_engine.Liveness.Controller.Toast.{toast_stays}

abbrev empty : Log
empty = record { entries = []; last_fetch_ts = none; prev_cell_count = 2 }

-- The first event falls out of the window of the last.
abbrev events : List (ℕ × ℕ)
events = (1000, 5) ∷ (30000, 3) ∷ (40000, 9) ∷ (70000, 10) ∷ []

run_events_window_example :
    (run_events events empty).entries
    ≡ keep (is_recent (last_time 0 events)) (increases empty.prev_cell_count events)
run_events_window_example =
    run_events_window events empty (omega arith, (omega arith, (omega arith, (omega arith, tt))))
      refl

-- Every cell has a boundary of one point.
abbrev boundary : Text → Option (List Text)
boundary h = some (h ∷ [])

abbrev flashes : List FlashEvent
flashes = flash_cells 0 (codes "8b" ∷ []) ∷ frame 300 ∷ flash_cells 400 (codes "8c" ∷ []) ∷ []

-- The end of the first flash clears the second one after 300 ms.
cleared_early :
    run boundary
      (flash_cells 0 (codes "8b" ∷ []) ∷ flash_cells 400 (codes "8c" ∷ []) ∷ frame 700 ∷ [])
      nothing
    ≡ record { features = []; running = 400 ∷ [] }
unfolding run on_event
cleared_early = refl

abbrev print : ℕ → Text
print n = n ∷ []

abbrev no_answer : Text → Result (Bool × ℕ)
no_answer url = throw url

abbrev hour : List StripEvent
hour =
    cells 1500 (map_with true) (some boundary) (some (codes "8b") ∷ none ∷ [])
    ∷ tick 3000 no_answer (record { n_cells = 2; current_epoch = 4 })
    ∷ epoch 4000 5
    ∷ timers 6199
    ∷ []

toast_stays_example :
    (Controller.run print (codes "http://api//") (epoch 1000 4 ∷ hour) (initial (some 9))).toast_on
    ≡ true
toast_stays_example =
    toast_stays print (codes "http://api//") 1000 4 9 hour (initial (some 9)) refl refl
      (omega arith)

slashes_removed : ping_url (codes "http://api//") ≡ some (codes "http://api/health")
unfolding ping_url without_slashes
slashes_removed = refl

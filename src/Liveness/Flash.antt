-- ===== src/Liveness/Flash.antt =====
-- The flash of cells on the map of demo/liveness_indicators.js: flashCells and its frames. Times are
-- milliseconds; the h3 library is a parameter, and a cell without a boundary is left out.
pub mod Frames
use mobydb_render_engine.Base.{
  ℕ, ◌+◌, ◌-◌, ◌≤◌, ◌≡◌, refl, sym, ap, ◌∙◌, Bool, true, false, Option, none, some, List, [], ◌∷◌,
  ◌++◌, map, Text, ltb, All, if◌then◌else◌, if-both, arith,
}

pub record FlashFeature : Type 0 where
  pub ring : List Text
  pub age_ms : ℕ

-- The data of the source `cells-flash`, and the start times of the animations that have a frame to come.
pub record Flash : Type 0 where
  pub features : List FlashFeature
  pub running : List ℕ

pub data FlashEvent : Type 0 where
  flash_cells : (now : ℕ) → List Text → FlashEvent
  -- `requestAnimationFrame`: every animation that waits for a frame gets it.
  frame : (now : ℕ) → FlashEvent

-- The ring is closed by its first point.
abbrev feature_of : Option (List Text) → List FlashFeature → List FlashFeature
feature_of none rest = rest
feature_of (some []) rest = rest
feature_of (some (p ∷ ps)) rest = record { ring = p ∷ ps ++ p ∷ []; age_ms = 0 } ∷ rest

abbrev pub aged : ℕ → List FlashFeature → List FlashFeature
aged age = map (λ (f : FlashFeature). record f { age_ms = age })

-- One frame of one animation: it ages all features, and after 700 ms it clears them and ends.
abbrev pub step : ℕ → ℕ → Flash → Flash
step now start s =
    let age = now - start in
    if ltb age 700
    then record { features = aged age s.features; running = s.running ++ start ∷ [] }
    else record { features = []; running = s.running }

abbrev pub steps : ℕ → List ℕ → Flash → Flash
steps now [] s = s
steps now (start ∷ starts) s = steps now starts (step now start s)

module _ (cell_to_boundary : Text → Option (List Text)) where
  abbrev pub flash_features : List Text → List FlashFeature
  flash_features [] = []
  flash_features (h ∷ hs) = feature_of (cell_to_boundary h) (flash_features hs)

  unfoldable pub on_event : FlashEvent → Flash → Flash
  on_event (flash_cells now h3s) s = record {
    features = flash_features h3s;
    running = s.running ++ now ∷ [];
  }
  on_event (frame now) s = steps now s.running (record s { running = [] })

  unfoldable pub run : List FlashEvent → Flash → Flash
  run [] s = s
  run (e ∷ es) s = run es (on_event e s)

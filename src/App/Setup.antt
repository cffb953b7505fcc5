-- ===== src/App/Setup.antt =====
-- The map of demo/app.js: what the `load` handler adds and starts, the listeners, the highlighted cell,
-- the cursor and the hint over the map. The map library draws; here its calls are data.
pub mod Highlight
use mobydb_render_engine.Base.{
  ℕ, suc, Bool, true, false, Option, none, some, List, [], ◌∷◌, ◌++◌, Text, codes, ◌==◌,
  if◌then◌else◌,
}
use mobydb_render_engine.App.View.{Selection, click_cell, is_zoom_high}

pub data LayerKind : Type 0 where
  line fill : LayerKind

pub record Layer : Type 0 where
  pub id : Text
  pub kind : LayerKind
  pub source : Text

pub data Command : Type 0 where
  -- `addSource` of an empty collection.
  add_source : (id : Text) → (generate_id : Bool) → Command
  add_layer : Layer → Command
  -- `map.on(event, layer, …)`.
  listen : (event : Text) → (layer : Option Text) → Command
  start : Text → Command

abbrev on_cells : Text → Command
on_cells event = listen event (some (codes "cells-fill"))

-- The `load` handler.
abbrev pub on_load : List Command
on_load =
    add_source (codes "tx-lines") true
    ∷ add_layer (record { id = codes "tx-lines-layer"; kind = line; source = codes "tx-lines" })
    ∷ add_source (codes "cells") false
    ∷ add_layer (record { id = codes "cells-fill"; kind = fill; source = codes "cells" })
    ∷ add_layer (record { id = codes "cells-stroke"; kind = line; source = codes "cells" })
    ∷ on_cells (codes "click")
    ∷ on_cells (codes "mouseenter")
    ∷ on_cells (codes "mouseleave")
    ∷ listen (codes "moveend") none
    ∷ listen (codes "zoomend") none
    ∷ start (codes "loadTransmissionLines")
    ∷ start (codes "refreshCells")
    ∷ start (codes "updateZoomReadout")
    ∷ start (codes "healthCheck")
    ∷ []

-- The colours of a cell's load, by thousandths of it, between which the map interpolates.
abbrev pub load_stops : List (ℕ × Text)
load_stops =
    (400, codes "#0f6e56")
    ∷ (800, codes "#5dcaa5")
    ∷ (1000, codes "#c0dd97")
    ∷ (1200, codes "#ef9f27")
    ∷ (1500, codes "#d85a30")
    ∷ []

-- What the paint of the cells' layers makes of the state `selected`: the opacity in hundredths, the
-- colour and the width, in tenths, of the stroke.
pub record Paint : Type 0 where
  pub fill_opacity : ℕ
  pub stroke_color : Text
  pub stroke_width : ℕ

unfoldable pub paint_of : (selected : Bool) → Paint
paint_of true = record { fill_opacity = 90; stroke_color = codes "#4ade80"; stroke_width = 25 }
paint_of false = record {
  fill_opacity = 55;
  stroke_color = codes "rgba(255, 255, 255, 0.15)";
  stroke_width = 5;
}

pub data Cursor : Type 0 where
  auto pointer : Cursor

pub record MapView : Type 0 where
  pub selection : Selection
  -- The feature state `selected` of the source `cells`, by feature.
  pub is_selected : ℕ → Bool
  pub cursor : Cursor
  pub zoom_readout : Option (ℕ × Bool)
  -- The hint's element, once it is made: its text and whether it is displayed.
  pub hint : Option (Text × Bool)
  -- The calls that the debounced `moveend` listener got.
  pub moves : ℕ

pub data MapEvent : Type 0 where
  -- A click on the layer `cells-fill`: the feature on top, and its `h3_cell`.
  click : Option (ℕ × Text) → MapEvent
  mouse_enter mouse_leave move_end : MapEvent
  zoom_end : (zoom : ℕ) → MapEvent
  show_hint : Text → MapEvent
  hide_hint : MapEvent

-- `map.setFeatureState({ source: "cells", id }, { selected })`.
abbrev pub set_feature_state : ℕ → Bool → (ℕ → Bool) → ℕ → Bool
set_feature_state id selected f j = if j == id then selected else f j

abbrev pub deselected : Option ℕ → (ℕ → Bool) → ℕ → Bool
deselected none f = f
deselected (some id) f = set_feature_state id false f

-- `onCellClick` up to its `await`.
unfoldable pub on_cell_click : Option (ℕ × Text) → MapView → MapView
on_cell_click none v = v
on_cell_click (some (id, cell)) v = record v {
  selection = click_cell id cell v.selection;
  is_selected =
      set_feature_state id true (deselected v.selection.selected_feature_id v.is_selected);
}

abbrev pub hidden : Option (Text × Bool) → Option (Text × Bool)
hidden none = none
hidden (some (text, shown)) = some (text, false)

-- The readout exists on the page; zooms are tenths, as it prints them.
unfoldable pub on_event : (cell_min_zoom : ℕ) → MapEvent → MapView → MapView
on_event cell_min_zoom (click feature) v = on_cell_click feature v
on_event cell_min_zoom mouse_enter v = record v { cursor = pointer }
on_event cell_min_zoom mouse_leave v = record v { cursor = auto }
on_event cell_min_zoom move_end v = record v { moves = suc v.moves }
on_event cell_min_zoom (zoom_end zoom) v = record v {
  zoom_readout = some (zoom, is_zoom_high cell_min_zoom zoom);
}
on_event cell_min_zoom (show_hint msg) v = record v { hint = some (msg, true) }
on_event cell_min_zoom hide_hint v = record v { hint = hidden v.hint }

unfoldable pub run : (cell_min_zoom : ℕ) → List MapEvent → MapView → MapView
run cell_min_zoom [] v = v
run cell_min_zoom (e ∷ es) v = run cell_min_zoom es (on_event cell_min_zoom e v)

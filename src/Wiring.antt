-- ===== src/Wiring.antt =====
-- The page of demo/app.js with what listens to its bus: the `cells` and `epoch` events that it sends, and
-- the strip of demo/liveness_indicators.js, which receives them and reads the shared state of the page.
-- `dispatchEvent` runs the listeners before it returns.
mod Tests
pub mod Counts
pub mod Host
pub mod Audit
use mobydb_render_engine.Base.{
  ℕ, Bool, Option, none, some, List, [], ◌∷◌, ◌++◌, map, Result, ok, throw, Text, codes, length,
  not, if◌then◌else◌,
}
use mobydb_render_engine.LabVerify.Json.{Json, str, prop}
use mobydb_render_engine.App.Mcp.{Script}
use mobydb_render_engine.App.Cells
use mobydb_render_engine.App.Cells.{
  Page, Event, refresh, reply, failed, slide, should_query_cells, is_pending,
}
use mobydb_render_engine.Liveness.Controller
use mobydb_render_engine.Liveness.Controller.{
  Controller, MapOf, H3, Shared, cells, epoch, tick, second, timers,
}

pub data Message : Type 0 where
  cells_message : List Json → Message
  epoch_message : ℕ → Message

pub record Desk : Type 0 where
  pub page : Page
  pub strip : Controller

pub data DeskEvent : Type 0 where
  -- An event of the map, of a query or of the slider's `input`.
  page_event : (now : ℕ) → Event → DeskEvent
  -- The slider's `change`, at the zoom of the map.
  slider_change : (now : ℕ) → (zoom : ℕ) → DeskEvent
  heartbeat : (now : ℕ) → (fetch : Text → Result (Bool × ℕ)) → DeskEvent
  render_timer : (now : ℕ) → DeskEvent
  strip_timers : (now : ℕ) → DeskEvent

-- `c.h3_cell` of a cell.
abbrev pub h3_of : Json → Option Text
h3_of c = elim (prop c (codes "h3_cell")) [
  | ok v ↦ elim v [ str s ↦ some s | _ ↦ none ]
  | throw message ↦ none
]

-- What `render` reads of `window.mobydbState`.
abbrev pub shared_of : Page → Shared
shared_of page = record { n_cells = length page.bus_cells; current_epoch = page.bus_epoch }

module _ (script : Script) (cell_to_boundary : Json → Result Json) (cell_min_zoom : ℕ)
    (is_viewport_error : Text → Bool) (fmt_int : ℕ → Text) (api_base : Text) (map_of : MapOf)
    (h3 : H3) where
  -- Whether the handler of an event calls `__syncCellsToBus`, which it then does once.
  unfoldable pub syncs : Event → Page → Bool
  syncs (refresh zoom) page =
      not (should_query_cells script cell_to_boundary cell_min_zoom is_viewport_error zoom)
  syncs (reply q r) page = is_pending script cell_to_boundary cell_min_zoom is_viewport_error q page
  syncs (failed q message) page =
      is_pending script cell_to_boundary cell_min_zoom is_viewport_error q page
  syncs (slide e) page = Bool.false

  abbrev pub handled : Event → Page → Page
  handled = Cells.handle script cell_to_boundary cell_min_zoom is_viewport_error

  unfoldable pub messages : Event → Page → List Message
  messages e page = if syncs e page then cells_message (handled e page).bus_cells ∷ [] else []

  -- The listeners of the strip.
  abbrev pub deliver : ℕ → Message → Controller → Controller
  deliver now (cells_message cs) c =
      Controller.on_event fmt_int api_base (cells now map_of h3 (map h3_of cs)) c
  deliver now (epoch_message e) c = Controller.on_event fmt_int api_base (epoch now e) c

  abbrev pub deliver_all : ℕ → List Message → Controller → Controller
  deliver_all now [] c = c
  deliver_all now (m ∷ ms) c = deliver_all now ms (deliver now m c)

  abbrev pub page_does : ℕ → Event → Desk → Desk
  page_does now e d = record {
    page = handled e d.page;
    strip = deliver_all now (messages e d.page) d.strip;
  }

  unfoldable pub on_event : DeskEvent → Desk → Desk
  on_event (page_event now e) d = page_does now e d
  on_event (slider_change now zoom) d =
      page_does now (refresh zoom)
        (record d { strip = deliver now (epoch_message d.page.current_epoch) d.strip })
  on_event (heartbeat now fetch) d = record d {
    strip = Controller.on_event fmt_int api_base (tick now fetch (shared_of d.page)) d.strip;
  }
  on_event (render_timer now) d = record d {
    strip = Controller.on_event fmt_int api_base (second now (shared_of d.page)) d.strip;
  }
  on_event (strip_timers now) d = record d {
    strip = Controller.on_event fmt_int api_base (timers now) d.strip;
  }

  unfoldable pub run : List DeskEvent → Desk → Desk
  run [] d = d
  run (e ∷ es) d = run es (on_event e d)

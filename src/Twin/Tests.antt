-- ===== src/Twin/Tests.antt =====
-- Runs of demo/twin_overlay.js on small inputs.
use mobydb_render_engine.Base.{
  ℕ, ◌≡◌, refl, sym, ap, true, false, none, some, List, [], ◌∷◌, Result, ok, throw, Text, codes,
  if◌then◌else◌, length, ◌==◌,
}
use mobydb_render_engine.LabVerify.Json.{null}
use mobydb_render_engine.Twin.{H3, Overlay, Latest}
use mobydb_render_engine.Twin.Panel.{
  Panel, PanelEvent, audit_open, twin_state, no_section, run_panel, cell_of, last_opened,
  run_panel-cell,
}
use mobydb_render_engine.Twin.Layer.{MapState}
use mobydb_render_engine.Twin.Inspector.{
  Inspector, InspectorEvent, nothing, input, submit, escape, reply,
}

abbrev idle : Overlay
idle = record {
  overlay_active = false;
  has_timer = false;
  button_active = false;
  count = none;
  layer = none;
  pending = 7 ∷ [];
  next_call = 8;
}

abbrev latest : Latest
latest = record { cells = some (null ∷ []); total = some (codes "1") }

-- Ids of twelve units stand at resolution 8, all others at resolution 11.
abbrev resolution : Text → Result ℕ
resolution s = if length s == 12 then ok 8 else ok 11

abbrev library : H3
library = record { get_resolution = resolution; parent_at_8 = λ s. ok (codes "881e805013ff") }

abbrev value : Result Text → Text
value (ok s) = s
value (throw e) = []

parent_law :
    (p : Text)
    → library.parent_at_8 (codes "8b1e8050145bfff") ≡ ok p
    → library.get_resolution p ≡ ok 8
parent_law p h = ap (λ r. resolution (value r)) (sym h)

abbrev panel : Panel
panel = record { inflight_cell = none; fetching = []; section = no_section }

abbrev panel_events : List PanelEvent
panel_events =
    audit_open (some (codes "a"))
    ∷ audit_open (some (codes "b"))
    ∷ twin_state (codes "b") (throw (codes "HTTP 404"))
    ∷ twin_state (codes "a") (ok null)
    ∷ []

run_panel-cell_example :
    cell_of (run_panel panel_events panel).section
    ≡ last_opened panel_events (cell_of panel.section)
run_panel-cell_example = run_panel-cell panel_events panel refl

abbrev bare_map : MapState
bare_map = record { source = none; fill_layer = false; line_layer = false; click_handlers = 0 }

abbrev inspector : Inspector
inspector = record {
  textarea = [];
  disabled = false;
  shown = nothing;
  asked = none;
  in_document = true;
  key_listener = true;
}

abbrev inspector_events : List InspectorEvent
inspector_events =
    input (codes "  ok ")
    ∷ submit
    ∷ input (codes "carico?")
    ∷ submit
    ∷ escape
    ∷ reply (throw (codes "HTTP 500")) (codes "0.4")
    ∷ []

-- ===== src/Compliance/Controller.antt =====
-- The controller of demo/compliance_overlay.js: the toggle, the legend, the paint of the layer and the section of the
-- audit panel, as a function of the events that the page sends. The calls of MapLibre in `applyOverlay` and
-- `removeOverlay` are taken not to throw.
use mobydb_render_engine.Base.{
  ℕ, Bool, true, false, not, ◌&&◌, Option, none, some, map_option, List, [], ◌∷◌, ◌++◌, Text, codes,
  ◌===◌, ◌==◌, if◌then◌else◌, digits,
}
use mobydb_render_engine.LabVerify.Json.{Json, num, str, arr, Items, nil, cons, is_truthy}
use mobydb_render_engine.Compliance.{
  BaseCellOf, Tier, tier_ok, tier_wa, tier_vi, Aux, no_aux, current, ed25519, behind, Score,
  Annotated, score_cell, annotate_cells,
}

abbrev items : List Json → Items
items [] = nil
items (v ∷ vs) = cons v (items vs)

-- `TIER`.
abbrev pub tier_text : Tier → Text
tier_text tier_ok = codes "OK"
tier_text tier_wa = codes "WA"
tier_text tier_vi = codes "VI"

-- `COLOR`.
abbrev color : Tier → Text
color tier_ok = codes "#14b8a6"
color tier_wa = codes "#f59e0b"
color tier_vi = codes "#ef4444"

abbrev pub compliance_paint_expression : Json
compliance_paint_expression = arr (
    items (
      str (codes "match")
      ∷ arr (items (str (codes "get") ∷ str (codes "tier") ∷ []))
      ∷ str (tier_text tier_ok)
      ∷ str (color tier_ok)
      ∷ str (tier_text tier_wa)
      ∷ str (color tier_wa)
      ∷ str (tier_text tier_vi)
      ∷ str (color tier_vi)
      ∷ str (codes "#94a3b8")
      ∷ []))

-- The paint properties of the layer `cells-fill`.
pub record Layer : Type 0 where
  pub fill_color : Json
  pub fill_opacity : Json

-- The layer and the features of the source `cells`, where the map has them.
pub record MapView : Type 0 where
  pub layer : Option Layer
  pub source : Option (List Annotated)

-- A list item of the section.
pub record Row : Type 0 where
  pub mark : Text
  pub data_ok : Bool
  pub label : Text
  pub aux : Text

pub record AuditSection : Type 0 where
  pub data_tier : Text
  pub pill : Text
  pub rows : List Row

abbrev aux_text : Aux → Text
aux_text no_aux = []
aux_text current = codes "current"
aux_text ed25519 = codes "ed25519"
aux_text (behind n) = digits n ++ codes " behind"

abbrev row : Bool → Text → Aux → Row
row is_ok label aux = record {
  mark = if is_ok then codes "[OK]" else codes "[VI]";
  data_ok = is_ok;
  label = label;
  aux = aux_text aux;
}

unfoldable pub render_audit_section : Score → AuditSection
render_audit_section s = record {
  data_tier = tier_text s.tier;
  pill = tier_text s.tier ++ codes " · " ++ digits s.score ++ codes "/4";
  rows =
      row s.detail.signature_ok (codes "Ed25519 signature") no_aux
      ∷ row s.detail.freshness_ok (codes "Proof ≤ 1 epoch old") s.detail.fresh_aux
      ∷ row s.detail.jurisdiction_ok (codes "EU data residency") no_aux
      ∷ row s.detail.delegation_ok (codes "Delegation attested") s.detail.deleg_aux
      ∷ [];
}

pub record Controller : Type 0 where
  pub on : Bool
  -- The item of `localStorage`.
  pub stored : Option Text
  pub toggle_on : Bool
  pub aria_pressed : Bool
  pub legend_on : Bool
  -- The legend has the inline style that hides it.
  pub legend_hidden : Bool
  -- Null before the first paint.
  pub saved_paint : Option Json
  pub map_view : Option MapView
  pub waits_for_load : Bool
  -- `window.mobydbState`.
  pub cells : List Json
  pub current_epoch : Json
  pub has_audit_host : Bool
  pub section : Option AuditSection

pub data ControllerEvent : Type 0 where
  toggle_click : ControllerEvent
  -- `cells` on the bus: the page has set its cells and its epoch before.
  cells_event : List Json → (current_epoch : Json) → ControllerEvent
  -- `epoch` on the bus: the page sets its epoch only with the next cells.
  epoch_event : ControllerEvent
  audit_open : (cell : Json) → ControllerEvent
  -- A click on the map, with the number of features of `cells-fill` under it.
  map_click : (feats : ℕ) → ControllerEvent
  map_load : ControllerEvent
  source_data : (source_id : Text) → (is_source_loaded : Bool) → ControllerEvent

abbrev pub painted : Layer → Layer
painted l = record { fill_color = compliance_paint_expression; fill_opacity = num (codes "0.58") }

abbrev pub unpainted : Option Json → Layer → Layer
unpainted none l = record l { fill_opacity = num (codes "0.45") }
unpainted (some saved) l = record { fill_color = saved; fill_opacity = num (codes "0.45") }

abbrev pub with_layer : Option MapView → (Layer → Layer) → Option MapView
with_layer none f = none
with_layer (some m) f = some (record m { layer = map_option f m.layer })

abbrev pub layer_of : Option MapView → Option Layer
layer_of none = none
layer_of (some m) = m.layer

abbrev pub overlaid : Option Layer → Controller → Controller
overlaid none c = c
overlaid (some l) c = record c {
  saved_paint = some l.fill_color;
  map_view = with_layer c.map_view painted;
}

abbrev pub apply_overlay : Controller → Controller
apply_overlay c = overlaid (layer_of c.map_view) c

abbrev pub remove_overlay : Controller → Controller
remove_overlay c = record c { map_view = with_layer c.map_view (unpainted c.saved_paint) }

-- From what `localStorage` holds when the page loads.
abbrev pub initial_on : Option Text → Bool
initial_on none = true
initial_on (some s) = s === codes "1"

abbrev pub stored_flag : Bool → Text
stored_flag b = if b then codes "1" else codes "0"

module _ (lib : BaseCellOf) where
  abbrev pub annotate : Controller → Option MapView → Option MapView
  annotate c none = none
  annotate c (some m) = some (record m {
    source = elim m.source [
      | none ↦ none
      | some features ↦ some (annotate_cells lib c.current_epoch c.cells features)
    ];
  })

  abbrev pub shown_as : Bool → Controller → Controller
  shown_as state c = record c { toggle_on = state; aria_pressed = state; legend_on = state }

  unfoldable pub paint : Bool → Controller → Controller
  paint true c =
      let s = shown_as true c in apply_overlay (record s { map_view = annotate s s.map_view })
  paint false c = remove_overlay (shown_as false c)

  abbrev pub repaint : Controller → Controller
  repaint c = if c.on then paint true c else c

  abbrev pub try_attach : Json → Controller → Controller
  try_attach cell c =
      if c.has_audit_host
      then record c { section = some (render_audit_section (score_cell lib cell c.current_epoch)) }
      else c

  abbrev pub switched : Bool → Controller → Controller
  switched state c = record c { on = state; stored = some (stored_flag state) }

  unfoldable pub on_event : ControllerEvent → Controller → Controller
  on_event toggle_click c = paint (not c.on) (switched (not c.on) c)
  on_event (cells_event cs now) c = repaint (record c { cells = cs; current_epoch = now })
  on_event epoch_event c = repaint c
  on_event (audit_open cell) c =
      let opened = if is_truthy cell then try_attach cell c else c in
      record opened { legend_hidden = true }
  on_event (map_click feats) c =
      if (feats == 0) && c.on then record c { legend_hidden = false } else c
  on_event map_load c =
      if c.waits_for_load then paint c.on (record c { waits_for_load = false }) else c
  on_event (source_data id is_loaded) c =
      if (id === codes "cells") && is_loaded then repaint c else c

  unfoldable pub run : List ControllerEvent → Controller → Controller
  run [] c = c
  run (e ∷ es) c = run es (on_event e c)

  -- The state of `controller()` before its first paint, on a page with that map.
  abbrev pub fresh :
      Option Text → Option MapView → (is_loaded host : Bool) → List Json → Json → Controller
  fresh stored view is_loaded host cells now = record {
    on = initial_on stored;
    stored = stored;
    toggle_on = initial_on stored;
    aria_pressed = initial_on stored;
    legend_on = initial_on stored;
    legend_hidden = false;
    saved_paint = none;
    map_view = view;
    waits_for_load = not is_loaded;
    cells = cells;
    current_epoch = now;
    has_audit_host = host;
    section = none;
  }

  -- `controller()`: a map that is loaded is painted at once.
  abbrev pub start : (is_loaded : Bool) → Controller → Controller
  start is_loaded c = if is_loaded then paint c.on c else c

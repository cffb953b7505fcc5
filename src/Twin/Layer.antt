-- ===== src/Twin/Layer.antt =====
-- applyMapOverlay and removeMapOverlay of demo/twin_overlay.js: the source, the layers and the click
-- handlers that the map has of the overlay. A handler stays when its layer is removed.
use mobydb_render_engine.Base.{
  ℕ, zero, suc, ◌+◌, ◌≡◌, refl, ap, Bool, true, false, Option, none, some, List, if◌then◌else◌,
  arith,
}
use mobydb_render_engine.Twin.{Feature}

pub record MapState : Type 0 where
  pub source : Option (List Feature)
  pub fill_layer : Bool
  pub line_layer : Bool
  -- The handlers of a click on the fill layer; each sends `audit-open`.
  pub click_handlers : ℕ

abbrev with_source : Option (List Feature) → List Feature → MapState → MapState
with_source (some existing) geojson m = record m { source = some geojson }
with_source none geojson m = record {
  source = some geojson;
  fill_layer = true;
  line_layer = true;
  click_handlers = suc m.click_handlers;
}

unfoldable pub apply_map_overlay : List Feature → MapState → MapState
apply_map_overlay geojson m = with_source m.source geojson m

unfoldable pub remove_map_overlay : MapState → MapState
remove_map_overlay m = record m { source = none; fill_layer = false; line_layer = false }

-- The events of a click on a cell of the overlay.
abbrev pub audit_opens : MapState → ℕ
audit_opens m = if m.fill_layer then m.click_handlers else 0

-- The overlay is switched on, gets its data, and is switched off, that often.
abbrev pub switched : ℕ → List Feature → MapState → MapState
switched zero geojson m = m
switched (suc n) geojson m = switched n geojson (remove_map_overlay (apply_map_overlay geojson m))

switched-handlers :
    (n : ℕ) (geojson : List Feature) (m : MapState)
    → m.source ≡ none
    → ((switched n geojson m).source ≡ none)
      × ((switched n geojson m).click_handlers ≡ m.click_handlers + n)
unfolding apply_map_overlay remove_map_overlay
switched-handlers zero geojson m h = (h, omega arith)
switched-handlers (suc n) geojson m h =
    let next = remove_map_overlay (apply_map_overlay geojson m) in
    let (gone, many) = switched-handlers n geojson next refl in
    let one : next.click_handlers ≡ suc m.click_handlers = rw h refl in
    (gone, omega (arith, many, one))

-- On a map without the overlay and without its handlers: after n times of switching it on and off, a
-- click on a cell of the overlay that is switched on once more sends `audit-open` n + 1 times.
pub audit_opens_lem :
    (n : ℕ) (geojson : List Feature) (m : MapState)
    → m.source ≡ none
    → m.click_handlers ≡ 0
    → audit_opens (apply_map_overlay geojson (switched n geojson m)) ≡ suc n
unfolding apply_map_overlay
audit_opens_lem n geojson m h k =
    let (gone, many) = switched-handlers n geojson m h in rw gone (ap suc (omega (arith, many, k)))

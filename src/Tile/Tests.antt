-- ===== src/Tile/Tests.antt =====
-- Runs of demo/lab_tile_preview.js on small inputs. The numbers are thousandths, held by naturals.
use mobydb_render_engine.Base.{
  ℕ, ◌*◌, ◌+◌, ◌-◌, ◌/◌, refl, false, some, none, [], ◌∷◌, List, Result, ok, Text, codes, arith,
}
use mobydb_render_engine.LabVerify.Json.{Json, str, obj, end, field}
use mobydb_render_engine.Tile.Projection.{Doubles, Corners}
use mobydb_render_engine.Tile.Projection.Exact.{HasUnits}
use mobydb_render_engine.Tile.Modal.{
  Page, TileEvent, LabRecord, StacItem, build_modal, close_click, escape, stac_reply, image_reply,
  on_event, run,
}
use mobydb_render_engine.Tile.Modal.Closing.{IsOneModal, IsClosed, OnlyOpenWaits, one_open_preview}
use mobydb_render_engine.Tile.Trigger.{Section}

-- Whole numbers in place of doubles; a difference below nought is nought.
abbrev naturals : Doubles ℕ
naturals = record {
  add = λ a b. a + b;
  sub = λ a b. a - b;
  mul = λ a b. a * b;
  div = λ a b. a / b;
  neg = λ a. a;
  below = λ a b. false;
  nought = 0;
  one = 1;
  half = 0;
  eps = 0;
  h = 1;
  tiny = 0;
}

naturals-HasUnits : HasUnits naturals
naturals-HasUnits = record {
  one_mul = λ a. omega arith;
  nought_mul = λ a. omega arith;
  add_nought = λ a. omega arith;
  nought_add = λ a. omega arith;
  sub_nought = refl;
  sub_one = refl;
}

abbrev scene : Corners ℕ
scene = record { nw = (120, 420); sw = (120, 410); se = (131, 410); ne = (130, 420) }

abbrev item : StacItem
item = record { thumb_href = some (codes "t.jpg"); ring = (codes "12.1", codes "41.9") ∷ [] }

abbrev lab_record : LabRecord
lab_record = record { stac_item_id = some (codes "S2A"); h3_cell = some (codes "88") }

abbrev page : Page
page = record {
  open_modal = none;
  roots = [];
  key_listener = false;
  previews = [];
  item_cache = [];
  next_id = 4;
}

abbrev events : List TileEvent
events =
    build_modal lab_record
    ∷ close_click
    ∷ stac_reply 4 (ok item)
    ∷ image_reply 4 (ok tt)
    ∷ build_modal lab_record
    ∷ stac_reply 5 (ok item)
    ∷ build_modal lab_record
    ∷ []

one_open_preview_example :
    IsOneModal (run events page)
    × OnlyOpenWaits (run events page)
    × IsClosed (on_event escape (run events page))
one_open_preview_example = one_open_preview events page (refl, refl) tt

-- Every text is the record of an item.
abbrev parsed : Text → Result Json
parsed s =
    ok
      (obj (field (codes "input") (obj (field (codes "stac_item_id") (str (codes "S2A")) end)) end))

abbrev section : Section
section = record { lab_record = some (codes "{}"); has_details = false; trigger = none }

-- ===== src/App/Tests.antt =====
-- Runs of demo/app.js on small inputs, with a toy parser and a toy library of cells.
use mobydb_render_engine.Base.{
  ◌≡◌, refl, inr, Bool, true, false, none, some, List, [], ◌∷◌, Result, ok, Text, codes, ◌===◌,
  if◌then◌else◌, All,
}
use mobydb_render_engine.LabVerify.Json.{Json, num, str, obj, arr, nil, cons, end, field}
use mobydb_render_engine.App.{id_from_h3}
use mobydb_render_engine.App.Mcp.{Script, HttpReply, read_reply, read_result}
use mobydb_render_engine.App.Cells.{
  Feature, hidden, Page, Event, refresh, reply, failed, slide, answered_cells, feature_of,
  features_of, run,
}
use mobydb_render_engine.App.Cells.Typed.{IsTyped, shown-IsTyped}
use mobydb_render_engine.App.View.{audit_empty}
use mobydb_render_engine.App.Setup.{MapView, MapEvent, auto, click, mouse_enter, zoom_end}
use mobydb_render_engine.App.Setup
use mobydb_render_engine.App.Setup.Highlight.{IsHighlighted, run-IsHighlighted}
use mobydb_render_engine.App.Cells.Race.{IsTracked, IsInStep, run-IsTracked, run-IsInStep}

-- A cell of a station, and the answer of the tool that holds it.
abbrev cell : Json
cell = obj (
    field (codes "h3_cell") (str (codes "8b"))
      (field (codes "payload") (obj end) (field (codes "epoch_id") (num (codes "9")) end)))

abbrev inner : Json
inner = obj (field (codes "cells") (arr (cons cell nil)) end)

abbrev rpc : Json
rpc = obj (
    field (codes "result")
      (obj (
        field (codes "content")
          (arr (cons (obj (field (codes "text") (str (codes "inner")) end)) nil)) end))
      end)

abbrev toy_parse : Json → Result Json
toy_parse (str s) = if s === codes "inner" then ok inner else ok rpc
toy_parse v = ok rpc

abbrev script : Script
script = record { json_parse = toy_parse; to_text = λ v. codes "value"; above_zero = λ v. true }

abbrev boundary : Json → Result Json
boundary v = ok (arr nil)

abbrev viewport_error : Text → Bool
viewport_error m = false

abbrev answer : HttpReply
answer = record { is_ok = true; status = codes "200"; text = codes "{}" }

abbrev page : Page
page = record {
  next_query = 1;
  last_fetch_abort = some 0;
  pending = 0 ∷ [];
  current_epoch = 9;
  shown = [];
  bus_cells = [];
  bus_epoch = 9;
  seen_epochs = 9 ∷ [];
  cells_fetched = 0;
  bytes_received = 0;
  epochs_touched = [];
  hint = hidden;
  server_error = none;
}

abbrev feature : Feature
feature = record {
  id = id_from_h3 (codes "8b");
  boundary = arr nil;
  h3_cell = str (codes "8b");
  epoch_id = num (codes "9");
  load = num (codes "0.5");
  operator = str [];
}

abbrev events : List Event
events = refresh 1400 ∷ reply 0 answer ∷ slide 3 ∷ reply 1 answer ∷ failed 1 (codes "late") ∷ []

answer_has_cells :
    answered_cells script boundary 1400 viewport_error (read_reply script answer) ≡ ok (cell ∷ [])
unfolding read_reply read_result
answer_has_cells = refl

cells_have_features :
    features_of script boundary 1400 viewport_error (cell ∷ []) ≡ ok (feature ∷ [])
unfolding features_of feature_of
cells_have_features = refl

empty_page-IsInStep : IsInStep script boundary 1400 viewport_error page
unfolding features_of
empty_page-IsInStep = refl

run-IsTracked_example : IsTracked (run script boundary 1400 viewport_error events page)
run-IsTracked_example =
    run-IsTracked script boundary 1400 viewport_error events page (inr (0, refl, refl, refl))

run-IsInStep_example :
    IsInStep script boundary 1400 viewport_error
      (run script boundary 1400 viewport_error events page)
run-IsInStep_example =
    run-IsInStep script boundary 1400 viewport_error events page empty_page-IsInStep

shown-IsTyped_example : All IsTyped (run script boundary 1400 viewport_error events page).shown
shown-IsTyped_example =
    shown-IsTyped script boundary 1400 viewport_error events page empty_page-IsInStep

abbrev map_view : MapView
map_view = record {
  selection = record { selected_feature_id = none; audit = audit_empty };
  is_selected = λ j. false;
  cursor = auto;
  zoom_readout = none;
  hint = none;
  moves = 0;
}

abbrev map_events : List MapEvent
map_events =
    mouse_enter
    ∷ click (some (4, codes "8a"))
    ∷ zoom_end 142
    ∷ click none
    ∷ click (some (7, codes "8b"))
    ∷ []

run-IsHighlighted_example : IsHighlighted (Setup.run 140 map_events map_view)
run-IsHighlighted_example = run-IsHighlighted 140 map_events map_view (λ j. refl)

-- ===== src/Compliance/Tests.antt =====
-- Runs of demo/compliance_overlay.js on small inputs.
use mobydb_render_engine.Base.{◌≡◌, refl, true, false, none, some, [], ◌∷◌, codes}
use mobydb_render_engine.Base.Int.{parse_int}
use mobydb_render_engine.LabVerify.Json.{Json, num, str, obj, end, field}
use mobydb_render_engine.Compliance.{BaseCellOf, manual_base}
use mobydb_render_engine.Compliance.Controller.{
  Controller, Layer, fresh, start, run, toggle_click, cells_event, map_load,
  compliance_paint_expression,
}
use mobydb_render_engine.Compliance.Switch.{IsSwitched, run-IsSwitched}
use mobydb_render_engine.Compliance.Paint.{colour_of, repainted_for_ever}

abbrev no_library : BaseCellOf
no_library = none

abbrev cell : Json
cell = obj (
    field (codes "h3_cell") (str (codes "8b1e8050145bfff"))
      (field (codes "epoch_id") (num (codes "9")) end))

-- The id of the source's comment has fifteen digits and base cell 15; with a leading zero it has sixteen.
manual_base_of_fifteen : manual_base (codes "8b1e8050145bfff") ≡ 116
unfolding manual_base parse_int
manual_base_of_fifteen = refl

manual_base_of_sixteen : manual_base (codes "08b1e8050145bfff") ≡ 15
unfolding manual_base parse_int
manual_base_of_sixteen = refl

abbrev old_blue : Layer
old_blue = record { fill_color = str (codes "#1d4ed8"); fill_opacity = num (codes "0.45") }

-- A page with that layer whose overlay was switched off before it was loaded.
abbrev page_off : Controller
page_off =
    fresh no_library (some (codes "0")) (some (record { layer = some old_blue; source = some [] }))
      true true (cell ∷ []) (num (codes "9"))

run-IsSwitched_example : IsSwitched (
    run no_library (toggle_click ∷ map_load ∷ []) (
      start no_library false (fresh no_library none none false true (cell ∷ []) (num (codes "9")))))
run-IsSwitched_example =
    run-IsSwitched no_library none none false true (cell ∷ []) (num (codes "9"))
      (toggle_click ∷ map_load ∷ [])

repainted_for_ever_example :
    (colour_of (run no_library (toggle_click ∷ toggle_click ∷ []) page_off).map_view
      ≡ some (str (codes "#1d4ed8")))
    × (colour_of
          (run no_library
            (toggle_click ∷ cells_event [] (num (codes "9")) ∷ toggle_click ∷ [])
            page_off).map_view
        ≡ some compliance_paint_expression)
repainted_for_ever_example =
    repainted_for_ever no_library page_off [] (num (codes "9")) (toggle_click ∷ []) refl refl

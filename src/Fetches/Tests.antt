-- ===== src/Fetches/Tests.antt =====
-- Runs of the fetch helpers on small inputs.
use mobydb_render_engine.Base.{
  ◌≡◌, refl, false, none, some, [], ◌∷◌, ◌++◌, Result, ok, throw, codes, ◌===◌, if◌then◌else◌,
}
use mobydb_render_engine.LabVerify.Json.{Json}
use mobydb_render_engine.App.Mcp.{HttpReply}
use mobydb_render_engine.Twin.Panel.{
  Panel, audit_open, twin_state, no_section, no_twin_data, failed, run_panel,
}
use mobydb_render_engine.Fetches.{fetch_twin_state, post_ai_inspect}
use mobydb_render_engine.Fetches.Missing.{refused_cell}

abbrev parse : Json → Result Json
parse v = ok v

abbrev unknown_cell : HttpReply
unknown_cell = record { is_ok = false; status = codes "404"; text = codes "no cell" }

abbrev panel : Panel
panel = record { inflight_cell = none; fetching = []; section = no_section }

refused_question :
    post_ai_inspect parse (ok unknown_cell) ≡ throw (codes "ai-inspect HTTP 404: no cell")
unfolding post_ai_inspect
refused_question = refl

refused_cell_example :
    (run_panel
      (audit_open (some (codes "88"))
        ∷ twin_state (codes "88") (fetch_twin_state parse (ok unknown_cell))
        ∷ [])
      panel).section
    ≡ (if unknown_cell.status === codes "404"
        then no_twin_data (codes "88")
        else failed (codes "88") (codes "twin/state HTTP " ++ unknown_cell.status))
refused_cell_example = refused_cell parse (codes "88") 52 48 52 unknown_cell panel refl refl

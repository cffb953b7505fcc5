-- ===== src/Fetches/Missing.antt =====
-- What demo/twin_overlay.js shows when the twin service has no cell: it looks for 404 in the message of
-- the error, not at the status.
use mobydb_render_engine.Base.{
  ℕ, ◌≡◌, refl, false, [], ◌∷◌, ◌++◌, Result, ok, Text, codes, ◌===◌, ===_refl, if◌then◌else◌,
  arith, some,
}
use mobydb_render_engine.LabVerify.Json.{Json}
use mobydb_render_engine.App.Mcp.{HttpReply}
use mobydb_render_engine.Twin.Panel.{
  Panel, audit_open, twin_state, on_event, run_panel, section_of, includes, no_twin_data, failed,
}
use mobydb_render_engine.Fetches.{fetch_twin_state}

abbrev twin_message : Text → Text
twin_message status = codes "twin/state HTTP " ++ status

-- A status of three characters is found in the message exactly if it is 404.
includes_message :
    (a b c : ℕ)
    → includes (twin_message (a ∷ b ∷ c ∷ [])) (codes "404") ≡ ((a ∷ b ∷ c ∷ []) === codes "404")
includes_message a b c = ground arith

module _ (json_parse : Json → Result Json) where
  refused_section :
      (cell : Text) (a b c : ℕ) (r : HttpReply)
      → r.is_ok ≡ false
      → r.status ≡ a ∷ b ∷ c ∷ []
      → section_of cell (fetch_twin_state json_parse (ok r)) ≡ (
          if r.status === codes "404"
          then no_twin_data cell
          else failed cell (twin_message r.status))
  unfolding fetch_twin_state
  refused_section cell a b c r refused e = rw (refused, e, includes_message a b c) refl

  -- When the twin service refuses a cell with a status of three digits, in any state of the panel: the
  -- section says that there is no data for the cell exactly if the status is 404, and otherwise that the
  -- request failed, with the status.
  pub refused_cell :
      (cell : Text) (a b c : ℕ) (r : HttpReply) (p : Panel)
      → r.is_ok ≡ false
      → r.status ≡ a ∷ b ∷ c ∷ []
      → (run_panel
          (audit_open (some cell) ∷ twin_state cell (fetch_twin_state json_parse (ok r)) ∷ [])
          p).section
        ≡ (if r.status === codes "404"
            then no_twin_data cell
            else failed cell (codes "twin/state HTTP " ++ r.status))
  unfolding run_panel on_event
  refused_cell cell a b c r p refused e =
      rw (===_refl cell) (refused_section cell a b c r refused e)

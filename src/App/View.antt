-- ===== src/App/View.antt =====
-- The readouts of demo/app.js and the audit panel's selection: what each shows, by its branch. The
-- reply of `get_provenance` and the verdict of `verifyProvenance` are data.
use mobydb_render_engine.Base.{
  ℕ, ◌*◌, ◌/◌, Bool, Option, none, some, length, Result, ok, throw, Text, codes, leb, ◌===◌, ◌∷◌,
  [], ◌+◌, ◌≡◌, refl, if◌then◌else◌,
}
use mobydb_render_engine.LabVerify.Json.{Json}
use mobydb_render_engine.Merkle.{Verdict}
use mobydb_render_engine.App.Cells.{Page}

-- The `/health` reply.
pub record Health : Type 0 where
  pub env : Text
  pub demo_enabled : Bool
  pub demo_rate_limit_per_min : Text

-- The dot and the text beside it.
pub data Status : Type 0 where
  dot_red dot_amber : Status
  dot_green : (env : Text) → (limit : Option Text) → Status

abbrev healthy : Health → Status
healthy h =
    dot_green (if h.env === codes "production" then codes "prod" else h.env)
      (if h.demo_enabled then some h.demo_rate_limit_per_min else none)

-- `updateServerStatus(health, error)`; an empty message is falsy.
unfoldable pub update_server_status : Option Health → Text → Status
update_server_status none [] = dot_amber
update_server_status (some h) [] = healthy h
update_server_status health (c ∷ message) = dot_red

-- `updateCostCounter`: cells, tenths of kilobytes, signatures, proofs and epochs.
pub record Counters : Type 0 where
  pub cells : ℕ
  pub tenths_of_kb : ℕ
  pub sigs : ℕ
  pub proofs : ℕ
  pub epochs : ℕ

unfoldable pub cost_counter : Page → Counters
cost_counter page = record {
  cells = page.cells_fetched;
  tenths_of_kb = (page.bytes_received * 10 + 512) / 1024;
  sigs = page.cells_fetched;
  proofs = page.cells_fetched;
  epochs = length page.epochs_touched;
}

-- The class that `updateZoomReadout` sets.
abbrev pub is_zoom_high : ℕ → ℕ → Bool
is_zoom_high cell_min_zoom zoom = leb cell_min_zoom zoom

-- The audit panel.
pub data Audit : Type 0 where
  audit_empty : Audit
  audit_loading : (cell : Text) → Audit
  audit_bundle : Json → Audit
  audit_failed : (cell message : Text) → Audit

-- `selectedFeatureId` and the panel.
pub record Selection : Type 0 where
  pub selected_feature_id : Option ℕ
  pub audit : Audit

-- `onCellClick` up to its `await`.
unfoldable pub click_cell : ℕ → Text → Selection → Selection
click_cell id cell s = record { selected_feature_id = some id; audit = audit_loading cell }

-- `onCellClick` after it, for a bundle that renders: that of the click's cell, whatever is selected.
unfoldable pub provenance_ready : Text → Result Json → Selection → Selection
provenance_ready cell (ok inner) s = record s { audit = audit_bundle inner }
provenance_ready cell (throw message) s = record s { audit = audit_failed cell message }

-- What `doVerify` shows of a verdict.
pub data Outcome : Type 0 where
  passed : (root : Option Text) → Outcome
  rejected : (sig_ok root_ok : Bool) → (error : Option Text) → Outcome

unfoldable pub verify_outcome : Verdict → Outcome
verify_outcome v =
    if v.is_ok then passed v.reconstructed_hex else rejected v.sig_ok v.root_ok v.error

-- A bundle that arrives replaces the one of a cell selected after its click, since the reply is not
-- compared with the selection.
late_bundle :
    (id id' : ℕ) (cell cell' : Text) (inner inner' : Json) (s : Selection)
    → (provenance_ready cell
        (ok inner)
        (provenance_ready cell' (ok inner') (click_cell id' cell' (click_cell id cell s)))).audit
      ≡ audit_bundle inner
unfolding provenance_ready
late_bundle id id' cell cell' inner inner' s = refl

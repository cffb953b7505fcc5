-- ===== src/Wiring/Tests.antt =====
-- Runs of the page with its strip and with its audit panel on small inputs.
use mobydb_render_engine.Base.{
  ◌≡◌, refl, Bool, true, false, none, some, List, [], ◌∷◌, Result, ok, throw, Text, codes, length,
  ℕ,
}
use mobydb_render_engine.LabVerify.Json.{Json, arr, nil}
use mobydb_render_engine.App.Cells.{Page, hidden, refresh, failed, features_of}
use mobydb_render_engine.App.View.{audit_bundle, audit_empty}
use mobydb_render_engine.App.Audit.Sample.{
  script, four_places, bundle_fields, bundle, bundle_renders,
}
use mobydb_render_engine.Liveness.Controller.{initial, no_map, Strip}
use mobydb_render_engine.Twin.{rollup_res8}
use mobydb_render_engine.Twin.Panel.{no_section, cell_of}
use mobydb_render_engine.Wiring.{
  Desk, DeskEvent, page_event, slider_change, heartbeat, run, on_event,
}
use mobydb_render_engine.Compliance.Controller.{AuditSection}
use mobydb_render_engine.LabOverlay
use mobydb_render_engine.Twin.Panel.{audit_open, twin_state}
use mobydb_render_engine.Wiring.Host
use mobydb_render_engine.Wiring.Host.{
  HostEvent, compliance, lab, twin, replaced, compliance_attaches, lab_attaches, twin_does,
}
use mobydb_render_engine.Wiring.Host.Slots.{Slots, Implements, put_all, run-Implements}
use mobydb_render_engine.Wiring.Counts.{IsCounted, strip_counts_map}
use mobydb_render_engine.Wiring.Audit
use mobydb_render_engine.Wiring.Audit.{provenance}
use mobydb_render_engine.Wiring.Audit.Sections.{replies, bundle_section}

abbrev boundary : Json → Result Json
boundary v = ok (arr nil)

abbrev viewport_error : Text → Bool
viewport_error m = false

abbrev fmt : ℕ → Text
fmt n = n ∷ []

abbrev page : Page
page = record {
  next_query = 0;
  last_fetch_abort = none;
  pending = [];
  current_epoch = 9;
  shown = [];
  bus_cells = [];
  bus_epoch = 9;
  seen_epochs = 9 ∷ [];
  cells_fetched = 0;
  bytes_received = 0;
  epochs_touched = [];
  hint = hidden;
  server_error = none;
}

abbrev desk : Desk
desk = record { page = page; strip = initial (some 9) }

abbrev events : List DeskEvent
events =
    page_event 1000 (refresh 14)
    ∷ page_event 2000 (failed 0 (codes "offline"))
    ∷ slider_change 3000 12
    ∷ []

abbrev healthy : Text → Result (Bool × ℕ)
healthy url = ok (true, 200)

desk-IsCounted :
    IsCounted script boundary 14 viewport_error fmt (codes "http://api/") no_map none desk
unfolding features_of
desk-IsCounted = (refl, refl)

strip_counts_map_example :
    let before =
      run script boundary 14 viewport_error fmt (codes "http://api/") no_map none events desk in
    let after =
      on_event script boundary 14 viewport_error fmt
        (codes "http://api/")
        no_map
        none
        (heartbeat 4000 healthy)
        before in
    ((s : Strip) × (after.strip.strip ≡ some s) × (s.total ≡ fmt (length after.page.shown)))
    × (after.strip.log.prev_cell_count ≡ length after.page.shown)
strip_counts_map_example =
    strip_counts_map script boundary 14 viewport_error fmt (codes "http://api/") no_map none events
      desk 4000 healthy desk-IsCounted

-- The provenance of the cell 8b is awaited, and the telemetry of another.
abbrev audit_desk : Audit.Desk
audit_desk = record {
  selection = record { selected_feature_id = some 1; audit = audit_empty };
  current_epoch = codes "9";
  next_call = 2;
  asking = (1, codes "8b") ∷ [];
  twin = record {
    inflight_cell = some (codes "8a");
    fetching = codes "8a" ∷ [];
    section = no_section;
  };
}

abbrev telemetry : List (Text × Result Json)
telemetry =
    (codes "8a", throw (codes "HTTP 404")) ∷ (codes "8b", ok bundle) ∷ (codes "8a", ok bundle) ∷ []

bundle_section_example :
    let after =
      Audit.run script four_places none
        (provenance 1 (ok bundle) ∷ replies script four_places none telemetry)
        audit_desk in
    (after.selection.audit ≡ audit_bundle bundle)
    × (cell_of after.twin.section ≡ some (rollup_res8 none (codes "8b")))
bundle_section_example =
    bundle_section script four_places none 1 b'8' (codes "b") bundle_fields telemetry audit_desk
      refl bundle_renders (refl, (refl, (refl, (refl, tt))))

abbrev attested : AuditSection
attested = record { data_tier = codes "OK"; pill = codes "OK"; rows = [] }

-- A cell is opened, its telemetry fails, and another cell is opened.
abbrev host_events : List HostEvent
host_events =
    replaced
    ∷ compliance_attaches attested
    ∷ lab_attaches (LabOverlay.loading (codes "88"))
    ∷ twin_does (audit_open (some (codes "88a")))
    ∷ lab_attaches (LabOverlay.empty_cell (codes "88"))
    ∷ twin_does (twin_state (codes "88a") (throw (codes "HTTP 404")))
    ∷ replaced
    ∷ twin_does (audit_open (some (codes "88b")))
    ∷ []

abbrev empty_host : Host.Page
empty_host = record {
  host = [];
  panel = record { inflight_cell = none; fetching = []; section = no_section };
}

abbrev empty_slots : Slots
empty_slots = record {
  compliance_slot = none;
  lab_slot = none;
  panel = record { inflight_cell = none; fetching = []; section = no_section };
}

run-Implements_example :
    Implements (Host.run host_events empty_host) (put_all host_events empty_slots)
run-Implements_example =
    run-Implements host_events empty_host empty_slots
      (elim [ compliance ↦ refl | lab ↦ refl | twin ↦ refl ], refl)

-- ===== src/Wiring/Audit/Sections.antt =====
-- Which cell the section of demo/twin_overlay.js is about, in the audit panel of demo/app.js.
use mobydb_render_engine.Base.{
  ◌≡◌, refl, sym, ap, ◌∙◌, inl, inr, ◌==◌, keep, true, false, Option, some, List, [], ◌∷◌, Result,
  ok, throw, Text, codes, ◌===◌, ===_sound, ===_refl, if◌then◌else◌, if-both, Bool-cases, ℕ,
}
use mobydb_render_engine.LabVerify.Json.{Json, obj, Fields, end, field, get}
use mobydb_render_engine.App.Mcp.{Script}
use mobydb_render_engine.App.View.{Selection, audit_bundle, audit_failed, provenance_ready}
use mobydb_render_engine.App.Audit
use mobydb_render_engine.App.Audit.{render_audit_panel}
use mobydb_render_engine.Twin.{H3, extract_cell_id, rollup_res8}
use mobydb_render_engine.Twin.Panel
use mathlib.Core.Path.{subst}
use mobydb_render_engine.Twin.Panel.{twin_state, section_of, cell_of, on_event-cell, is_inflight}
use mobydb_render_engine.Wiring.Audit.{
  Desk, DeskEvent, provenance, twin_reply, put, spread_fields, detail_of, find_call, opened,
  on_event, run,
}

-- The object has no such property.
abbrev pub Lacks : Text → Fields → Type 0
Lacks k end = Unit
Lacks k (field j v fs) = ((j === k) ≡ false) × Lacks k fs

get-put_other :
    (k j : Text) (v : Json) (fs : Fields) → (j === k) ≡ false → get k (put j v fs) ≡ get k fs
get-put_other k j v end h = rw h refl
get-put_other k j v (field i w fs) h = elim (Bool-cases (i === j)) [
  | inl e ↦
      let other : (i === k) ≡ false = ap (λ t. t === k) (===_sound i j e) ∙ h in rw (e, other) refl
  | inr e ↦ rw (e, get-put_other k j v fs h) refl
]

get-spread_fields :
    (k : Text) (fs base : Fields) → Lacks k fs → get k (spread_fields fs base) ≡ get k base
get-spread_fields k end base h = refl
get-spread_fields k (field j v fs) base (d, h) =
    get-spread_fields k fs (put j v base) h ∙ get-put_other k j v base d

-- The overlay reads the clicked cell from the detail of `audit-open`.
extract-detail :
    (h3 : Option H3) (c : ℕ) (s epoch : Text) (fs : Fields)
    → Lacks (codes "h3_cell") fs
    → extract_cell_id h3 (detail_of (c ∷ s) epoch (obj fs)) ≡ some (rollup_res8 h3 (c ∷ s))
unfolding extract_cell_id detail_of
extract-detail h3 c s epoch fs h = rw (get-spread_fields (codes "h3_cell") fs _ h) refl

module _ (script : Script) (to_fixed : Json → Result Text) (h3 : Option H3) where
  inflight_kept :
      (cell : Text) (r : Result Json) (p : Panel.Panel)
      → (Panel.on_event (twin_state cell r) p).inflight_cell ≡ p.inflight_cell
  unfolding Panel.on_event
  inflight_kept cell r p =
      if-both (λ (q : Panel.Panel). q.inflight_cell ≡ p.inflight_cell)
        (is_inflight p.inflight_cell cell) refl refl

  -- Replies of the twin service.
  abbrev pub replies : List (Text × Result Json) → List DeskEvent
  replies [] = []
  replies ((cell, r) ∷ rs) = twin_reply cell r ∷ replies rs

  replies-keep :
      (rs : List (Text × Result Json)) (d : Desk)
      → cell_of d.twin.section ≡ d.twin.inflight_cell
      → let after = run script to_fixed h3 (replies rs) d in
        (after.selection ≡ d.selection) × (cell_of after.twin.section ≡ d.twin.inflight_cell)
  unfolding run on_event
  replies-keep [] d h = (refl, h)
  replies-keep ((cell, r) ∷ rs) d h =
      let (s, c) =
        replies-keep rs (on_event script to_fixed h3 (twin_reply cell r) d)
          (on_event-cell (twin_state cell r) d.twin h) in
      (s, c ∙ inflight_kept cell r d.twin)

  -- The audit panel and the overlay's cell when a bundle has been opened.
  opened-Facts :
      (c : ℕ) (s : Text) (fs : Fields) (d : Desk)
      → Lacks (codes "h3_cell") fs
      → let e = opened script to_fixed h3 (c ∷ s) (obj fs) d in
        (e.selection.audit ≡ audit_bundle (obj fs))
        × (cell_of e.twin.section ≡ e.twin.inflight_cell)
        × (e.twin.inflight_cell ≡ some (rollup_res8 h3 (c ∷ s)))
  unfolding Panel.on_event provenance_ready
  opened-Facts c s fs d lacks =
      rw (extract-detail h3 c s d.current_epoch fs lacks) (refl, refl, refl)

  bundle_opens :
      (call : ℕ) (cell : Text) (inner : Json) {panel : Audit.Panel} (d : Desk)
      → find_call call d.asking ≡ some cell
      → render_audit_panel script to_fixed inner ≡ ok panel
      → on_event script to_fixed h3 (provenance call (ok inner)) d
        ≡ opened script to_fixed h3 cell inner
            (record d { asking = keep (λ c. if c.0 == call then false else true) d.asking })
  unfolding on_event
  bundle_opens call cell inner d asked drawn = rw (asked, drawn) refl

  -- Whatever the script and h3 do: when the provenance of a clicked cell arrives, its bundle renders and
  -- has no property `h3_cell` of its own, then after any replies of the twin service, for whatever cells,
  -- the panel shows that bundle and the section in it is about the clicked cell, rolled up.
  pub bundle_section :
      (call c : ℕ) (s : Text) (fs : Fields) {panel : Audit.Panel} (rs : List (Text × Result Json))
      (d : Desk)
      → find_call call d.asking ≡ some (c ∷ s)
      → render_audit_panel script to_fixed (obj fs) ≡ ok panel
      → Lacks (codes "h3_cell") fs
      → let after = run script to_fixed h3 (provenance call (ok (obj fs)) ∷ replies rs) d in
        (after.selection.audit ≡ audit_bundle (obj fs))
        × (cell_of after.twin.section ≡ some (rollup_res8 h3 (c ∷ s)))
  unfolding run
  bundle_section call c s fs rs d asked drawn lacks =
      let step = bundle_opens call (c ∷ s) (obj fs) d asked drawn in
      let d' : Desk = record d {
        asking = keep (λ c. if c.0 == call then false else true) d.asking;
      } in
      let (a, b, i) = opened-Facts c s fs d' lacks in
      let (kept, about) = replies-keep rs (opened script to_fixed h3 (c ∷ s) (obj fs) d') b in
      let Facts : Desk → Type 0 = λ e.
        (e.selection.audit ≡ audit_bundle (obj fs))
        × (cell_of e.twin.section ≡ some (rollup_res8 h3 (c ∷ s))) in
      subst (λ e. Facts (run script to_fixed h3 (replies rs) e)) (sym step)
        (ap (λ (v : Selection). v.audit) kept ∙ a, about ∙ i)

  -- A click whose provenance fails while the telemetry of an earlier cell is awaited: when that telemetry
  -- comes, the panel says that the later cell failed and holds the section of the earlier one.
  pub stale_telemetry :
      (call : ℕ) (cell other message : Text) (r : Result Json) (d : Desk)
      → find_call call d.asking ≡ some other
      → d.twin.inflight_cell ≡ some cell
      → let after =
          run script to_fixed h3 (provenance call (throw message) ∷ twin_reply cell r ∷ []) d in
        (after.selection.audit ≡ audit_failed other message)
        × (after.twin.section ≡ section_of cell r)
  unfolding run on_event Panel.on_event provenance_ready
  stale_telemetry call cell other message r d asked inflight =
      rw (asked, inflight, ===_refl cell) (refl, refl)

-- ===== src/App/Audit/Rows.antt =====
-- The rows of the audit panel of demo/app.js.
use mobydb_render_engine.Base.{
  ℕ, suc, ◌≡◌, refl, sym, ap, Bool, true, not, ◌||◌, Option, none, some, List, [], ◌∷◌, ◌++◌,
  Result, ok, Text, codes, ◌===◌, length, digits, every, All, All-append, if-both, ℤ, arith,
}
use mobydb_render_engine.Base.Errors.{Holds, Holds-bind, Holds-returned}
use mobydb_render_engine.LabVerify.Json.{
  Json, undefined, null, bool, num, non_finite, str, arr, obj, other, Items, nil, cons, prop,
  is_truthy,
}
use mobydb_render_engine.App.Escape.{is_markup, escape_html_lem}
use mobydb_render_engine.App.Mcp.{Script}
use mobydb_render_engine.App.Audit.{
  AuditRow, ProofRow, Tags, tag_rows, read_tags, read_head, read_payload, read_proof, short, Panel,
  escaped_row, voltage_row, osm_row, asset_rows, proof_rows_from, item_count, render_audit_panel,
}

-- The rows whose text the source escapes.
abbrev pub escapes : Text → Bool
escapes label = (label === codes "name") || (label === codes "ref") || (label === codes "type")

-- Such a row holds no markup.
abbrev pub IsSafeRow : AuditRow → Type 0
IsSafeRow r = (not (escapes r.label) || every (λ c. not (is_markup c)) r.value) ≡ true

or_right : (a b : Bool) → b ≡ true → (a || b) ≡ true
or_right a b h = ground arith

module _ (script : Script) (to_fixed : Json → Result Text) where
  escaped_row-IsSafeRow :
      (label : Text) (v : Json) → All IsSafeRow (escaped_row script to_fixed label v)
  escaped_row-IsSafeRow label v =
      if-both (All IsSafeRow) (is_truthy v)
        (or_right (not (escapes label)) _ (escape_html_lem (script.to_text v)).1, tt) tt

  voltage_row-IsSafeRow : (kv : Option ℤ) → All IsSafeRow (voltage_row script to_fixed kv)
  voltage_row-IsSafeRow none = tt
  voltage_row-IsSafeRow (some kv) = (refl, tt)

  osm_row-IsSafeRow : (v : Json) → Holds (All IsSafeRow) (osm_row script to_fixed v)
  osm_row-IsSafeRow (str []) = tt
  osm_row-IsSafeRow (str (c ∷ s)) = (refl, tt)
  osm_row-IsSafeRow undefined = tt
  osm_row-IsSafeRow null = tt
  osm_row-IsSafeRow (bool b) = if-both (Holds (All IsSafeRow)) b tt tt
  osm_row-IsSafeRow (num t) = if-both (Holds (All IsSafeRow)) (is_truthy (num t)) tt tt
  osm_row-IsSafeRow non_finite = tt
  osm_row-IsSafeRow (arr items) = tt
  osm_row-IsSafeRow (obj fs) = tt
  osm_row-IsSafeRow (other t) = tt

  tag_rows-IsSafeRow :
      (t : Tags) (osm : List AuditRow)
      → All IsSafeRow osm
      → All IsSafeRow (tag_rows script to_fixed t osm)
  tag_rows-IsSafeRow t osm h = (
    refl,
    All-append IsSafeRow (escaped_row script to_fixed (codes "name") t.name) _
        (escaped_row-IsSafeRow (codes "name") t.name)
        (All-append IsSafeRow (escaped_row script to_fixed (codes "ref") t.ref) _
          (escaped_row-IsSafeRow (codes "ref") t.ref)
          (All-append IsSafeRow (voltage_row script to_fixed _) _ (voltage_row-IsSafeRow _) (
            All-append IsSafeRow (escaped_row script to_fixed (codes "type") t.substation_type) _
              (escaped_row-IsSafeRow (codes "type") t.substation_type)
              (All-append IsSafeRow osm _ h (refl, (refl, tt)))))),
  )

  asset_rows-IsSafeRow :
      (cs payload : Json) → Holds (All IsSafeRow) (asset_rows script to_fixed cs payload)
  unfolding asset_rows
  asset_rows-IsSafeRow cs payload =
      Holds-bind (All IsSafeRow) (read_tags script to_fixed cs payload) _ λ tags e.
        Holds-bind (All IsSafeRow) (osm_row script to_fixed tags.osm_id) _ λ osm o.
          tag_rows-IsSafeRow tags osm
            (Holds-returned (All IsSafeRow) _ (osm_row-IsSafeRow tags.osm_id) o)

  -- One row for each hash.
  abbrev IsOneEach : Items → List ProofRow → Type 0
  IsOneEach items rows = length rows ≡ item_count script to_fixed items

  proof_rows-length :
      (i : ℕ) (items : Items) → Holds (IsOneEach items) (proof_rows_from script to_fixed i items)
  unfolding proof_rows_from
  proof_rows-length i nil = refl
  proof_rows-length i (cons h hs) =
      let P = IsOneEach (cons h hs) in
      Holds-bind P (short script to_fixed 32 h) _ λ hash e.
        Holds-bind P (proof_rows_from script to_fixed (suc i) hs) _ λ rest returned.
          ap suc (Holds-returned (IsOneEach hs) _ (proof_rows-length (suc i) hs) returned)

  -- What the panel says of its rows.
  abbrev pub IsFaithful : Panel → Type 0
  IsFaithful panel =
      All IsSafeRow panel.asset_rows
      × (panel.depth ≡ digits (length panel.proof_rows) ++ codes " hashes · blake3")

  -- Whatever JSON.parse, the texts of values and the number format do: of a bundle that renders, the
  -- rows name, ref and type of the panel hold no angle bracket and no double quote, and the depth that
  -- it prints is the number of hashes that it lists.
  pub render_audit_panel-IsFaithful :
      (p : Json) {panel : Panel}
      → render_audit_panel script to_fixed p ≡ ok panel
      → IsFaithful panel
  unfolding render_audit_panel
  render_audit_panel-IsFaithful p h =
      let rendered : Holds IsFaithful (render_audit_panel script to_fixed p) =
        Holds-bind IsFaithful (prop p (codes "cell_state")) _ λ cs e.
          Holds-bind IsFaithful (read_payload script to_fixed cs) _ λ payload e.
            Holds-bind IsFaithful (asset_rows script to_fixed cs payload) _ λ rows safe.
              Holds-bind IsFaithful (read_head script to_fixed p cs) _ λ head e.
                Holds-bind IsFaithful (read_proof script to_fixed p) _ λ proof e.
                  Holds-bind IsFaithful (proof_rows_from script to_fixed 0 proof) _
                    λ proof_rows many. (
                      Holds-returned (All IsSafeRow) _ (asset_rows-IsSafeRow cs payload) safe,
                      ap (λ n. digits n ++ codes " hashes · blake3")
                          (sym
                            (Holds-returned (IsOneEach proof) _ (proof_rows-length 0 proof) many)),
                    ) in
      Holds-returned IsFaithful (render_audit_panel script to_fixed p) rendered h

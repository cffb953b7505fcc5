-- ===== src/App/Audit/Sample.antt =====
-- A bundle that the audit panel of demo/app.js shows, with a toy parser.
use mobydb_render_engine.Base.{true, ◌≡◌, refl, [], ◌∷◌, ◌++◌, digits, Result, ok, Text, codes}
use mobydb_render_engine.LabVerify.Json.{Json, Fields, num, str, obj, arr, nil, cons, end, field}
use mobydb_render_engine.App.{escape_html, voltage_to_kv}
use mobydb_render_engine.App.Mcp.{Script}
use mobydb_render_engine.App.Operator.{normalize_operator}
use mobydb_render_engine.App.Audit.{Panel, render_audit_panel, asset_rows, proof_rows_from}

-- The text of a text or a number; the other values do not occur in the bundle.
abbrev pub plain_text : Json → Text
plain_text (str s) = s
plain_text (num t) = t
plain_text v = codes "value"

abbrev pub script : Script
script = record { json_parse = ok; to_text = plain_text; above_zero = λ v. true }

abbrev pub four_places : Json → Result Text
four_places v = ok (plain_text v ++ codes ".0000")

abbrev pub payload : Json
payload = obj (
    field (codes "operator") (str (codes "<acea>"))
      (field (codes "name") (str (codes "<Prati>")) (field (codes "value") (num (codes "1")) end)))

abbrev pub cell_state : Json
cell_state = obj (
    field (codes "h3_cell") (str (codes "8b")) (
      field (codes "epoch_id") (num (codes "9")) (
        field (codes "payload") payload (
          field (codes "identity_pk") (str (codes "aa")) (
            field (codes "content_hash") (str (codes "bb"))
              (field (codes "signature") (str (codes "cc")) end))))))

abbrev pub bundle_fields : Fields
bundle_fields = field (codes "cell_state") cell_state (
    field (codes "epoch")
      (obj (
        field (codes "merkle_root") (str (codes "dd"))
          (field (codes "cell_count") (num (codes "2")) end)))
      (field (codes "merkle_proof") (arr (cons (str (codes "ee")) nil))
        (field (codes "leaf_index") (num (codes "1")) end)))

abbrev pub bundle : Json
bundle = obj bundle_fields

-- The operator is shown as it is written, the name is escaped.
abbrev pub panel : Panel
panel = record {
  head = record {
    h3_cell = codes "8b";
    writer_short = codes "aa…";
    hash_short = codes "bb…";
    sig_short = codes "cc…";
    leaf = codes "1 of 2";
    root_short = codes "dd…";
    parent_short = codes "genesis";
  };
  asset_rows =
      record { label = codes "operator"; value = codes "<acea>" }
      ∷ record { label = codes "name"; value = codes "&lt;Prati&gt;" }
      ∷ record { label = codes "epoch"; value = codes "9 · Apr 5, 18:00" }
      ∷ record { label = codes "measurement"; value = codes "grid_load_pu = 1.0000" }
      ∷ [];
  depth = codes "1 hashes · blake3";
  proof_rows = record { idx = codes "0"; hash = codes "ee…" } ∷ [];
}

pub bundle_renders : render_audit_panel script four_places bundle ≡ ok panel
unfolding render_audit_panel asset_rows proof_rows_from escape_html voltage_to_kv normalize_operator
    digits
bundle_renders = refl

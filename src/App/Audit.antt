-- ===== src/App/Audit.antt =====
-- `renderAuditPanel` of demo/app.js: the texts that it puts into the markup of the audit panel, and the
-- errors that reading the bundle throws. `toFixed(4)`, `JSON.parse` and the text of a value in a
-- template are parameters; the fixed markup is not modelled.
mod Tests
pub mod Rows
pub mod Sample
use mobydb_render_engine.Base.{
  ℕ, zero, suc, Bool, true, false, Option, none, some, List, [], ◌∷◌, ◌++◌, Result, ok, throw,
  ◌>>=◌, Text, codes, ◌===◌, take, length, digits, if◌then◌else◌, ℤ, pos, negsuc,
}
use mobydb_render_engine.Base.Errors.{traverse}
use mobydb_render_engine.LabVerify.Json.{Json, str, num, arr, Items, nil, cons, prop, is_truthy}
use mobydb_render_engine.App.{voltage_to_kv, escape_html, split_on}
use mobydb_render_engine.App.Mcp.{Script, or_default}
use mobydb_render_engine.App.Operator.{Operator, normalize_operator}

pub record AuditRow : Type 0 where
  pub label : Text
  pub value : Text

-- What the asset section reads of the bundle.
pub record Tags : Type 0 where
  pub operator : Json
  pub load : Text
  pub voltage : Json
  pub name : Json
  pub ref : Json
  pub substation_type : Json
  pub osm_id : Json
  pub epoch_id : Json
  pub measurement : Json

pub record ProofRow : Type 0 where
  pub idx : Text
  pub hash : Text

-- The texts of the panel that are no lists.
pub record Head : Type 0 where
  pub h3_cell : Text
  pub writer_short : Text
  pub hash_short : Text
  pub sig_short : Text
  pub leaf : Text
  pub root_short : Text
  pub parent_short : Text

pub record Panel : Type 0 where
  pub head : Head
  pub asset_rows : List AuditRow
  pub depth : Text
  pub proof_rows : List ProofRow

-- `EPOCH_DATES`, by key.
abbrev epoch_dates : List (Text × Text)
epoch_dates =
    (codes "0", codes "Apr 1, 06:00")
    ∷ (codes "1", codes "Apr 1, 18:00")
    ∷ (codes "2", codes "Apr 2, 06:00")
    ∷ (codes "3", codes "Apr 2, 18:00")
    ∷ (codes "4", codes "Apr 3, 06:00")
    ∷ (codes "5", codes "Apr 3, 18:00")
    ∷ (codes "6", codes "Apr 4, 06:00")
    ∷ (codes "7", codes "Apr 4, 18:00")
    ∷ (codes "8", codes "Apr 5, 06:00")
    ∷ (codes "9", codes "Apr 5, 18:00")
    ∷ []

abbrev date_at : Text → List (Text × Text) → Text
date_at key [] = []
date_at key ((k, date) ∷ rest) = if k === key then date else date_at key rest

abbrev int_text : ℤ → Text
int_text (pos n) = digits n
int_text (negsuc n) = codes "-" ++ digits (suc n)

abbrev take_items : ℕ → Items → Items
take_items zero items = nil
take_items (suc n) nil = nil
take_items (suc n) (cons v rest) = cons v (take_items n rest)

-- `undefined` in a template, where a part is missing.
abbrev second_part : List Text → Text
second_part [] = codes "undefined"
second_part (p ∷ ps) = p

module _ (script : Script) (to_fixed : Json → Result Text) where
  open script use {json_parse, to_text}

  -- `v.slice(0, n)` in a template.
  abbrev slice : ℕ → Json → Result Text
  slice n (str s) = ok (take n s)
  slice n (arr items) = ok (to_text (arr (take_items n items)))
  slice n v = throw (codes "TypeError")

  abbrev pub short : ℕ → Json → Result Text
  short n v = do s ← slice n v; ok (s ++ codes "…")

  -- `if (!raw)`, and `String(raw)`.
  abbrev tag_of : Json → Option Text
  tag_of v = if is_truthy v then some (to_text v) else none

  abbrev row : Text → Text → AuditRow
  row label value = record { label = label; value = value }

  -- A row that is there if the value is, with its text escaped.
  abbrev pub escaped_row : Text → Json → List AuditRow
  escaped_row label v = if is_truthy v then row label (escape_html (to_text v)) ∷ [] else []

  abbrev pub voltage_row : Option ℤ → List AuditRow
  voltage_row none = []
  voltage_row (some kv) = row (codes "voltage") (int_text kv ++ codes " kV") ∷ []

  abbrev osm_link : Text → AuditRow
  osm_link osm_id =
      let (type', ids) = split_on b'/' osm_id in
      row (codes "osm id") (
        codes "https://www.openstreetmap.org/"
        ++ type'
        ++ codes "/"
        ++ second_part ids
        ++ codes " "
        ++ osm_id
        ++ codes " ↗")

  abbrev pub osm_row : Json → Result (List AuditRow)
  osm_row (str []) = ok []
  osm_row (str (c ∷ s)) = ok (osm_link (c ∷ s) ∷ [])
  osm_row v = if is_truthy v then throw (codes "TypeError") else ok []

  -- The asset section: the tags of the station, the epoch and the measurement.
  abbrev pub read_tags : Json → Json → Result Tags
  read_tags cs payload = do
    operator ← prop payload (codes "operator")
    value ← prop payload (codes "value")
    load ← to_fixed (or_default value (num (codes "0")))
    voltage ← prop payload (codes "voltage")
    name ← prop payload (codes "name")
    ref ← prop payload (codes "ref")
    substation_type ← prop payload (codes "substation_type")
    osm_id ← prop payload (codes "osm_id")
    epoch_id ← prop cs (codes "epoch_id")
    measurement ← prop payload (codes "measurement")
    ok (record {
      operator = operator;
      load = load;
      voltage = voltage;
      name = name;
      ref = ref;
      substation_type = substation_type;
      osm_id = osm_id;
      epoch_id = epoch_id;
      measurement = measurement;
    })

  abbrev epoch_row : Json → AuditRow
  epoch_row epoch_id =
      row (codes "epoch")
        (to_text epoch_id ++ codes " · " ++ date_at (to_text epoch_id) epoch_dates)

  abbrev measurement_row : Tags → AuditRow
  measurement_row t =
      let name = if is_truthy t.measurement then t.measurement else str (codes "grid_load_pu") in
      row (codes "measurement") (to_text name ++ codes " = " ++ t.load)

  abbrev pub tag_rows : Tags → List AuditRow → List AuditRow
  tag_rows t osm =
      row (codes "operator") (normalize_operator (tag_of t.operator)).display
      ∷ (escaped_row (codes "name") t.name
          ++ (escaped_row (codes "ref") t.ref
              ++ (voltage_row (voltage_to_kv (tag_of t.voltage))
                  ++ (escaped_row (codes "type") t.substation_type
                      ++ (osm ++ epoch_row t.epoch_id ∷ measurement_row t ∷ [])))))

  unfoldable pub asset_rows : Json → Json → Result (List AuditRow)
  asset_rows cs payload = do
    tags ← read_tags cs payload
    osm ← osm_row tags.osm_id
    ok (tag_rows tags osm)

  abbrev parent_text : Json → Result Text
  parent_text v = if is_truthy v then short 16 v else ok (codes "genesis")

  -- The callback of `merkle_proof.map`.
  unfoldable pub proof_rows_from : ℕ → Items → Result (List ProofRow)
  proof_rows_from i nil = ok []
  proof_rows_from i (cons h hs) = do
    hash ← short 32 h
    rest ← proof_rows_from (suc i) hs
    ok (record { idx = digits i; hash = hash } ∷ rest)

  abbrev pub item_count : Items → ℕ
  item_count nil = 0
  item_count (cons v vs) = suc (item_count vs)

  abbrev pub items_of : Json → Result Items
  items_of (arr items) = ok items
  items_of v = throw (codes "TypeError")

  abbrev payload_of : Json → Result Json
  payload_of (str s) = json_parse (str s)
  payload_of v = ok v

  abbrev pub read_payload : Json → Result Json
  read_payload cs = prop cs (codes "payload") >>= payload_of

  abbrev pub read_proof : Json → Result Items
  read_proof p = prop p (codes "merkle_proof") >>= items_of

  abbrev pub read_head : Json → Json → Result Head
  read_head p cs = do
    writer ← prop cs (codes "identity_pk") >>= short 16
    hash ← prop cs (codes "content_hash") >>= short 16
    sig ← prop cs (codes "signature") >>= short 16
    epoch ← prop p (codes "epoch")
    root ← prop epoch (codes "merkle_root") >>= short 16
    parent ← prop epoch (codes "parent_root") >>= parent_text
    h3_cell ← prop cs (codes "h3_cell")
    leaf_index ← prop p (codes "leaf_index")
    cell_count ← prop epoch (codes "cell_count")
    ok (record {
      h3_cell = to_text h3_cell;
      writer_short = writer;
      hash_short = hash;
      sig_short = sig;
      leaf = to_text leaf_index ++ codes " of " ++ to_text cell_count;
      root_short = root;
      parent_short = parent;
    })

  unfoldable pub render_audit_panel : Json → Result Panel
  render_audit_panel p = do
    cs ← prop p (codes "cell_state")
    payload ← read_payload cs
    rows ← asset_rows cs payload
    head ← read_head p cs
    proof ← read_proof p
    proof_rows ← proof_rows_from 0 proof
    ok (record {
      head = head;
      asset_rows = rows;
      depth = digits (item_count proof) ++ codes " hashes · blake3";
      proof_rows = proof_rows;
    })

-- ===== src/Bundle.antt =====
-- demo/compliance_button.js: what the compliance dashboard and the toast print of a bundle. Numbers are
-- held by their text; `toFixed(0)`, `toLocaleString` and the printed date are parameters. The fixed
-- markup around the texts is not modelled.
mod Tests
pub mod Modal
pub mod Closing
pub mod Texts
pub mod Downloads
use mobydb_render_engine.Base.{
  or_text, without_prefix, ℕ, ◌+◌, Bool, true, false, Option, none, some, List, [], ◌∷◌, ◌++◌, map,
  Text, codes, take, drop, length, ltb, starts_with, if◌then◌else◌,
}
use mobydb_render_engine.App.{escape_html}

-- `bundle.summary`: a number that is absent is `none`.
pub record Summary : Type 0 where
  pub n_cells : Option Text
  pub n_observations : Option Text
  pub n_signed_records : Option Text
  pub total_load_mw : Option Text

-- `bundle.chain`: the public keys.
pub record Chain : Type 0 where
  pub root_pubkey : Option Text
  pub lab_pubkey : Option Text
  pub ai_pubkey : Option Text
  pub twin_pubkey : Option Text

pub record Bundle : Type 0 where
  pub summary : Option Summary
  pub chain : Option Chain
  pub bundle_id : Option Text
  pub bundle_hash : Option Text
  pub bundle_signature : Option Text
  pub generated_at : Text

abbrev pub is_present : Option Text → Bool
is_present none = false
is_present (some []) = false
is_present (some (c ∷ s)) = true

unfoldable pub trunc : Text → ℕ → Text
trunc s n = if ltb n (length s) then take n s ++ codes "…" else s

abbrev summary_of : Option Summary → Summary
summary_of none = record {
  n_cells = none;
  n_observations = none;
  n_signed_records = none;
  total_load_mw = none;
}
summary_of (some s) = s

abbrev chain_of : Option Chain → Chain
chain_of none = record {
  root_pubkey = none;
  lab_pubkey = none;
  ai_pubkey = none;
  twin_pubkey = none;
}
chain_of (some c) = c

pub record Stat : Type 0 where
  pub value : Text
  pub label : Text

pub record ChainRow : Type 0 where
  pub check : Text
  pub label : Text
  pub pubkey : Text
  pub name : Text

pub record ActRow : Type 0 where
  pub article : Text
  pub topic : Text
  pub evidence : Text

-- What `buildDashboardHTML` puts into its markup.
pub record Dashboard : Type 0 where
  pub id : Text
  pub generated : Text
  pub stats : List Stat
  pub chain_rows : List ChainRow
  pub act_rows : List ActRow
  pub hash : Text
  pub signature : Text
  pub signed_by : Text

abbrev act : Text → Text → Text → ActRow
act article topic evidence = record { article = article; topic = topic; evidence = evidence }

abbrev aiact_map : List ActRow
aiact_map =
    act (codes "Art. 12") (codes "Record-keeping") (codes "40,320 signed records")
    ∷ act (codes "Art. 13") (codes "Trasparenza utenti") (codes "Disclaimer in ogni record")
    ∷ act (codes "Art. 14") (codes "Sorveglianza umana") (codes "AI Inspector q&a flow")
    ∷ act (codes "Art. 25") (codes "Obblighi fornitore") (codes "ULISSY s.r.l. chain doc")
    ∷ act (codes "Art. 26§6") (codes "Conservazione log") (codes "Postgres con timestamp UTC")
    ∷ act (codes "Art. 50") (codes "Trasparenza output AI") (codes "Per-inference signature")
    ∷ act (codes "Art. 72") (codes "Post-market monitoring") (codes "Observer/recent endpoint")
    ∷ []

abbrev stat : Text → Text → Stat
stat value label = record { value = escape_html value; label = escape_html label }

abbrev chain_row : Text → Text → Option Text → ChainRow
chain_row label name pk = record {
  check = if is_present pk then codes "✓" else codes "·";
  label = escape_html label;
  pubkey = escape_html (trunc (or_text pk (codes "n/a")) 28);
  name = escape_html name;
}

abbrev act_row : ActRow → ActRow
act_row a = act (escape_html a.article) (escape_html a.topic) (escape_html a.evidence)

module _ (to_fixed to_locale fmt_iso_short : Text → Text) where
  unfoldable pub build_dashboard : Bundle → Dashboard
  build_dashboard bundle =
      let s = summary_of bundle.summary in
      let c = chain_of bundle.chain in
      record {
        id = escape_html (or_text bundle.bundle_id (codes "—"));
        generated = escape_html (fmt_iso_short bundle.generated_at);
        stats =
            stat (or_text s.n_cells (codes "0")) (codes "cells covered")
            ∷ stat (or_text s.n_observations (codes "0")) (codes "AI observations")
            ∷ stat (to_locale (or_text s.n_signed_records (codes "0"))) (codes "signed records")
            ∷ stat (to_fixed (or_text s.total_load_mw (codes "0"))) (codes "MW total load")
            ∷ [];
        chain_rows =
            chain_row (codes "root") (codes "GNS Foundation") c.root_pubkey
            ∷ chain_row (codes "lab-env") (codes "GEIANT Lab") c.lab_pubkey
            ∷ chain_row (codes "ai-runtime") (codes "AI Runtime v1") c.ai_pubkey
            ∷ chain_row (codes "twin-runtime") (codes "Twin Runtime v1") c.twin_pubkey
            ∷ [];
        act_rows = map act_row aiact_map;
        hash = escape_html (trunc (or_text bundle.bundle_hash []) 60);
        signature = escape_html (trunc (or_text bundle.bundle_signature []) 60);
        signed_by = escape_html (trunc (or_text c.ai_pubkey []) 60);
      }

-- The headers of the PDF; an absent one is null.
pub record Headers : Type 0 where
  pub id : Option Text
  pub hash : Option Text
  pub signature : Option Text

pub record Toast : Type 0 where
  pub toast_id : Text
  pub signed : Text

unfoldable pub toast_of : Headers → Toast
toast_of h = record {
  toast_id = escape_html (trunc (or_text h.id []) 16);
  signed = escape_html (trunc (without_prefix (codes "ed25519:") (or_text h.signature [])) 24);
}

-- ===== src/LabOverlay/Verdict.antt =====
-- renderVerdict of demo/lab_overlay.js: the section of the audit panel for the verdict of
-- demo/lab_verify.js. The text of a value in a template, `toFixed(2)` and the wording of the errors are
-- parameters; the dates of a certificate are not modelled.
pub mod Shown
use mobydb_render_engine.Base.{
  ℕ, suc, ◌≡◌, refl, ap, ◌∙◌, sym, ◌↔◌, Bool, true, false, not, ◌&&◌, Option, none, some, List, [],
  ◌∷◌, ◌++◌, map, Result, ok, throw, ◌>>=◌, Text, codes, ◌===◌, take, length, keep, is_empty, join,
  digits, if◌then◌else◌, arith,
}
use mobydb_render_engine.Base.Errors.{Holds, Holds-bind, Holds-returned}
use mobydb_render_engine.LabVerify.Json.{Json, undefined, num, str, prop, is_truthy}
use mobydb_render_engine.LabVerify.Cert.{Platform, Problem, CertCheck}
use mobydb_render_engine.LabVerify.Record.{LabVerdict, verify_lab_record}
use mobydb_render_engine.LabVerify.Record.Settling.{accepts_record}
use mobydb_render_engine.LabVerify.Record.Trust.{IsGenuine, verify_lab_record_iff}
use mobydb_render_engine.App.{escape_html}
use mobydb_render_engine.App.Mcp.{optional}
use mobydb_render_engine.LabOverlay.{short_b64u}

pub record Row : Type 0 where
  pub key : Text
  pub value : Text
  -- The attribute `data-ok`, where the row has it.
  pub data_ok : Option Bool

pub record CertRow : Type 0 where
  pub data_ok : Bool
  pub role : Text
  pub subject : Text
  pub issuer : Text
  pub currency : Text

pub record VerdictSection : Type 0 where
  pub tier : Text
  pub tier_label : Text
  pub rows : List Row
  pub certs : List CertRow
  pub errors : List Text

-- The cells of the context.
pub record Context : Type 0 where
  pub clicked_cell : Text
  pub lab_cell : Text

-- `shortB64u` of any value.
abbrev short_json : Json → ℕ → Text
short_json (str s) n = short_b64u s n
short_json v n = codes "—"

-- `(v || '').slice(0, 10)`.
abbrev pub date_part : Json → Result Text
date_part (str s) = ok (take 10 s)
date_part v = if is_truthy v then throw (codes "TypeError") else ok []

abbrev row : Text → Text → Row
row key value = record { key = key; value = value; data_ok = none }

abbrev nonempty : List Text → List Text
nonempty = keep (λ s. not (is_empty s))

abbrev dash_if_empty : Text → Text
dash_if_empty [] = codes "—"
dash_if_empty (c ∷ s) = c ∷ s

abbrev third : List CertCheck → Option CertCheck
third (a ∷ (b ∷ (c ∷ rest))) = some c
third _ = none

abbrev or_json : Json → Json → Json
or_json v w = if is_truthy v then v else w

abbrev of_option : Option Json → Json
of_option none = undefined
of_option (some v) = v

module _ (to_text : Json → Text) (to_fixed : Text → Text) (describe : Problem → Text) where
  abbrev cloud_text : Json → Text
  cloud_text (num t) = to_fixed t ++ codes "% cloud"
  cloud_text v = []

  abbrev cell_rows : Context → List Row
  cell_rows ctx =
      if not (is_empty ctx.clicked_cell)
        && not (is_empty ctx.lab_cell)
        && not (ctx.clicked_cell === ctx.lab_cell)
      then row (codes "lab cell")
          (short_b64u ctx.lab_cell 16 ++ codes " · res-8 parent of clicked cell")
        ∷ []
      else []

  abbrev role_text : Option CertCheck → Text
  role_text none = codes "—"
  role_text (some c) = to_text (or_json c.role (str (codes "—")))

  abbrev cert_row : CertCheck → CertRow
  cert_row c = record {
    data_ok = c.is_ok;
    role = escape_html (to_text (or_json c.role (str (codes "?"))));
    subject = short_json (or_json (of_option c.subject) (str (codes "—"))) 20;
    issuer = short_json (or_json (of_option c.issuer) (str (codes "—"))) 20;
    currency = elim c.current [ some true ↦ codes "current" | _ ↦ codes "EXPIRED" ];
  }

  -- The two lines of the section's head.
  abbrev pub tier_of : LabVerdict → Text
  tier_of v = if v.is_ok then codes "OK" else codes "VI"

  abbrev tier_label_of : LabVerdict → Text
  tier_label_of v =
      if v.is_ok
      then codes "OK · " ++ digits v.chain_depth ++ codes "-level chain"
      else codes "tampered"

  abbrev outer_row : LabVerdict → Row
  outer_row v = record {
    key = codes "outer sig";
    value = if v.outer_signature_ok then codes "OK · Ed25519 / RFC 8785" else codes "FAIL";
    data_ok = some v.outer_signature_ok;
  }

  unfoldable pub render_verdict : Context → Json → Json → LabVerdict → Result VerdictSection
  render_verdict ctx record' root v = do
    input ← prop record' (codes "input")
    acquired ← date_part (optional input (codes "acquisition_timestamp"))
    label ← prop root (codes "label")
    root_pubkey ← prop root (codes "root_pubkey")
    signer ← prop record' (codes "signer_public_key")
    model ← prop record' (codes "model_version")
    epoch ← prop record' (codes "epoch")
    let cloud = cloud_text (optional input (codes "cloud_cover_percent"))
    ok (record {
      tier = tier_of v;
      tier_label = tier_label_of v;
      rows =
          cell_rows ctx
          ++ row (codes "trust root") (to_text label ++ codes " · " ++ short_json root_pubkey 16)
            ∷ row (codes "signer") (short_json signer 16)
            ∷ row (codes "signer role") (role_text (third v.chain))
            ∷ row (codes "chain depth") (digits v.chain_depth)
            ∷ outer_row v
            ∷ row (codes "model") (to_text model)
            ∷ row (codes "input")
                (dash_if_empty (join (codes " · ") (nonempty (acquired ∷ cloud ∷ []))))
            ∷ row (codes "lab epoch") (to_text epoch)
            ∷ [];
      certs = map cert_row v.chain;
      errors = map (λ e. escape_html (describe e)) v.errors;
    })

  -- The verification of a record and the section that shows its verdict.
  unfoldable pub verified_section : Platform → Context → Json → Json → Result VerdictSection
  verified_section env ctx record' root =
      verify_lab_record env record' root >>= render_verdict ctx record' root

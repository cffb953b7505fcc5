-- ===== src/LabOverlay/Tests.antt =====
-- Runs of demo/lab_overlay.js on small inputs.
use mobydb_render_engine.Base.{
  ◌≡◌, Bool, true, false, none, some, [], ◌∷◌, Result, ok, throw, refl, ◌↔◌, ◌===◌, Text, codes,
  ltb, length, arith, if◌then◌else◌,
}
use mobydb_render_engine.LabOverlay.{LabRecord, no_section, Counter, Overlay}
use mobydb_render_engine.LabVerify.Json.{Json, num, str, obj, arr, nil, cons, end, field}
use mobydb_render_engine.LabVerify.Cert.{Platform, Problem, verify_cert}
use mobydb_render_engine.LabVerify.Record.{
  verify_lab_record, walk, parse_certs, settle, verify_outer_signature, outer_signature,
  signable_content,
}
use mobydb_render_engine.LabVerify.Jcs.{jcs}
use mobydb_render_engine.LabVerify.Base64.{b64u_to_bytes}
use mobydb_render_engine.LabVerify.Record.Trust.{IsGenuine}
use mobydb_render_engine.App.Mcp.{Script, HttpReply, read_reply}
use mobydb_render_engine.LabOverlay.Query.{read_tool, read_predictions}
use mobydb_render_engine.LabOverlay.Query.Clients.{value, inner_value, can_add, clients_agree}
use mobydb_render_engine.LabOverlay.Verdict.{
  Context, VerdictSection, render_verdict, verified_section,
}
use mobydb_render_engine.LabOverlay.Verdict.Shown.{verified_section_iff}

abbrev counter : Counter
counter = record { display = codes "block"; restore = none }

-- Texts compared by their length.
abbrev longer : Text → Text → Bool
longer s t = ltb (length t) (length s)

longer_asym : (s t : Text) → longer s t ≡ true → longer t s ≡ false
longer_asym s t h = ground arith

longer_trans : (s t u : Text) → longer s t ≡ false → longer t u ≡ false → longer s u ≡ false
longer_trans s t u h k = ground arith

abbrev signed : Text → LabRecord
signed at = record { signed_at = at; signer_public_key = codes "AA" }

abbrev overlay : Overlay
overlay = record {
  next_click = 4;
  fetching = [];
  verifying = (3, codes "a", signed (codes "1")) ∷ [];
  inflight = some 3;
  cache = (codes "b", []) ∷ [];
  section = no_section;
  counter = counter;
}

-- A certificate of the key `AA`, issued by itself, is what every text parses to; every signature holds.
abbrev cert : Json
cert = obj (
    field (codes "subject_public_key") (str (codes "AA")) (
      field (codes "issued_by_public_key") (str (codes "AA")) (
        field (codes "subject_role") (str (codes "root")) (
          field (codes "not_before") (str (codes "a")) (
            field (codes "not_after") (str (codes "b")) (
              field (codes "version") (num (codes "1"))
                (field (codes "parent_signature") (str (codes "AQ")) end)))))))

abbrev platform : Platform
platform = record {
  json_parse = λ v. ok cert;
  date_parse = λ v. some 5;
  now = 5;
  ed25519_verify = λ key msg sig. ok true;
}

abbrev signed_record : Json
signed_record = obj (
    field (codes "record_version") (num (codes "1")) (
      field (codes "root_cert_json") (str (codes "{}")) (
        field (codes "lab_cert_json") (str (codes "{}")) (
          field (codes "runtime_cert_json") (str (codes "{}")) (
            field (codes "signer_public_key") (str (codes "AA")) (
              field (codes "signature_bytes") (str (codes "AQ")) (
                field (codes "input") (obj end) (
                  field (codes "model_version") (str (codes "m1"))
                    (field (codes "epoch") (num (codes "9")) end)))))))))

abbrev trust_root : Json
trust_root =
    obj (
      field (codes "root_pubkey") (str (codes "AA"))
        (field (codes "label") (str (codes "GNS")) end))

abbrev context : Context
context = record { clicked_cell = []; lab_cell = codes "88" }

abbrev text_of : Json → Text
text_of (str s) = s
text_of (num t) = t
text_of v = codes "value"

abbrev no_wording : Problem → Text
no_wording p = []

abbrev no_verdict : VerdictSection
no_verdict = record { tier = []; tier_label = []; rows = []; certs = []; errors = [] }

abbrev section_or : Result VerdictSection → VerdictSection
section_or (ok s) = s
section_or (throw e) = no_verdict

abbrev signed_section : VerdictSection
signed_section =
    section_or
      (verified_section text_of (λ t. t) no_wording platform context signed_record trust_root)

signed_section_returns :
    verified_section text_of (λ t. t) no_wording platform context signed_record trust_root
    ≡ ok signed_section
unfolding verified_section render_verdict verify_lab_record walk parse_certs settle
    verify_outer_signature outer_signature verify_cert jcs signable_content b64u_to_bytes
signed_section_returns = refl

signed_section_tier : signed_section.tier ≡ codes "OK"
unfolding verified_section render_verdict verify_lab_record walk parse_certs settle
    verify_outer_signature outer_signature verify_cert jcs signable_content b64u_to_bytes
signed_section_tier = refl

verified_section_iff_example :
    ((signed_section.tier === codes "OK") ≡ true) ↔ IsGenuine platform signed_record trust_root
verified_section_iff_example =
    verified_section_iff text_of (λ t. t) no_wording platform context signed_record trust_root
      signed_section_returns

-- The reply of the endpoint, whose text and inner text parse to one object.
abbrev rpc : Json
rpc = obj (
    field (codes "result")
      (obj (
        field (codes "content") (arr (cons (obj (field (codes "text") (str (codes "{}")) end)) nil))
          end))
      end)

abbrev script : Script
script = record { json_parse = λ v. ok rpc; to_text = text_of; above_zero = λ v. true }

abbrev reply : HttpReply
reply = record { is_ok = true; status = codes "200"; text = codes "{}" }

reply_resolves : value (read_predictions script reply) ≡ some rpc
unfolding read_predictions read_tool
reply_resolves = refl

clients_agree_example :
    inner_value (read_reply script reply)
    ≡ (if can_add script (ok rpc) then value (read_predictions script reply) else none)
clients_agree_example = clients_agree script reply

-- ===== src/LabVerify/Record.antt =====
-- Sections 5 to 7 of demo/lab_verify.js: the outer signature, `verifyLabRecord`, `verifyResponse`.
-- A rejected promise is `throw`.
pub mod Answer
pub mod Settling
pub mod Trust
use mobydb_render_engine.Base.{
  ℕ, suc, Bool, true, false, not, ◌&&◌, ◌||◌, List, [], ◌∷◌, ◌++◌, Result, ok, throw, ◌>>=◌, ◌>>◌,
  Text, codes, length, every, is_empty, if◌then◌else◌,
}
use mobydb_render_engine.LabVerify.Json.{
  Json, undefined, num, arr, obj, Items, nil, cons, Fields, end, field, prop, is_truthy, strict_eq,
  to_primitive,
}
use mobydb_render_engine.LabVerify.Jcs.{jcs, utf8}
use mobydb_render_engine.LabVerify.Cert.{
  Platform, Label, root_cert, lab_cert, runtime_cert, Problem, no_record, no_trust_root,
  unsupported_version, parse_failed, anchor_mismatch, not_self_signed, signer_mismatch,
  outer_invalid, CertCheck, decode_b64u, shown_unless, verify_cert,
}

-- What `verifyLabRecord` resolves to.
pub record LabVerdict : Type 0 where
  pub is_ok : Bool
  pub trust_root : Json
  pub trust_root_label : Json
  pub chain_depth : ℕ
  pub signer : Json
  pub outer_signature_ok : Bool
  pub chain : List CertCheck
  pub errors : List Problem

-- A property of a value that is known to be truthy, or else the value: `v && v.k`.
abbrev pub and_prop : Json → Text → Json
and_prop v k =
    let inner : Json = elim (prop v k) [ ok w ↦ w | throw e ↦ undefined ] in
    if is_truthy v then inner else v

abbrev pub prop_or_undefined : Json → Text → Json
prop_or_undefined v k = elim (prop v k) [ ok w ↦ w | throw e ↦ undefined ]

abbrev signed_keys : List Text
signed_keys =
    codes "h3_cell"
    ∷ codes "epoch"
    ∷ codes "model_version"
    ∷ codes "input"
    ∷ codes "model"
    ∷ codes "output"
    ∷ codes "runtime"
    ∷ codes "record_version"
    ∷ []

abbrev pick : List Text → Json → Fields
pick [] record' = end
pick (k ∷ ks) record' = field k (prop_or_undefined record' k) (pick ks record')

-- The eight properties that are signed.
unfoldable pub signable_content : Json → Json
signable_content record' = obj (pick signed_keys record')

-- `for (const c of result.chain) if (!c.ok) errors.push(...c.errors)`.
abbrev pub chain_errors : List CertCheck → List Problem
chain_errors [] = []
chain_errors (c ∷ cs) = if c.is_ok then chain_errors cs else c.errors ++ chain_errors cs

-- `if (!passed) errors.push(problem)`.
abbrev pub unless : Bool → Problem → List Problem
unless true problem = []
unless false problem = problem ∷ []

module _ (env : Platform) where
  open env use {json_parse, ed25519_verify}

  unfoldable pub outer_signature : Json → Result Bool
  outer_signature record' = do
    canonical ← jcs (signable_content record')
    signature ← prop record' (codes "signature_bytes")
    sig ← decode_b64u signature
    signer ← prop record' (codes "signer_public_key")
    key ← decode_b64u signer
    ed25519_verify key (utf8 canonical) sig

  abbrev pub caught_false : Result Bool → Bool
  caught_false (ok b) = b
  caught_false (throw e) = false

  unfoldable pub verify_outer_signature : Json → Bool
  verify_outer_signature record' = caught_false (outer_signature record')

  -- The result object as it is first built, with a list of errors.
  abbrev pub rejected : Json → Json → List Problem → LabVerdict
  rejected record' root errs = record {
    is_ok = false;
    trust_root = and_prop root (codes "root_pubkey");
    trust_root_label = and_prop root (codes "label");
    chain_depth = 0;
    signer = and_prop record' (codes "signer_public_key");
    outer_signature_ok = false;
    chain = [];
    errors = errs;
  }

  -- The end of the function, once every value is read.
  unfoldable pub settle :
      Json
      → Json
      → (anchored self_signed signer_same outer : Bool) → (anchor self signer : Problem)
      → List CertCheck
      → LabVerdict
  settle record' root anchored self_signed signer_same outer anchor self signer chain =
      let errs =
        unless anchored anchor
        ++ unless self_signed self
        ++ chain_errors chain
        ++ unless signer_same signer
        ++ unless outer outer_invalid in
      record (rejected record' root errs) {
        is_ok = is_empty errs && outer && every (λ c. c.is_ok) chain;
        chain_depth = length chain;
        outer_signature_ok = outer;
        chain = chain;
      }

  -- From the parsed certificates on.
  unfoldable pub walk : Json → Json → Json → Json → Json → Result LabVerdict
  walk record' root root_cert' lab_cert' runtime_cert' = do
    anchor ← prop root (codes "root_pubkey")
    root_issuer ← prop root_cert' (codes "issued_by_public_key")
    shown_unless (strict_eq root_issuer anchor) root_issuer anchor
    root_subject ← prop root_cert' (codes "subject_public_key")
    shown_unless (strict_eq root_subject root_issuer) root_subject root_issuer
    root_check ← verify_cert env root_cert' root_issuer root_cert
    lab_check ← verify_cert env lab_cert' root_subject lab_cert
    lab_subject ← prop lab_cert' (codes "subject_public_key")
    runtime_check ← verify_cert env runtime_cert' lab_subject runtime_cert
    runtime_subject ← prop runtime_cert' (codes "subject_public_key")
    signer ← prop record' (codes "signer_public_key")
    shown_unless (strict_eq runtime_subject signer) runtime_subject signer
    ok (
        settle record' root (strict_eq root_issuer anchor) (strict_eq root_subject root_issuer)
          (strict_eq runtime_subject signer) (verify_outer_signature record')
          (anchor_mismatch root_issuer anchor) (not_self_signed root_subject root_issuer)
          (signer_mismatch runtime_subject signer) (root_check ∷ lab_check ∷ runtime_check ∷ []))

  -- One of the three `JSON.parse` calls.
  abbrev pub parse_cert : Json → Text → Result Json
  parse_cert record' k = do text ← prop record' k; json_parse text

  -- A fault in one of them stops with its message, before any certificate is read.
  unfoldable pub parse_certs : Json → Result (Json × Json × Json)
  parse_certs record' = do
    root ← parse_cert record' (codes "root_cert_json")
    lab ← parse_cert record' (codes "lab_cert_json")
    runtime ← parse_cert record' (codes "runtime_cert_json")
    ok (root, lab, runtime)

  abbrev pub after_parse : Json → Json → Result (Json × Json × Json) → Result LabVerdict
  after_parse record' root (throw e) = ok (rejected record' root (parse_failed e ∷ []))
  after_parse record' root (ok (c, l, r)) = walk record' root c l r

  unfoldable pub verify_lab_record : Json → Json → Result LabVerdict
  verify_lab_record record' root =
      let version = prop_or_undefined record' (codes "record_version") in
      if not (is_truthy record')
      then ok (rejected record' root (no_record ∷ []))
      else if not (is_truthy root) || not (is_truthy (prop_or_undefined root (codes "root_pubkey")))
      then ok (rejected record' root (no_trust_root ∷ []))
      else if not (strict_eq version (num (codes "1")))
      then to_primitive version >> ok (rejected record' root (unsupported_version version ∷ []))
      else after_parse record' root (parse_certs record')

  -- `Promise.all(records.map(…))`: one rejection rejects the whole.
  unfoldable pub verify_all : Json → Items → Result (List LabVerdict)
  verify_all root nil = ok []
  verify_all root (cons r rs) = do
    verdict ← verify_lab_record r root
    verdicts ← verify_all root rs
    ok (verdict ∷ verdicts)

-- What `verifyResponse` resolves to.
pub data Response : Type 0 where
  malformed : Response
  verified : (is_ok : Bool) → (trust_root : Json) → (count : ℕ) → List LabVerdict → Response

module _ (env : Platform) where
  abbrev pub verify_items : Json → Json → Result Response
  verify_items (arr records) root =
      if is_truthy root
      then (do
        verdicts ← verify_all env root records
        ok (verified (every (λ v. v.is_ok) verdicts) root (length verdicts) verdicts))
      else ok malformed
  verify_items _ root = ok malformed

  unfoldable pub verify_response : Json → Result Response
  verify_response response =
      if is_truthy response
      then verify_items (prop_or_undefined response (codes "records"))
          (prop_or_undefined response (codes "trust_root"))
      else ok malformed

-- ===== src/LabVerify/Cert/Valid.antt =====
-- When `verifyCert` of demo/lab_verify.js accepts a certificate.
use mobydb_render_engine.Base.{
  ℕ, ◌≤◌, ◌≡◌, refl, ap, ◌∙◌, ◌↔◌, inl, inr, Bool, true, false, Option, none, some, List, [], ◌∷◌,
  ◌++◌, Result, ok, throw, Text, codes, All, arith, if◌then◌else◌, is_empty,
}
use mobydb_render_engine.Base.Errors.{>>=-eq-ok, Result-cases}
use mobydb_render_engine.LabVerify.Base64.{Bytes}
use mobydb_render_engine.LabVerify.Json.{Json, prop, strict_eq}
use mobydb_render_engine.LabVerify.Jcs.{jcs, utf8}
use mobydb_render_engine.LabVerify.Cert.{
  Platform, Label, Problem, CertCheck, required, missing, decode_b64u, cert_body, in_window,
  cert_signature, conclude, judge, verify_cert, examine, parsed_date, shown_unless, early,
}
use mobydb_render_engine.LabVerify.Cert.Required.{
  Has, missing_sound, missing_complete, prop-IsReadable, prop_reads,
}

-- The certificate check returned, and said that all is well.
abbrev pub accepts : Result CertCheck → Bool
accepts (ok c) = c.is_ok
accepts (throw e) = false

from_ok :
    {c d : CertCheck} → ◌≡◌ {A = Result CertCheck} (ok d) (ok c) → c.is_ok ≡ true → d.is_ok ≡ true
from_ok e h = ap accepts e ∙ h

module _ (env : Platform) where
  -- What makes a certificate valid under the key of its parent.
  pub record IsValidCert (cert parent : Json) : Type 0 where
    pub complete : All (Has cert) required
    pub not_before : Json
    pub not_after : Json
    pub issuer : Json
    pub signature : Json
    pub reads_not_before : prop cert (codes "not_before") ≡ ok not_before
    pub reads_not_after : prop cert (codes "not_after") ≡ ok not_after
    pub reads_issuer : prop cert (codes "issued_by_public_key") ≡ ok issuer
    pub reads_signature : prop cert (codes "parent_signature") ≡ ok signature
    pub start : ℕ
    pub stop : ℕ
    pub starts : parsed_date env not_before ≡ ok (some start)
    pub stops : parsed_date env not_after ≡ ok (some stop)
    pub began : start ≤ env.now
    pub lasts : env.now ≤ stop
    pub issued_by_parent : strict_eq issuer parent ≡ true
    pub canonical : Text
    pub sig : Bytes
    pub key : Bytes
    pub canonical_body : jcs (cert_body cert) ≡ ok canonical
    pub decodes_sig : decode_b64u signature ≡ ok sig
    pub decodes_key : decode_b64u parent ≡ ok key
    pub verifies : env.ed25519_verify key (utf8 canonical) sig ≡ ok true

  conclude_sound :
      (label : Label) (errs : List Problem) (temp_ok : Bool) (sig : Result Bool)
      → (conclude env label errs temp_ok sig).0 ≡ true
      → (errs ≡ []) × (temp_ok ≡ true) × (sig ≡ ok true)
  unfolding conclude
  conclude_sound label [] temp_ok (ok true) h = ground arith
  conclude_sound label [] temp_ok (ok false) h = ground arith
  conclude_sound label [] temp_ok (throw e) h = ground arith
  conclude_sound label (x ∷ errs) temp_ok (ok b) h = ground arith
  conclude_sound label (x ∷ errs) temp_ok (throw e) h = ground arith

  in_window_sound :
      (nb na : Option ℕ)
      → in_window env nb na ≡ true
      → (a : ℕ) × (b : ℕ) × (nb ≡ some a) × (na ≡ some b) × (a ≤ env.now) × (env.now ≤ b)
  unfolding in_window
  in_window_sound (some a) (some b) h = (a, b, refl, refl, ground arith, ground arith)
  in_window_sound (some a) none h = ground arith
  in_window_sound none nb h = ground arith

  signature_sound :
      (cert signature parent : Json)
      → cert_signature env cert signature parent ≡ ok true
      → (canonical : Text) × (sig : Bytes) × (key : Bytes) × (jcs (cert_body cert) ≡ ok canonical)
        × (decode_b64u signature ≡ ok sig)
        × (decode_b64u parent ≡ ok key)
        × (env.ed25519_verify key (utf8 canonical) sig ≡ ok true)
  unfolding cert_signature
  signature_sound cert signature parent h =
      let (canonical, e1, h1) = >>=-eq-ok (jcs (cert_body cert)) _ h in
      let (sig, e2, h2) = >>=-eq-ok (decode_b64u signature) _ h1 in
      let (key, e3, h3) = >>=-eq-ok (decode_b64u parent) _ h2 in
      (canonical, sig, key, e1, e2, e3, h3)

  no_errors :
      (temp_ok same : Bool) (x y : Problem)
      → ((if temp_ok then [] else x ∷ []) ++ (if same then [] else y ∷ [])) ≡ []
      → (temp_ok ≡ true) × (same ≡ true)
  no_errors true true x y h = (refl, refl)
  no_errors true false x y h = ground arith
  no_errors false b x y h = ground arith

  judge_sound :
      (label : Label) (role nb na issuer subject constraints parent : Json) (start stop : Option ℕ)
      (sig : Result Bool)
      → (judge env label role nb na issuer subject constraints parent start stop sig).is_ok ≡ true
      → (in_window env start stop ≡ true) × (strict_eq issuer parent ≡ true) × (sig ≡ ok true)
  unfolding judge
  judge_sound label role nb na issuer subject constraints parent start stop sig h =
      let (clean, in_time, signed) = conclude_sound label _ _ _ h in
      let (_, same) = no_errors _ _ _ _ clean in (in_time, same, signed)

  -- A certificate that lacks a field is not accepted.
  examined :
      (errs : List Problem) (x : Result CertCheck) (role : Json) {c : CertCheck}
      → (if is_empty errs then x else ok (early env role errs)) ≡ ok c
      → c.is_ok ≡ true
      → (errs ≡ []) × (x ≡ ok c)
  examined [] x role e h = (refl, e)
  examined (p ∷ errs) x role e h = let refused : false ≡ true = ap accepts e ∙ h in cc

  examine_sound :
      (cert parent role : Json) (label : Label) {c : CertCheck}
      → All (Has cert) required
      → examine env cert parent label role ≡ ok c
      → c.is_ok ≡ true
      → IsValidCert cert parent
  unfolding examine
  examine_sound cert parent role label complete e h =
      let (nb, reads_nb, e1) = >>=-eq-ok (prop cert (codes "not_before")) _ e in
      let (na, reads_na, e2) = >>=-eq-ok (prop cert (codes "not_after")) _ e1 in
      let (from, parses_nb, e3) = >>=-eq-ok (parsed_date env nb) _ e2 in
      let (until, parses_na, e4) = >>=-eq-ok (parsed_date env na) _ e3 in
      let (_, _, e5) = >>=-eq-ok (shown_unless (in_window env from until) nb na) _ e4 in
      let (issuer, reads_issuer, e6) = >>=-eq-ok (prop cert (codes "issued_by_public_key")) _ e5 in
      let (_, _, e7) = >>=-eq-ok (shown_unless (strict_eq issuer parent) issuer parent) _ e6 in
      let (subject, _, e8) = >>=-eq-ok (prop cert (codes "subject_public_key")) _ e7 in
      let (signature, reads_sig, e9) = >>=-eq-ok (prop cert (codes "parent_signature")) _ e8 in
      let (constraints, _, e10) = >>=-eq-ok (prop cert (codes "constraints")) _ e9 in
      let (in_time, same, signed) =
        judge_sound label role nb na issuer subject constraints parent from until
          (cert_signature env cert signature parent) (from_ok e10 h) in
      let (start, stop, starts, stops, began, lasts) = in_window_sound from until in_time in
      let (canonical, sig, key, c1, c2, c3, c4) = signature_sound cert signature parent signed in
      record {
        complete = complete;
        not_before = nb;
        not_after = na;
        issuer = issuer;
        signature = signature;
        reads_not_before = reads_nb;
        reads_not_after = reads_na;
        reads_issuer = reads_issuer;
        reads_signature = reads_sig;
        start = start;
        stop = stop;
        starts = parses_nb ∙ ap ok starts;
        stops = parses_na ∙ ap ok stops;
        began = began;
        lasts = lasts;
        issued_by_parent = same;
        canonical = canonical;
        sig = sig;
        key = key;
        canonical_body = c1;
        decodes_sig = c2;
        decodes_key = c3;
        verifies = c4;
      }

  verify_cert_sound :
      (cert parent : Json) (label : Label) {c : CertCheck}
      → verify_cert env cert parent label ≡ ok c
      → c.is_ok ≡ true
      → IsValidCert cert parent
  unfolding verify_cert
  verify_cert_sound cert parent label e h =
      let (errs, reads_errs, e1) = >>=-eq-ok (missing label cert required) _ e in
      let (role, _, e2) = >>=-eq-ok (prop cert (codes "subject_role")) _ e1 in
      let (none_missing, e3) = examined errs (examine env cert parent label role) role e2 h in
      examine_sound cert parent role label
        (missing_sound label cert required (reads_errs ∙ ap ok none_missing)) e3 h

  in_window_complete :
      (a b : ℕ) → a ≤ env.now → env.now ≤ b → in_window env (some a) (some b) ≡ true
  unfolding in_window
  in_window_complete a b h k = ground arith

  verify_cert_complete :
      (cert parent : Json) (label : Label)
      → IsValidCert cert parent
      → accepts (verify_cert env cert parent label) ≡ true
  unfolding verify_cert examine
  verify_cert_complete cert parent label v =
      let readable = prop-IsReadable cert v.issuer _ v.reads_issuer in
      let (role, reads_role) = prop_reads cert (codes "subject_role") readable in
      let (subject, reads_subject) = prop_reads cert (codes "subject_public_key") readable in
      let (constraints, reads_constraints) = prop_reads cert (codes "constraints") readable in
      rw (
        missing_complete label cert required v.complete,
        reads_role,
        v.reads_not_before,
        v.reads_not_after,
        v.reads_issuer,
        reads_subject,
        v.reads_signature,
        reads_constraints,
        v.starts,
        v.stops,
        in_window_complete v.start v.stop v.began v.lasts,
        v.issued_by_parent,
        v.canonical_body,
        v.decodes_sig,
        v.decodes_key,
        v.verifies,
      )

  -- `verifyCert` accepts exactly the certificates that have every required field, are within their
  -- window, name the parent's key as issuer, and are signed by it over the canonical body.
  pub verify_cert_iff :
      (cert parent : Json) (label : Label)
      → (accepts (verify_cert env cert parent label) ≡ true) ↔ IsValidCert cert parent
  verify_cert_iff cert parent label = (
    λ h. elim (Result-cases (verify_cert env cert parent label)) [
      | inl (c, e) ↦ verify_cert_sound cert parent label e (rw (← ap accepts e) h)
      | inr (t, e) ↦ let clash : false ≡ true = rw (← ap accepts e) h in cc
    ],
    verify_cert_complete cert parent label,
  )

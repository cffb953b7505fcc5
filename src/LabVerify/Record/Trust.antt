-- ===== src/LabVerify/Record/Trust.antt =====
-- When `verifyLabRecord` of demo/lab_verify.js says that a record is genuine.
use mobydb_render_engine.Base.{
  ◌≡◌, refl, ap, ◌∙◌, ◌↔◌, Bool, true, false, [], ◌∷◌, Result, ok, throw, ◌>>◌, codes, arith,
}
use mobydb_render_engine.Base.Errors.{>>=-eq-ok}
use mobydb_render_engine.LabVerify.Json.{Json, num, prop, is_truthy, strict_eq, to_primitive}
use mobydb_render_engine.LabVerify.Cert.{
  shown_unless, Platform, CertCheck, verify_cert, root_cert, lab_cert, runtime_cert,
}
use mobydb_render_engine.LabVerify.Cert.Valid.{IsValidCert, accepts, verify_cert_iff}
use mobydb_render_engine.LabVerify.Record.Settling.{
  every_three, accepts_record, accepted_record, accepted, guards_sound, settle_sound,
  settle_complete,
}
use mobydb_render_engine.LabVerify.Record.{
  LabVerdict, prop_or_undefined, outer_signature, caught_false, verify_outer_signature, rejected,
  walk, parse_certs, after_parse, verify_lab_record,
}

module _ (env : Platform) where
  -- What makes a record genuine under a trust root, stated without the verifier.
  pub record IsGenuine (record' root : Json) : Type 0 where
    pub has_record : is_truthy record' ≡ true
    pub has_root : is_truthy root ≡ true
    pub has_pubkey : is_truthy (prop_or_undefined root (codes "root_pubkey")) ≡ true
    pub version_one :
        strict_eq (prop_or_undefined record' (codes "record_version")) (num (codes "1")) ≡ true
    pub root_cert' : Json
    pub lab_cert' : Json
    pub runtime_cert' : Json
    pub parses : parse_certs env record' ≡ ok (root_cert', lab_cert', runtime_cert')
    pub anchor : Json
    pub root_issuer : Json
    pub root_subject : Json
    pub lab_subject : Json
    pub runtime_subject : Json
    pub signer : Json
    pub reads_anchor : prop root (codes "root_pubkey") ≡ ok anchor
    pub reads_root_issuer : prop root_cert' (codes "issued_by_public_key") ≡ ok root_issuer
    pub reads_root_subject : prop root_cert' (codes "subject_public_key") ≡ ok root_subject
    pub reads_lab_subject : prop lab_cert' (codes "subject_public_key") ≡ ok lab_subject
    pub reads_runtime_subject : prop runtime_cert' (codes "subject_public_key") ≡ ok runtime_subject
    pub reads_signer : prop record' (codes "signer_public_key") ≡ ok signer
    pub anchored : strict_eq root_issuer anchor ≡ true
    pub self_signed : strict_eq root_subject root_issuer ≡ true
    pub root_valid : IsValidCert env root_cert' root_issuer
    pub lab_valid : IsValidCert env lab_cert' root_subject
    pub runtime_valid : IsValidCert env runtime_cert' lab_subject
    pub signed_by_runtime : strict_eq runtime_subject signer ≡ true
    pub outer_signed : outer_signature env record' ≡ ok true

  caught_true : (r : Result Bool) → caught_false env r ≡ true → r ≡ ok true
  caught_true (ok b) h = ap ok h
  caught_true (throw e) h = ground arith

  of_check : {c : CertCheck} (r : Result CertCheck) → r ≡ ok c → c.is_ok ≡ true → accepts r ≡ true
  of_check r e h = ap accepts e ∙ h

  walk_sound :
      (record' root c l r : Json) {v : LabVerdict}
      → is_truthy record' ≡ true
      → is_truthy root ≡ true
      → is_truthy (prop_or_undefined root (codes "root_pubkey")) ≡ true
      → strict_eq (prop_or_undefined record' (codes "record_version")) (num (codes "1")) ≡ true
      → parse_certs env record' ≡ ok (c, l, r)
      → walk env record' root c l r ≡ ok v
      → v.is_ok ≡ true
      → IsGenuine record' root
  unfolding walk verify_outer_signature
  walk_sound record' root c l r h1 h2 h3 h4 parsed e h =
      let (anchor, p1, e1) = >>=-eq-ok (prop root (codes "root_pubkey")) _ e in
      let (issuer, p2, e2) = >>=-eq-ok (prop c (codes "issued_by_public_key")) _ e1 in
      let (_, _, s2) = >>=-eq-ok (shown_unless (strict_eq issuer anchor) issuer anchor) _ e2 in
      let (subject, p3, e3) = >>=-eq-ok (prop c (codes "subject_public_key")) _ s2 in
      let (_, _, s3) = >>=-eq-ok (shown_unless (strict_eq subject issuer) subject issuer) _ e3 in
      let (cc, p4, e4) = >>=-eq-ok (verify_cert env c issuer root_cert) _ s3 in
      let (lc, p5, e5) = >>=-eq-ok (verify_cert env l subject lab_cert) _ e4 in
      let (lab_subject, p6, e6) = >>=-eq-ok (prop l (codes "subject_public_key")) _ e5 in
      let (rc, p7, e7) = >>=-eq-ok (verify_cert env r lab_subject runtime_cert) _ e6 in
      let (runtime_subject, p8, e8) = >>=-eq-ok (prop r (codes "subject_public_key")) _ e7 in
      let (signer, p9, e9) = >>=-eq-ok (prop record' (codes "signer_public_key")) _ e8 in
      let (_, _, s9) =
        >>=-eq-ok (shown_unless (strict_eq runtime_subject signer) runtime_subject signer) _ e9 in
      let (anchored, self_signed, same, outer, all) =
        settle_sound env record' root (strict_eq issuer anchor) (strict_eq subject issuer)
          (strict_eq runtime_subject signer) (verify_outer_signature env record') _ _ _
          (cc ∷ lc ∷ rc ∷ []) (ap accepts_record s9 ∙ h) in
      let (root_ok, lab_ok, runtime_ok) = every_three cc lc rc all in
      record {
        has_record = h1;
        has_root = h2;
        has_pubkey = h3;
        version_one = h4;
        root_cert' = c;
        lab_cert' = l;
        runtime_cert' = r;
        parses = parsed;
        anchor = anchor;
        root_issuer = issuer;
        root_subject = subject;
        lab_subject = lab_subject;
        runtime_subject = runtime_subject;
        signer = signer;
        reads_anchor = p1;
        reads_root_issuer = p2;
        reads_root_subject = p3;
        reads_lab_subject = p6;
        reads_runtime_subject = p8;
        reads_signer = p9;
        anchored = anchored;
        self_signed = self_signed;
        root_valid = (verify_cert_iff env c issuer root_cert).0 (of_check _ p4 root_ok);
        lab_valid = (verify_cert_iff env l subject lab_cert).0 (of_check _ p5 lab_ok);
        runtime_valid =
            (verify_cert_iff env r lab_subject runtime_cert).0 (of_check _ p7 runtime_ok);
        signed_by_runtime = same;
        outer_signed = caught_true (outer_signature env record') outer;
      }

  rejected_refused :
      (m : Result (Unit {0})) (v : LabVerdict)
      → v.is_ok ≡ false
      → accepts_record (m >> ok v) ≡ false
  rejected_refused (ok u) v h = h
  rejected_refused (throw e) v h = refl

  parse_sound :
      (record' root : Json) (parsed : Result (Json × Json × Json))
      → is_truthy record' ≡ true
      → is_truthy root ≡ true
      → is_truthy (prop_or_undefined root (codes "root_pubkey")) ≡ true
      → strict_eq (prop_or_undefined record' (codes "record_version")) (num (codes "1")) ≡ true
      → parse_certs env record' ≡ parsed
      → accepts_record (after_parse env record' root parsed) ≡ true
      → IsGenuine record' root
  parse_sound record' root (throw e) h1 h2 h3 h4 p h = ground arith
  parse_sound record' root (ok (c, l, r)) h1 h2 h3 h4 p h =
      let (v, e, is_ok) = accepted_record (walk env record' root c l r) h in
      walk_sound record' root c l r h1 h2 h3 h4 p e is_ok

  verify_lab_record_sound :
      (record' root : Json)
      → accepts_record (verify_lab_record env record' root) ≡ true
      → IsGenuine record' root
  unfolding verify_lab_record
  verify_lab_record_sound record' root h =
      let version = prop_or_undefined record' (codes "record_version") in
      let (h1, h2, h3, h4, rest) =
        guards_sound (is_truthy record') (is_truthy root)
          (is_truthy (prop_or_undefined root (codes "root_pubkey")))
          (strict_eq (prop_or_undefined record' (codes "record_version")) (num (codes "1")))
          (ok (rejected env record' root _)) (ok (rejected env record' root _))
          (to_primitive version >> ok (rejected env record' root _))
          (after_parse env record' root (parse_certs env record')) refl refl
          (rejected_refused (to_primitive version) (rejected env record' root _) refl) h in
      parse_sound record' root (parse_certs env record') h1 h2 h3 h4 refl rest

  walk_complete :
      (record' root : Json) (g : IsGenuine record' root)
      → accepts_record (walk env record' root g.root_cert' g.lab_cert' g.runtime_cert') ≡ true
  unfolding walk verify_outer_signature
  walk_complete record' root g =
      let (rc, e1, k1) =
        accepted (verify_cert env g.root_cert' g.root_issuer root_cert)
          ((verify_cert_iff env g.root_cert' g.root_issuer root_cert).1 g.root_valid) in
      let (lc, e2, k2) =
        accepted (verify_cert env g.lab_cert' g.root_subject lab_cert)
          ((verify_cert_iff env g.lab_cert' g.root_subject lab_cert).1 g.lab_valid) in
      let (tc, e3, k3) =
        accepted (verify_cert env g.runtime_cert' g.lab_subject runtime_cert)
          ((verify_cert_iff env g.runtime_cert' g.lab_subject runtime_cert).1 g.runtime_valid) in
      rw
        (
          g.reads_anchor, g.reads_root_issuer, g.anchored, g.reads_root_subject, g.self_signed, e1,
          e2, g.reads_lab_subject, e3, g.reads_runtime_subject, g.reads_signer, g.signed_by_runtime,
          g.outer_signed,
        )
        (settle_complete env record' root _ _ _ (rc ∷ lc ∷ tc ∷ []) (rw (k1, k2, k3)))

  verify_lab_record_complete :
      (record' root : Json)
      → IsGenuine record' root
      → accepts_record (verify_lab_record env record' root) ≡ true
  unfolding verify_lab_record
  verify_lab_record_complete record' root g =
      rw (g.has_record, g.has_root, g.has_pubkey, g.version_one, g.parses)
        (walk_complete record' root g)

  -- `verifyLabRecord` says ok exactly when the record is version 1, its three certificates parse,
  -- the chain is anchored in the trust root, self-signed at its root and valid at each link, and the
  -- runtime key that the chain ends in signed the eight properties of the record.
  pub verify_lab_record_iff :
      (record' root : Json)
      → (accepts_record (verify_lab_record env record' root) ≡ true) ↔ IsGenuine record' root
  verify_lab_record_iff record' root =
      (verify_lab_record_sound record' root, verify_lab_record_complete record' root)

-- ===== src/LabVerify/Cert/Returns.antt =====
-- What `verifyCert` of demo/lab_verify.js returns.
use mobydb_render_engine.Base.{
  ◌≡◌, refl, Bool, true, false, List, [], ◌∷◌, ◌++◌, Result, ok, throw, Text, codes, is_empty,
  arith, if◌then◌else◌, ℕ, Option,
}
use mobydb_render_engine.Base.Errors.{bind_holds}
use mobydb_render_engine.LabVerify.Json.{Json, prop, strict_eq, has_primitive}
use mobydb_render_engine.LabVerify.Cert.{
  Platform, Label, Problem, CertCheck, required, in_window, cert_signature, conclude, judge,
  verify_cert, outside_window, issuer_mismatch, examine, parsed_date, shown_unless, early,
}
use mobydb_render_engine.LabVerify.Cert.Required.{prop_reads, prop-IsReadable, missing_reads}

module _ (env : Platform) where
  conclude_errors :
      (label : Label) (errs : List Problem) (temp_ok : Bool) (sig : Result Bool)
      → (is_empty errs ≡ true → temp_ok ≡ true)
      → let c = conclude env label errs temp_ok sig in c.0 ≡ is_empty c.1
  unfolding conclude
  conclude_errors label [] temp_ok (ok b) h = ground (arith, h refl)
  conclude_errors label [] temp_ok (throw e) h = ground arith
  conclude_errors label (x ∷ errs) temp_ok (ok b) h = ground arith
  conclude_errors label (x ∷ errs) temp_ok (throw e) h = ground arith

  problems_of :
      (temp_ok same : Bool) (x y : Problem)
      → is_empty ((if temp_ok then [] else x ∷ []) ++ (if same then [] else y ∷ [])) ≡ true
      → temp_ok ≡ true
  problems_of true same x y h = refl
  problems_of false same x y h = ground arith

  judge_errors :
      (label : Label) (role nb na issuer subject constraints parent : Json) (start stop : Option ℕ)
      (sig : Result Bool)
      → let c = judge env label role nb na issuer subject constraints parent start stop sig in
        c.is_ok ≡ is_empty c.errors
  unfolding judge
  judge_errors label role nb na issuer subject constraints parent start stop sig =
      conclude_errors label
        ((if in_window env start stop then [] else outside_window label nb na ∷ [])
          ++ (if strict_eq issuer parent then [] else issuer_mismatch label issuer parent ∷ []))
        (in_window env start stop) sig (problems_of _ (strict_eq issuer parent) _ _)

  -- The property is there or not, and is a value that a template or `Date.parse` can convert.
  abbrev pub IsConvertible : Json → Text → Type 0
  IsConvertible cert k = (v : Json) × (prop cert k ≡ ok v) × (has_primitive v ≡ true)

  shown_returns :
      (b : Bool) (v w : Json)
      → has_primitive v ≡ true
      → has_primitive w ≡ true
      → shown_unless b v w ≡ ok tt
  shown_returns true v w h k = refl
  shown_returns false v w h k = rw (h, k) refl

  date_returns : (v : Json) → has_primitive v ≡ true → parsed_date env v ≡ ok (env.date_parse v)
  date_returns v h = rw h refl

  abbrev Agrees : CertCheck → Type 0
  Agrees c = c.is_ok ≡ is_empty c.errors

  examine_returns :
      (cert parent role : Json) (label : Label)
      → IsConvertible cert (codes "not_before")
      → IsConvertible cert (codes "not_after")
      → IsConvertible cert (codes "issued_by_public_key")
      → has_primitive parent ≡ true
      → (c : CertCheck) × (examine env cert parent label role ≡ ok c) × Agrees c
  unfolding examine
  examine_returns cert parent role label (nb, e1, h1) (na, e2, h2) (issuer, e3, h3) h4 =
      let readable = prop-IsReadable cert nb _ e1 in
      let (subject, e5) = prop_reads cert (codes "subject_public_key") readable in
      let (signature, e6) = prop_reads cert (codes "parent_signature") readable in
      let (constraints, e7) = prop_reads cert (codes "constraints") readable in
      let start = env.date_parse nb in
      let stop = env.date_parse na in
      let in_time = shown_returns (in_window env start stop) nb na h1 h2 in
      let same = shown_returns (strict_eq issuer parent) issuer parent h3 h4 in
      let verdict =
        judge env label role nb na issuer subject constraints parent start stop
          (cert_signature env cert signature parent) in
      (
        verdict,
        rw (e1, e2, date_returns nb h1, date_returns na h2, in_time, e3, same, e5, e6, e7) refl,
        judge_errors label role nb na issuer subject constraints parent start stop
            (cert_signature env cert signature parent),
      )

  checked_returns :
      (errs : List Problem) (x : Result CertCheck) (role : Json)
      → (c : CertCheck) × (x ≡ ok c) × Agrees c
      → (c : CertCheck) × ((if is_empty errs then x else ok (early env role errs)) ≡ ok c)
        × Agrees c
  checked_returns [] x role h = h
  checked_returns (p ∷ errs) x role h = (early env role (p ∷ errs), refl, refl)

  -- For every certificate that is neither null nor undefined, if its two dates, its issuer and the
  -- parent's key can be converted to texts (each may be missing): `verifyCert` returns, and its result is
  -- ok exactly when it lists no error.
  pub verify_cert_returns :
      (cert parent : Json) (label : Label)
      → IsConvertible cert (codes "not_before")
      → IsConvertible cert (codes "not_after")
      → IsConvertible cert (codes "issued_by_public_key")
      → has_primitive parent ≡ true
      → (c : CertCheck) × (verify_cert env cert parent label ≡ ok c) × (c.is_ok ≡ is_empty c.errors)
  unfolding verify_cert
  verify_cert_returns cert parent label (nb, e1, h1) na issuer h =
      let readable = prop-IsReadable cert nb _ e1 in
      let (errs, e2) = missing_reads label cert required readable in
      let (role, e3) = prop_reads cert (codes "subject_role") readable in
      bind_holds Agrees _ _ e2 (
        bind_holds Agrees _ _ e3 (
          checked_returns errs (examine env cert parent label role) role
            (examine_returns cert parent role label (nb, e1, h1) na issuer h)))

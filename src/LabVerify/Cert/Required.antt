-- ===== src/LabVerify/Cert/Required.antt =====
-- How `verifyCert` of demo/lab_verify.js reads the properties of a certificate.
use mobydb_render_engine.Base.{
  ◌≡◌, refl, ap, ◌∙◌, Bool, true, false, List, [], ◌∷◌, Result, ok, Text, All, arith, if◌then◌else◌,
}
use mobydb_render_engine.Base.Errors.{>>=-eq-ok}
use mobydb_render_engine.LabVerify.Json.{
  Json, undefined, null, bool, num, non_finite, str, arr, obj, other, get, prop, is_undefined,
}
use mobydb_render_engine.LabVerify.Cert.{Label, Problem, missing, missing_field}

-- The value has the property.
abbrev pub Has : Json → Text → Type 0
Has cert k = (v : Json) × (prop cert k ≡ ok v) × (is_undefined v ≡ false)

none_added :
    (b : Bool) (x : Problem) (errs : List Problem)
    → ◌≡◌ {A = Result (List Problem)} (ok (if b then x ∷ errs else errs)) (ok [])
    → (b ≡ false) × (errs ≡ [])
none_added true x errs h = ground arith
none_added false x errs h = ground arith

pub missing_sound :
    (label : Label) (cert : Json) (ks : List Text)
    → missing label cert ks ≡ ok []
    → All (Has cert) ks
unfolding missing
missing_sound label cert [] h = tt
missing_sound label cert (k ∷ ks) h =
    let (v, reads, e1) = >>=-eq-ok (prop cert k) _ h in
    let (errs, more, e2) = >>=-eq-ok (missing label cert ks) _ e1 in
    let (here, rest) = none_added (is_undefined v) (missing_field label k) errs e2 in
    ((v, reads, here), missing_sound label cert ks (more ∙ ap ok rest))

pub missing_complete :
    (label : Label) (cert : Json) (ks : List Text)
    → All (Has cert) ks
    → missing label cert ks ≡ ok []
unfolding missing
missing_complete label cert [] h = refl
missing_complete label cert (k ∷ ks) ((v, reads, here), h) =
    rw (reads, missing_complete label cert ks h, here)

-- A value whose properties can be read.
abbrev pub IsReadable : Json → Type 0
IsReadable undefined = ⊥
IsReadable null = ⊥
IsReadable _ = Unit

pub prop_reads : (v : Json) (k : Text) → IsReadable v → (w : Json) × (prop v k ≡ ok w)
prop_reads undefined k h = absurd h
prop_reads null k h = absurd h
prop_reads (bool b) k h = (undefined, refl)
prop_reads (num t) k h = (undefined, refl)
prop_reads non_finite k h = (undefined, refl)
prop_reads (str s) k h = (undefined, refl)
prop_reads (arr xs) k h = (undefined, refl)
prop_reads (obj fs) k h = (get k fs, refl)
prop_reads (other t) k h = (undefined, refl)

pub prop-IsReadable : (v w : Json) (k : Text) → prop v k ≡ ok w → IsReadable v
prop-IsReadable undefined w k h = ground arith
prop-IsReadable null w k h = ground arith
prop-IsReadable (bool b) w k h = tt
prop-IsReadable (num t) w k h = tt
prop-IsReadable non_finite w k h = tt
prop-IsReadable (str s) w k h = tt
prop-IsReadable (arr xs) w k h = tt
prop-IsReadable (obj fs) w k h = tt
prop-IsReadable (other t) w k h = tt

pub missing_reads :
    (label : Label) (cert : Json) (ks : List Text)
    → IsReadable cert
    → (errs : List Problem) × (missing label cert ks ≡ ok errs)
unfolding missing
missing_reads label cert [] h = ([], refl)
missing_reads label cert (k ∷ ks) h =
    let (v, reads) = prop_reads cert k h in
    let (errs, more) = missing_reads label cert ks h in
    (if is_undefined v then missing_field label k ∷ errs else errs, rw (reads, more))

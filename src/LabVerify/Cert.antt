-- ===== src/LabVerify/Cert.antt =====
-- Sections 3 and 4 of demo/lab_verify.js: `verifyCert`. `Date.parse`, `Date.now`, `JSON.parse` and
-- SubtleCrypto are the parameter `Platform`. A message is the constructor of its template with the
-- values that the template shows.
pub mod Required
pub mod Returns
pub mod Valid
use mobydb_render_engine.Base.{
  ℕ, Bool, true, false, not, ◌&&◌, Option, none, some, List, [], ◌∷◌, ◌++◌, Result, ok, throw,
  ◌>>=◌, ◌>>◌, Text, codes, leb, is_empty, if◌then◌else◌,
}
use mobydb_render_engine.LabVerify.Base64.{Bytes, b64u_to_bytes}
use mobydb_render_engine.LabVerify.Json.{
  Json, undefined, str, obj, Fields, end, prop, without, is_undefined, is_truthy, strict_eq,
  to_primitive,
}
use mobydb_render_engine.LabVerify.Jcs.{jcs, utf8}

pub record Platform : Type 0 where
  -- `JSON.parse`.
  pub json_parse : Json → Result Json
  -- `Date.parse` of a value that has a primitive, in milliseconds from the least ECMAScript time value;
  -- `none` is NaN.
  pub date_parse : Json → Option ℕ
  -- `Date.now()` on the same scale.
  pub now : ℕ
  -- Import of the raw key and verification: key, message, signature.
  pub ed25519_verify : Bytes → Bytes → Bytes → Result Bool

pub data Label : Type 0 where
  root_cert lab_cert runtime_cert : Label

pub data Problem : Type 0 where
  missing_field : Label → Text → Problem
  outside_window : Label → Json → Json → Problem
  issuer_mismatch : Label → Json → Json → Problem
  verify_threw : Label → Text → Problem
  invalid_signature : Label → Problem
  no_record no_trust_root : Problem
  unsupported_version : Json → Problem
  parse_failed : Text → Problem
  anchor_mismatch : Json → Json → Problem
  not_self_signed : Json → Json → Problem
  signer_mismatch : Json → Json → Problem
  outer_invalid : Problem

-- What `verifyCert` returns; the early return leaves out the fields that are `none` there.
pub record CertCheck : Type 0 where
  pub is_ok : Bool
  pub errors : List Problem
  pub role : Json
  pub subject : Option Json
  pub issuer : Option Json
  pub current : Option Bool
  pub constraints : Option Json

abbrev pub required : List Text
required =
    codes "subject_public_key"
    ∷ codes "issued_by_public_key"
    ∷ codes "subject_role"
    ∷ codes "not_before"
    ∷ codes "not_after"
    ∷ codes "version"
    ∷ codes "parent_signature"
    ∷ []

-- The first loop: a property of `null` or `undefined` throws a TypeError.
unfoldable pub missing : Label → Json → List Text → Result (List Problem)
missing label cert [] = ok []
missing label cert (k ∷ ks) = do
  v ← prop cert k
  errs ← missing label cert ks
  ok (if is_undefined v then missing_field label k ∷ errs else errs)

-- `b64uToBytes(v)`: only a string is decoded.
abbrev pub decode_b64u : Json → Result Bytes
decode_b64u (str s) = b64u_to_bytes s
decode_b64u _ = throw (codes "b64u: not a string")

-- `{ ...cert }` without its `parent_signature`.
abbrev pub cert_body : Json → Json
cert_body (obj fs) = obj (without (codes "parent_signature") fs)
cert_body _ = obj end

-- The template of a message that is pushed unless the test holds, with the two values that it shows.
abbrev pub shown_unless : Bool → Json → Json → Result (Unit {0})
shown_unless true v w = ok tt
shown_unless false v w = do to_primitive v; to_primitive w

module _ (env : Platform) where
  open env use {date_parse, now, ed25519_verify}

  -- nb <= now && now <= na, false when either date is NaN.
  unfoldable pub in_window : Option ℕ → Option ℕ → Bool
  in_window (some nb) (some na) = leb nb now && leb now na
  in_window _ _ = false

  -- The body of the `try`.
  unfoldable pub cert_signature : Json → Json → Json → Result Bool
  cert_signature cert signature parent = do
    canonical ← jcs (cert_body cert)
    let msg = utf8 canonical
    sig ← decode_b64u signature
    key ← decode_b64u parent
    ed25519_verify key msg sig

  abbrev pub sig_errors : Label → Result Bool → List Problem
  sig_errors label (ok b) = []
  sig_errors label (throw e) = verify_threw label e ∷ []

  abbrev pub sig_result : Result Bool → Bool
  sig_result (ok b) = b
  sig_result (throw e) = false

  -- From the errors found so far to the result.
  unfoldable pub conclude : Label → List Problem → Bool → Result Bool → Bool × List Problem
  conclude label errs temp_ok sig =
      let sig_ok = sig_result sig in
      let errs' = errs ++ sig_errors label sig in
      let all =
        if not sig_ok && is_empty errs' then errs' ++ invalid_signature label ∷ [] else errs' in
      (sig_ok && temp_ok && is_empty all, all)

  abbrev pub early : Json → List Problem → CertCheck
  early role errs = record {
    is_ok = false;
    errors = errs;
    role = role;
    subject = none;
    issuer = none;
    current = none;
    constraints = none;
  }

  -- `Date.parse(v)`: the value is converted to a text first.
  abbrev pub parsed_date : Json → Result (Option ℕ)
  parsed_date v = do to_primitive v; ok (date_parse v)

  -- What follows the required-field loop, over the properties that it reads, the two dates and the
  -- signature check.
  unfoldable pub judge :
      Label
      → (role not_before not_after issuer subject constraints parent : Json)
      → (start stop : Option ℕ) → Result Bool
      → CertCheck
  unfolding in_window conclude
  judge label role not_before not_after issuer subject constraints parent start stop sig =
      let temp_ok = in_window start stop in
      let late = if temp_ok then [] else outside_window label not_before not_after ∷ [] in
      let strange =
        if strict_eq issuer parent then [] else issuer_mismatch label issuer parent ∷ [] in
      let done = conclude label (late ++ strange) temp_ok sig in
      record {
        is_ok = done.0;
        errors = done.1;
        role = role;
        subject = some subject;
        issuer = some issuer;
        current = some temp_ok;
        constraints = some (if is_truthy constraints then constraints else obj end);
      }

  -- From the dates on. A message that is pushed shows two values, and a template throws for a value that
  -- has no primitive.
  unfoldable pub examine : Json → Json → Label → Json → Result CertCheck
  unfolding judge cert_signature in_window
  examine cert parent label role = do
    not_before ← prop cert (codes "not_before")
    not_after ← prop cert (codes "not_after")
    start ← parsed_date not_before
    stop ← parsed_date not_after
    shown_unless (in_window start stop) not_before not_after
    issuer ← prop cert (codes "issued_by_public_key")
    shown_unless (strict_eq issuer parent) issuer parent
    subject ← prop cert (codes "subject_public_key")
    signature ← prop cert (codes "parent_signature")
    constraints ← prop cert (codes "constraints")
    ok (
        judge label role not_before not_after issuer subject constraints parent start stop
          (cert_signature cert signature parent))

  unfoldable pub verify_cert : Json → Json → Label → Result CertCheck
  unfolding examine missing
  verify_cert cert parent label = do
    errs ← missing label cert required
    role ← prop cert (codes "subject_role")
    (if is_empty errs then examine cert parent label role else ok (early role errs))

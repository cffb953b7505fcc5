-- ===== src/LabVerify/Tests.antt =====
-- Runs of demo/lab_verify.js on a small record, with a toy parser and a toy signature check.
use mobydb_render_engine.Base.{
  ℕ, ◌≡◌, refl, ◌↔◌, true, Option, none, some, [], ◌∷◌, Result, ok, throw, Text, codes, ◌===◌,
  ===_false, All, arith, if◌then◌else◌, is_empty,
}
use mobydb_render_engine.LabVerify.Base64.{b64u_to_bytes, bytes_to_b64u}
use mobydb_render_engine.LabVerify.Base64.RoundTrip.{b64u_to_bytes-bytes_to_b64u}
use mobydb_render_engine.LabVerify.Json.{
  Json, Fields, null, num, str, obj, arr, Items, nil, cons, end, field,
}
use mobydb_render_engine.LabVerify.Jcs.{jcs}
use mobydb_render_engine.LabVerify.Jcs.Order.{in_obj, swap, jcs-Same}
use mobydb_render_engine.LabVerify.Cert.{Platform, CertCheck, root_cert, verify_cert}
use mobydb_render_engine.LabVerify.Cert.Returns.{verify_cert_returns}
use mobydb_render_engine.LabVerify.Cert.Valid.{IsValidCert, accepts, verify_cert_iff}
use mobydb_render_engine.LabVerify.Record.{walk, parse_certs, verify_lab_record, verify_response}
use mobydb_render_engine.LabVerify.Record.Answer.{elements, accepts_response, verify_response_iff}
use mobydb_render_engine.LabVerify.Record.Settling.{accepts_record}
use mobydb_render_engine.LabVerify.Record.Trust.{IsGenuine, verify_lab_record_iff}

-- A certificate of the key `AA`, issued by itself.
abbrev cert : Json
cert = obj (
    field (codes "subject_public_key") (str (codes "AA")) (
      field (codes "issued_by_public_key") (str (codes "AA")) (
        field (codes "subject_role") (str (codes "root")) (
          field (codes "not_before") (str (codes "a")) (
            field (codes "not_after") (str (codes "b")) (
              field (codes "version") (num (codes "1"))
                (field (codes "parent_signature") (str (codes "AQ")) end)))))))

abbrev obj_fields : Json → Fields
obj_fields (obj fs) = fs
obj_fields v = end

abbrev toy_parse : Json → Result Json
toy_parse (str s) = if s === codes "null" then ok null else ok cert
toy_parse v = throw (codes "SyntaxError")

abbrev toy_date : Json → Option ℕ
toy_date (str s) = if s === codes "a" then some 1 else some 9
toy_date v = none

abbrev toy : Platform
toy = record {
  json_parse = toy_parse;
  date_parse = toy_date;
  now = 5;
  ed25519_verify = λ key msg sig. ok true;
}

abbrev lab_record : Text → Json
lab_record text = obj (
    field (codes "record_version") (num (codes "1")) (
      field (codes "root_cert_json") (str text) (
        field (codes "lab_cert_json") (str (codes "{}")) (
          field (codes "runtime_cert_json") (str (codes "{}")) (
            field (codes "signer_public_key") (str (codes "AA"))
              (field (codes "signature_bytes") (str (codes "AQ")) end))))))

abbrev root : Json
root = obj (field (codes "root_pubkey") (str (codes "AA")) end)

abbrev records : Items
records = cons (lab_record (codes "{}")) (cons (lab_record (codes "null")) nil)

abbrev response : Json
response = obj (field (codes "records") (arr records) (field (codes "trust_root") root end))

verify_cert_iff_example :
    (accepts (verify_cert toy cert (str (codes "AA")) root_cert) ≡ true)
    ↔ IsValidCert toy cert (str (codes "AA"))
verify_cert_iff_example = verify_cert_iff toy cert (str (codes "AA")) root_cert

verify_cert_returns_example :
    (c : CertCheck) × (verify_cert toy cert null root_cert ≡ ok c) × (c.is_ok ≡ is_empty c.errors)
verify_cert_returns_example =
    verify_cert_returns toy cert null root_cert (str (codes "a"), refl, refl)
      (str (codes "b"), refl, refl) (str (codes "AA"), refl, refl) refl

-- A certificate whose date has no primitive.
abbrev broken_cert : Json
broken_cert = obj (
    field (codes "not_before") (obj (field (codes "toString") (num (codes "0")) end))
      (obj_fields cert))

broken_cert_throws : verify_cert toy broken_cert null root_cert ≡ throw (codes "TypeError")
unfolding verify_cert
broken_cert_throws = refl

verify_lab_record_iff_example :
    (accepts_record (verify_lab_record toy (lab_record (codes "{}")) root) ≡ true)
    ↔ IsGenuine toy (lab_record (codes "{}")) root
verify_lab_record_iff_example = verify_lab_record_iff toy (lab_record (codes "{}")) root

verify_response_iff_example :
    (accepts_response (verify_response toy response) ≡ true)
    ↔ All (λ r. IsGenuine toy r root) (elements records)
verify_response_iff_example = verify_response_iff toy response root records refl refl refl refl

null_cert_throws :
    verify_lab_record toy (lab_record (codes "null")) root ≡ throw (codes "TypeError")
unfolding verify_lab_record walk parse_certs
null_cert_throws = refl

jcs-Same_example :
    jcs (obj (field (codes "b") null (field (codes "a") (num (codes "1")) end)))
    ≡ jcs (obj (field (codes "a") (num (codes "1")) (field (codes "b") null end)))
jcs-Same_example = jcs-Same (
    in_obj (
      swap (codes "b") (codes "a") null (num (codes "1")) end
        (===_false (codes "b") (codes "a") refl)))

b64u_to_bytes-bytes_to_b64u_example :
    b64u_to_bytes (bytes_to_b64u (255 ∷ 254 ∷ 3 ∷ 4 ∷ [])) ≡ ok (255 ∷ 254 ∷ 3 ∷ 4 ∷ [])
b64u_to_bytes-bytes_to_b64u_example =
    b64u_to_bytes-bytes_to_b64u (255 ∷ 254 ∷ 3 ∷ 4 ∷ [])
      (omega arith, (omega arith, (omega arith, (omega arith, tt))))

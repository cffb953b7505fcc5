-- ===== src/LabVerify.antt =====
-- demo/lab_verify.js: the verifier of a GEIANT Lab record against its trust root. The children
-- follow the sections of the file: base64url, the JCS canonicaliser, certificates, records.
pub mod Base64
pub mod Json
pub mod Jcs
pub mod Cert
pub mod Record
mod Tests

-- ===== src/Merkle/Verify.antt =====
-- `verifyProvenance` of demo/verify.js: what an `ok` verdict means, and that every fault is reported.
use mobydb_render_engine.Base.{
  ◌≡◌, refl, sym, ap, ◌∙◌, ◌↔◌, ◌⊎◌, inl, inr, Bool, true, false, ◌&&◌, none, some, List, Result,
  ok, throw, Text, arith, and_left, and_right,
}
use mobydb_render_engine.Base.Errors.{traverse, >>=-eq-ok, >>=-eq-throw}
use mobydb_render_engine.Merkle.{
  Bytes, hex_to_bytes, bytes_equal, reconstruct_root, Provenance, Verdict, checked, caught,
  verify_provenance,
}
use mobydb_render_engine.Merkle.Equal.{bytes_equal_iff}

caught_is_ok :
    (r : Result Verdict) → (caught r).is_ok ≡ true → (v : Verdict) × (r ≡ ok v) × (v.is_ok ≡ true)
caught_is_ok (ok v) h = (v, refl, h)
caught_is_ok (throw e) h = ground arith

module _ (blake3 : Bytes → Bytes) (ed25519_verify : Bytes → Bytes → Bytes → Result Bool) where
  -- What the bundle has to satisfy, stated without the verifier.
  pub record IsAuthentic (p : Provenance) : Type 0 where
    pub sig : Bytes
    pub pk : Bytes
    pub ch : Bytes
    pub siblings : List Bytes
    pub stored : Bytes
    pub reads_sig : hex_to_bytes p.signature ≡ ok sig
    pub reads_pk : hex_to_bytes p.identity_pk ≡ ok pk
    pub reads_ch : hex_to_bytes p.content_hash ≡ ok ch
    pub reads_siblings : traverse hex_to_bytes p.merkle_proof ≡ ok siblings
    pub reads_stored : hex_to_bytes p.merkle_root ≡ ok stored
    pub is_signed : ed25519_verify sig ch pk ≡ ok true
    pub is_included : reconstruct_root blake3 ch siblings p.leaf_index ≡ stored

  verify_provenance_complete :
      (p : Provenance) → IsAuthentic p → (verify_provenance blake3 ed25519_verify p).is_ok ≡ true
  unfolding verify_provenance
  verify_provenance_complete p a =
      rw (a.reads_sig, a.reads_pk, a.reads_ch, a.is_signed, a.reads_siblings, a.reads_stored)
        ((bytes_equal_iff _ _).1 a.is_included)

  checked_sound :
      (p : Provenance) (v : Verdict)
      → checked blake3 ed25519_verify p ≡ ok v
      → v.is_ok ≡ true
      → IsAuthentic p
  unfolding checked
  checked_sound p v e h =
      let (sig, reads_sig, e1) = >>=-eq-ok (hex_to_bytes p.signature) _ e in
      let (pk, reads_pk, e2) = >>=-eq-ok (hex_to_bytes p.identity_pk) _ e1 in
      let (ch, reads_ch, e3) = >>=-eq-ok (hex_to_bytes p.content_hash) _ e2 in
      let (signed, verifies, e4) = >>=-eq-ok (ed25519_verify sig ch pk) _ e3 in
      let (siblings, reads_siblings, e5) = >>=-eq-ok (traverse hex_to_bytes p.merkle_proof) _ e4 in
      let (stored, reads_stored, e6) = >>=-eq-ok (hex_to_bytes p.merkle_root) _ e5 in
      let root = bytes_equal (reconstruct_root blake3 ch siblings p.leaf_index) stored in
      let both : (signed && root) ≡ true = ground arith in
      record {
        sig = sig;
        pk = pk;
        ch = ch;
        siblings = siblings;
        stored = stored;
        reads_sig = reads_sig;
        reads_pk = reads_pk;
        reads_ch = reads_ch;
        reads_siblings = reads_siblings;
        reads_stored = reads_stored;
        is_signed = ground (arith, and_left signed root both);
        is_included = (bytes_equal_iff _ _).0 (and_right signed root both);
      }

  verify_provenance_sound :
      (p : Provenance) → (verify_provenance blake3 ed25519_verify p).is_ok ≡ true → IsAuthentic p
  unfolding verify_provenance
  verify_provenance_sound p h =
      let (v, e, k) = caught_is_ok (checked blake3 ed25519_verify p) h in checked_sound p v e k

  -- The verdict is ok exactly when every field decodes, the signature over the content hash
  -- verifies under the identity key, and the path leads from the content hash to the stored root.
  pub verify_provenance_iff :
      (p : Provenance) → ((verify_provenance blake3 ed25519_verify p).is_ok ≡ true) ↔ IsAuthentic p
  verify_provenance_iff p = (verify_provenance_sound p, verify_provenance_complete p)

  -- All steps ran, and the answer is what the signature and the path say.
  pub record IsAnswered (p : Provenance) (v : Verdict) : Type 0 where
    pub sig : Bytes
    pub pk : Bytes
    pub ch : Bytes
    pub siblings : List Bytes
    pub stored : Bytes
    pub reads_sig : hex_to_bytes p.signature ≡ ok sig
    pub reads_pk : hex_to_bytes p.identity_pk ≡ ok pk
    pub reads_ch : hex_to_bytes p.content_hash ≡ ok ch
    pub reads_siblings : traverse hex_to_bytes p.merkle_proof ≡ ok siblings
    pub reads_stored : hex_to_bytes p.merkle_root ≡ ok stored
    pub by_signature : ed25519_verify sig ch pk ≡ ok v.sig_ok
    pub by_root : (v.root_ok ≡ true) ↔ (reconstruct_root blake3 ch siblings p.leaf_index ≡ stored)
    pub by_both : v.is_ok ≡ (v.sig_ok && v.root_ok)
    pub no_error : v.error ≡ none

  -- The step that threw the message.
  pub data Fault (p : Provenance) (e : Text) : Type 0 where
    bad_signature : hex_to_bytes p.signature ≡ throw e → Fault p e
    bad_key : hex_to_bytes p.identity_pk ≡ throw e → Fault p e
    bad_hash : hex_to_bytes p.content_hash ≡ throw e → Fault p e
    bad_check :
        (sig pk ch : Bytes)
        → hex_to_bytes p.signature ≡ ok sig
        → hex_to_bytes p.identity_pk ≡ ok pk
        → hex_to_bytes p.content_hash ≡ ok ch
        → ed25519_verify sig ch pk ≡ throw e
        → Fault p e
    bad_proof : traverse hex_to_bytes p.merkle_proof ≡ throw e → Fault p e
    bad_root : hex_to_bytes p.merkle_root ≡ throw e → Fault p e

  -- What a verdict says when a step threw.
  abbrev pub IsRefused : Verdict → Text → Type 0
  IsRefused v e = (v.is_ok ≡ false) × (v.sig_ok ≡ false) × (v.root_ok ≡ false) × (v.error ≡ some e)

  checked-IsAnswered :
      (p : Provenance) (v : Verdict) → checked blake3 ed25519_verify p ≡ ok v → IsAnswered p v
  unfolding checked
  checked-IsAnswered p v e =
      let (sig, reads_sig, e1) = >>=-eq-ok (hex_to_bytes p.signature) _ e in
      let (pk, reads_pk, e2) = >>=-eq-ok (hex_to_bytes p.identity_pk) _ e1 in
      let (ch, reads_ch, e3) = >>=-eq-ok (hex_to_bytes p.content_hash) _ e2 in
      let (signed, verifies, e4) = >>=-eq-ok (ed25519_verify sig ch pk) _ e3 in
      let (siblings, reads_siblings, e5) = >>=-eq-ok (traverse hex_to_bytes p.merkle_proof) _ e4 in
      let (stored, reads_stored, e6) = >>=-eq-ok (hex_to_bytes p.merkle_root) _ e5 in
      let root = bytes_equal (reconstruct_root blake3 ch siblings p.leaf_index) stored in
      let same_sig : signed ≡ v.sig_ok = ground arith in
      let same_root : root ≡ v.root_ok = ground arith in
      let (to_equal, from_equal) =
        bytes_equal_iff (reconstruct_root blake3 ch siblings p.leaf_index) stored in
      record {
        sig = sig;
        pk = pk;
        ch = ch;
        siblings = siblings;
        stored = stored;
        reads_sig = reads_sig;
        reads_pk = reads_pk;
        reads_ch = reads_ch;
        reads_siblings = reads_siblings;
        reads_stored = reads_stored;
        by_signature = verifies ∙ ap ok same_sig;
        by_root = (λ h. to_equal (same_root ∙ h), λ h. sym same_root ∙ from_equal h);
        by_both = ground arith;
        no_error = ground arith;
      }

  checked-Fault :
      (p : Provenance) (e : Text) → checked blake3 ed25519_verify p ≡ throw e → Fault p e
  unfolding checked
  checked-Fault p e h = elim (>>=-eq-throw (hex_to_bytes p.signature) _ h) [
    | inl f ↦ bad_signature f
    | inr (sig, r1, h1) ↦ elim (>>=-eq-throw (hex_to_bytes p.identity_pk) _ h1) [
      | inl f ↦ bad_key f
      | inr (pk, r2, h2) ↦ elim (>>=-eq-throw (hex_to_bytes p.content_hash) _ h2) [
        | inl f ↦ bad_hash f
        | inr (ch, r3, h3) ↦ elim (>>=-eq-throw (ed25519_verify sig ch pk) _ h3) [
          | inl f ↦ bad_check sig pk ch r1 r2 r3 f
          | inr (_, _, h4) ↦ elim (>>=-eq-throw (traverse hex_to_bytes p.merkle_proof) _ h4) [
            | inl f ↦ bad_proof f
            | inr (_, _, h5) ↦ elim (>>=-eq-throw (hex_to_bytes p.merkle_root) _ h5) [
              | inl f ↦ bad_root f
              | inr (_, _, h6) ↦ ground arith
            ]
          ]
        ]
      ]
    ]
  ]

  caught_verdict :
      (p : Provenance) (r : Result Verdict)
      → checked blake3 ed25519_verify p ≡ r
      → IsAnswered p (caught r) ⊎ ((e : Text) × Fault p e × IsRefused (caught r) e)
  caught_verdict p (ok v) h = inl (checked-IsAnswered p v h)
  caught_verdict p (throw e) h = inr (e, checked-Fault p e h, (refl, refl, refl, refl))

  -- Whatever the bundle: either every field decodes and the verifier answers, with no message, `sigOk` as the
  -- signature over the content hash verifies under the identity key, `rootOk` exactly if the path leads from
  -- the content hash to the stored root, and `ok` as both; or a field does not decode or the check of the
  -- signature throws, and the three answers are false, with the message of that fault.
  pub verify_provenance_verdict :
      (p : Provenance)
      → let v = verify_provenance blake3 ed25519_verify p in
        IsAnswered p v ⊎ ((e : Text) × Fault p e × IsRefused v e)
  unfolding verify_provenance
  verify_provenance_verdict p = caught_verdict p (checked blake3 ed25519_verify p) refl

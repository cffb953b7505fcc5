-- ===== src/Merkle/Tests.antt =====
-- Runs of the Merkle verifier of demo/verify.js on small inputs, with a toy hash and a toy signature.
use mobydb_render_engine.Base.{
  ℕ, ◌+◌, ◌%◌, ◌≡◌, refl, ◌↔◌, ◌⊎◌, Bool, true, List, [], ◌∷◌, map, Result, ok, Text, codes, length,
  get_or, arith,
}
use mobydb_render_engine.Merkle.{
  Bytes, bytes_to_hex, bytes_equal, diff_of, reconstruct_root, Provenance, verify_provenance,
}
use mobydb_render_engine.Merkle.Tree.{proof_path, merkle_root}
use mobydb_render_engine.Merkle.Tree.Path.{reconstruct_root-merkle_root}
use mobydb_render_engine.Merkle.Tree.Honest.{verify_provenance-honest}
use mobydb_render_engine.Merkle.Binding.{Collision, reconstruct_root_binding}
use mobydb_render_engine.Merkle.Verify.{
  IsAnswered, Fault, IsRefused, IsAuthentic, verify_provenance_iff, verify_provenance_verdict,
}
use mobydb_render_engine.Merkle.Hex.{IsBytes}

abbrev sum_bytes : Bytes → ℕ
sum_bytes [] = 0
sum_bytes (x ∷ xs) = x + sum_bytes xs

abbrev toy_hash : Bytes → Bytes
toy_hash x = sum_bytes x % 256 ∷ []

-- A signature is the message itself.
abbrev toy_verify : Bytes → Bytes → Bytes → Result Bool
toy_verify sig msg pk = ok (bytes_equal sig msg)

abbrev leaves : List Bytes
leaves = (1 ∷ []) ∷ (2 ∷ []) ∷ (250 ∷ []) ∷ []

abbrev pair : Bytes
pair = 1 ∷ 2 ∷ []

abbrev other_pair : Bytes
other_pair = 1 ∷ 3 ∷ []

abbrev third : Bytes
third = 250 ∷ []

abbrev path : List Bytes
path = (1 ∷ []) ∷ []

abbrev bundle : Provenance
bundle = record {
  signature = codes "fa";
  identity_pk = codes "07";
  content_hash = codes "fa";
  merkle_proof = codes "fa" ∷ codes "0x03" ∷ [];
  leaf_index = 2;
  merkle_root = codes "f7";
}

reconstruct_root-merkle_root_example :
    reconstruct_root toy_hash (get_or leaves 2 []) (proof_path toy_hash (length leaves) leaves 2) 2
    ≡ merkle_root toy_hash leaves
reconstruct_root-merkle_root_example = reconstruct_root-merkle_root toy_hash leaves 2 (omega arith)

toy_size : (x : Bytes) → length (toy_hash x) ≡ 1
toy_size x = refl

reconstruct_root_binding_example : ((third ≡ third) × (path ≡ path)) ⊎ Collision toy_hash
reconstruct_root_binding_example =
    reconstruct_root_binding toy_hash 1 toy_size path path third third 1 refl refl refl

verify_provenance_iff_example :
    ((verify_provenance toy_hash toy_verify bundle).is_ok ≡ true)
    ↔ IsAuthentic toy_hash toy_verify bundle
verify_provenance_iff_example = verify_provenance_iff toy_hash toy_verify bundle

toy_digest : (x : Bytes) → IsBytes (toy_hash x)
toy_digest x = (omega arith, tt)

signed_third : toy_verify third (get_or leaves 2 []) pair ≡ ok true
unfolding bytes_equal diff_of
signed_third = refl

verify_provenance-honest_example :
    (verify_provenance toy_hash toy_verify (record {
      signature = bytes_to_hex third;
      identity_pk = bytes_to_hex pair;
      content_hash = bytes_to_hex (get_or leaves 2 []);
      merkle_proof = map bytes_to_hex (proof_path toy_hash (length leaves) leaves 2);
      leaf_index = 2;
      merkle_root = bytes_to_hex (merkle_root toy_hash leaves);
    })).is_ok
    ≡ true
verify_provenance-honest_example =
    verify_provenance-honest toy_hash toy_digest toy_verify third pair leaves 2 (omega arith, tt)
      (omega arith, (omega arith, tt))
      ((omega arith, tt), ((omega arith, tt), ((omega arith, tt), tt))) (omega arith) signed_third

verify_provenance_verdict_example :
    let v = verify_provenance toy_hash toy_verify bundle in
    IsAnswered toy_hash toy_verify bundle v
    ⊎ ((e : Text) × Fault toy_hash toy_verify bundle e × IsRefused toy_hash toy_verify v e)
verify_provenance_verdict_example = verify_provenance_verdict toy_hash toy_verify bundle

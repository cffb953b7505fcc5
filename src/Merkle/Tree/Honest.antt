-- ===== src/Merkle/Tree/Honest.antt =====
-- The server's tree, the hex encoding and the verifier of demo/verify.js together.
use mobydb_render_engine.Base.{
  ℕ, zero, suc, ◌-◌, ◌/◌, ◌%◌, ◌<◌, ◌≡◌, refl, Bool, true, List, [], ◌∷◌, map, Result, ok, length,
  get_or, All, All-append, arith, ltb, ◌==◌, Bool-cases, inl, inr,
}
use mobydb_render_engine.Base.Errors.{traverse}
use mobydb_render_engine.Merkle.{Bytes, bytes_to_hex, hex_to_bytes, verify_provenance}
use mobydb_render_engine.Merkle.Hex.{IsBytes, hex_to_bytes-bytes_to_hex}
use mobydb_render_engine.Merkle.Tree.{
  pad_odd, hash_pairs, next_layer, proof_path, root_loop, merkle_root, sibling_idx,
}
use mobydb_render_engine.Merkle.Tree.Path.{reconstruct_root-merkle_root}
use mobydb_render_engine.Merkle.Verify.{verify_provenance_iff}

abbrev pub AreBytes : List Bytes → Type 0
AreBytes layer = All IsBytes layer

get_or-IsBytes : (layer : List Bytes) (i : ℕ) → AreBytes layer → IsBytes (get_or layer i [])
get_or-IsBytes [] i h = tt
get_or-IsBytes (x ∷ xs) zero h = h.0
get_or-IsBytes (x ∷ xs) (suc i) h = get_or-IsBytes xs i h.1

pad_odd-AreBytes : (layer : List Bytes) → AreBytes layer → AreBytes (pad_odd layer)
unfolding pad_odd
pad_odd-AreBytes layer h = elim (Bool-cases (length layer % 2 == 1)) [
  | inl odd ↦ rw odd (All-append IsBytes layer _ h (get_or-IsBytes layer (length layer - 1) h, tt))
  | inr even ↦ rw even h
]

traverse-map : (xs : List Bytes) → AreBytes xs → traverse hex_to_bytes (map bytes_to_hex xs) ≡ ok xs
traverse-map [] h = refl
traverse-map (x ∷ xs) h = rw (hex_to_bytes-bytes_to_hex x h.0, traverse-map xs h.1)

module _ (blake3 : Bytes → Bytes) (digest : (x : Bytes) → IsBytes (blake3 x)) where
  hash_pairs-AreBytes :
      (n : ℕ) (layer : List Bytes) → length layer < n → AreBytes (hash_pairs blake3 layer)
  unfolding hash_pairs
  hash_pairs-AreBytes zero layer h = elim h [ ]
  hash_pairs-AreBytes (suc n) [] h = tt
  hash_pairs-AreBytes (suc n) (a ∷ []) h = tt
  hash_pairs-AreBytes (suc n) (a ∷ (b ∷ r)) h = (digest _, hash_pairs-AreBytes n r (omega arith))

  next_layer-AreBytes : (layer : List Bytes) → AreBytes (next_layer blake3 layer)
  unfolding next_layer
  next_layer-AreBytes layer =
      hash_pairs-AreBytes (suc (length (pad_odd layer))) (pad_odd layer) (omega arith)

  proof_path-AreBytes :
      (fuel : ℕ) (layer : List Bytes) (idx : ℕ)
      → AreBytes layer
      → AreBytes (proof_path blake3 fuel layer idx)
  unfolding proof_path
  proof_path-AreBytes zero layer idx h = tt
  proof_path-AreBytes (suc fuel) layer idx h = elim (Bool-cases (ltb 1 (length layer))) [
    | inl more ↦ rw more (
      get_or-IsBytes (pad_odd layer) (sibling_idx idx) (pad_odd-AreBytes layer h),
      proof_path-AreBytes fuel (next_layer blake3 layer) (idx / 2) (next_layer-AreBytes layer),
    )
    | inr last ↦ rw last tt
  ]

  root_loop-IsBytes :
      (fuel : ℕ) (layer : List Bytes) → AreBytes layer → IsBytes (root_loop blake3 fuel layer)
  unfolding root_loop
  root_loop-IsBytes zero layer h = get_or-IsBytes layer 0 h
  root_loop-IsBytes (suc fuel) layer h = elim (Bool-cases (ltb 1 (length layer))) [
    | inl more ↦
        rw more (root_loop-IsBytes fuel (next_layer blake3 layer) (next_layer-AreBytes layer))
    | inr last ↦ rw last (get_or-IsBytes layer 0 h)
  ]

  merkle_root-IsBytes :
      (leaves : List Bytes) → AreBytes leaves → IsBytes (merkle_root blake3 leaves)
  unfolding merkle_root
  merkle_root-IsBytes [] h = omega arith
  merkle_root-IsBytes (l ∷ ls) h = root_loop-IsBytes (length (l ∷ ls)) (l ∷ ls) h

  -- For a hash function whose results are bytes, and a signature, a key and leaves of bytes: for every
  -- leaf of an epoch whose writer's signature over that leaf verifies, the bundle of the
  -- hex-encoded signature, key, leaf, path and stored root is accepted by the offline verifier.
  pub verify_provenance-honest :
      (ed25519_verify : Bytes → Bytes → Bytes → Result Bool) (sig pk : Bytes) (leaves : List Bytes)
      (idx : ℕ)
      → IsBytes sig
      → IsBytes pk
      → AreBytes leaves
      → idx < length leaves
      → ed25519_verify sig (get_or leaves idx []) pk ≡ ok true
      → (verify_provenance blake3 ed25519_verify (record {
        signature = bytes_to_hex sig;
        identity_pk = bytes_to_hex pk;
        content_hash = bytes_to_hex (get_or leaves idx []);
        merkle_proof = map bytes_to_hex (proof_path blake3 (length leaves) leaves idx);
        leaf_index = idx;
        merkle_root = bytes_to_hex (merkle_root blake3 leaves);
      })).is_ok
        ≡ true
  verify_provenance-honest ed25519_verify sig pk leaves idx hs hp hl lt signed =
      (verify_provenance_iff blake3 ed25519_verify _).1 (record {
        sig = sig;
        pk = pk;
        ch = get_or leaves idx [];
        siblings = proof_path blake3 (length leaves) leaves idx;
        stored = merkle_root blake3 leaves;
        reads_sig = hex_to_bytes-bytes_to_hex sig hs;
        reads_pk = hex_to_bytes-bytes_to_hex pk hp;
        reads_ch = hex_to_bytes-bytes_to_hex _ (get_or-IsBytes leaves idx hl);
        reads_siblings = traverse-map _ (proof_path-AreBytes (length leaves) leaves idx hl);
        reads_stored = hex_to_bytes-bytes_to_hex _ (merkle_root-IsBytes leaves hl);
        is_signed = signed;
        is_included = reconstruct_root-merkle_root blake3 leaves idx lt;
      })

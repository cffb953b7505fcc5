-- ===== src/Merkle/Tree/Path.antt =====
-- The path that the server hands out leads demo/verify.js to the root that the server stored.
use mobydb_render_engine.Base.{
  ℕ, zero, suc, ◌+◌, ◌-◌, ◌*◌, ◌/◌, ◌%◌, ◌≤◌, ◌<◌, ◌≡◌, refl, sym, ap, ◌∙◌, List, [], ◌∷◌, ◌++◌,
  length, get_or, arith, ltb, ◌==◌, if◌then◌else◌, Bool-cases, inl, inr, length-append,
}
use mobydb_render_engine.Merkle.{Bytes, concat, reconstruct_root}
use mobydb_render_engine.Merkle.Tree.{
  pad_odd, sibling_idx, hash_pairs, next_layer, proof_path, root_loop, merkle_root,
}

get_or-append {ℓ} :
    {A : Type ℓ} (xs ys : List A) (i : ℕ) (d : A)
    → i < length xs
    → get_or (xs ++ ys) i d ≡ get_or xs i d
get_or-append [] ys i d h = elim h [ ]
get_or-append (x ∷ xs) ys zero d h = refl
get_or-append (x ∷ xs) ys (suc i) d h = get_or-append xs ys i d (omega arith)

pad_odd-even : (layer : List Bytes) → length (pad_odd layer) % 2 ≡ 0
unfolding pad_odd
pad_odd-even layer = ground (arith, length-append layer (get_or layer (length layer - 1) [] ∷ []))

length-pad_odd :
    (layer : List Bytes)
    → (length layer ≤ length (pad_odd layer)) × (length (pad_odd layer) ≤ length layer + 1)
unfolding pad_odd
length-pad_odd layer = ground (arith, length-append layer (get_or layer (length layer - 1) [] ∷ []))

get_or-pad_odd :
    (layer : List Bytes) (i : ℕ)
    → i < length layer
    → get_or (pad_odd layer) i [] ≡ get_or layer i []
unfolding pad_odd
get_or-pad_odd layer i h =
    ground (arith, get_or-append layer (get_or layer (length layer - 1) [] ∷ []) i [] h)

module _ (blake3 : Bytes → Bytes) where
  length-hash_pairs :
      (n : ℕ) (layer : List Bytes) → length layer ≡ n * 2 → length (hash_pairs blake3 layer) ≡ n
  unfolding hash_pairs
  length-hash_pairs zero [] h = refl
  length-hash_pairs zero (a ∷ r) h = absurd (omega arith)
  length-hash_pairs (suc n) [] h = absurd (omega arith)
  length-hash_pairs (suc n) (a ∷ []) h = absurd (omega arith)
  length-hash_pairs (suc n) (a ∷ (b ∷ r)) h = omega (arith, length-hash_pairs n r (omega arith))

  get_or-hash_pairs :
      (j : ℕ) (layer : List Bytes)
      → j * 2 + 1 < length layer
      → get_or (hash_pairs blake3 layer) j []
        ≡ blake3 (get_or layer (j * 2) [] ++ get_or layer (suc (j * 2)) [])
  unfolding hash_pairs
  get_or-hash_pairs j [] h = elim h [ ]
  get_or-hash_pairs j (a ∷ []) h = absurd (omega arith)
  get_or-hash_pairs zero (a ∷ (b ∷ r)) h = refl
  get_or-hash_pairs (suc j) (a ∷ (b ∷ r)) h =
      let e : suc j * 2 ≡ suc (suc (j * 2)) = omega arith in
      rw e (get_or-hash_pairs j r (omega arith))

  length-next_layer :
      (layer : List Bytes) → length (next_layer blake3 layer) ≡ (length layer + 1) / 2
  unfolding next_layer
  length-next_layer layer =
      length-hash_pairs ((length layer + 1) / 2) (pad_odd layer)
        (omega (arith, length-pad_odd layer, pad_odd-even layer))

  -- One round of the verifier goes from a node to the node above it.
  climb :
      (layer : List Bytes) (idx : ℕ)
      → idx < length layer
      → get_or (next_layer blake3 layer) (idx / 2) []
        ≡ blake3 (
            if idx % 2 == 1
            then concat (get_or (pad_odd layer) (sibling_idx idx) []) (get_or layer idx [])
            else concat (get_or layer idx []) (get_or (pad_odd layer) (sibling_idx idx) []))
  unfolding next_layer concat
  climb layer idx h =
      get_or-hash_pairs (idx / 2) (pad_odd layer)
        (omega (arith, length-pad_odd layer, pad_odd-even layer))
      ∙ elim (Bool-cases (idx % 2 == 1)) [
        | inl odd ↦
            let low : idx / 2 * 2 ≡ idx - 1 = ground arith in
            let high : suc (idx - 1) ≡ idx = ground arith in
            rw (low, high) (ground (arith, get_or-pad_odd layer idx h))
        | inr even ↦
            let low : idx / 2 * 2 ≡ idx = ground arith in
            let high : suc idx ≡ idx + 1 = omega arith in
            rw (low, high) (ground (arith, get_or-pad_odd layer idx h))
      ]

  -- The verifier, started at a leaf with the server's path, ends in the server's root.
  reconstruct_root-proof_path :
      (fuel : ℕ) (layer : List Bytes) (idx : ℕ)
      → length layer ≤ fuel
      → idx < length layer
      → reconstruct_root blake3 (get_or layer idx []) (proof_path blake3 fuel layer idx) idx
        ≡ root_loop blake3 fuel layer
  unfolding reconstruct_root proof_path root_loop
  reconstruct_root-proof_path zero layer idx f h = absurd (omega arith)
  reconstruct_root-proof_path (suc fuel) layer idx f h = elim (Bool-cases (ltb 1 (length layer))) [
    | inl more ↦
        let above = next_layer blake3 layer in
        let path = proof_path blake3 fuel above (idx / 2) in
        rw more (
          ap (λ node. reconstruct_root blake3 node path (idx / 2)) (sym (climb layer idx h))
          ∙ reconstruct_root-proof_path fuel above (idx / 2)
              (ground (arith, length-next_layer layer)) (ground (arith, length-next_layer layer)))
    | inr last ↦ let first : idx ≡ 0 = ground arith in rw (last, first)
  ]

-- For every leaf of every non-empty epoch, the path that the server builds makes the verifier
-- reconstruct the root that the server stores, whatever the hash function is.
pub reconstruct_root-merkle_root :
    (blake3 : Bytes → Bytes) (leaves : List Bytes) (idx : ℕ)
    → idx < length leaves
    → reconstruct_root blake3
        (get_or leaves idx [])
        (proof_path blake3 (length leaves) leaves idx)
        idx
      ≡ merkle_root blake3 leaves
unfolding merkle_root
reconstruct_root-merkle_root blake3 [] idx h = elim h [ ]
reconstruct_root-merkle_root blake3 (leaf ∷ leaves) idx h =
    reconstruct_root-proof_path blake3 (length (leaf ∷ leaves)) (leaf ∷ leaves) idx (omega arith) h

-- ===== src/Merkle/Tree.antt =====
-- crates/mobydb-client/src/merkle.rs and `merkle_root` of crates/seed-data/src/main.rs: how the
-- server builds an epoch's tree and a leaf's path. Leaves are taken 32 bytes long.
pub mod Path
pub mod Honest
use mobydb_render_engine.Base.{
  ℕ, zero, suc, ◌+◌, ◌-◌, ◌/◌, ◌%◌, List, [], ◌∷◌, ◌++◌, length, get_or, replicate, ltb, ◌==◌,
  if◌then◌else◌,
}
use mobydb_render_engine.Merkle.{Bytes, concat}

-- `layer.push(last)` on an odd layer.
pub pad_odd : List Bytes → List Bytes
pad_odd layer =
    if length layer % 2 == 1 then layer ++ get_or layer (length layer - 1) [] ∷ [] else layer

-- The position next to an even one, before an odd one.
abbrev pub sibling_idx : ℕ → ℕ
sibling_idx idx = if idx % 2 == 0 then idx + 1 else idx - 1

module _ (blake3 : Bytes → Bytes) where
  -- `layer.chunks(2)`, each hashed.
  pub hash_pairs : List Bytes → List Bytes
  hash_pairs (a ∷ (b ∷ rest)) = blake3 (a ++ b) ∷ hash_pairs rest
  hash_pairs _ = []

  pub next_layer : List Bytes → List Bytes
  next_layer layer = hash_pairs (pad_odd layer)

  -- The `while layer.len() > 1` loop of `proof_for`, on fuel.
  pub proof_path : ℕ → List Bytes → ℕ → List Bytes
  proof_path zero layer idx = []
  proof_path (suc fuel) layer idx =
      let rest = proof_path fuel (next_layer layer) (idx / 2) in
      let step = get_or (pad_odd layer) (sibling_idx idx) [] ∷ rest in
      if ltb 1 (length layer) then step else []

  -- The same loop in `merkle_root`.
  pub root_loop : ℕ → List Bytes → Bytes
  root_loop zero layer = get_or layer 0 []
  root_loop (suc fuel) layer =
      let rest = root_loop fuel (next_layer layer) in
      if ltb 1 (length layer) then rest else get_or layer 0 []

  -- Each round leaves fewer hashes, so as many rounds as leaves are enough.
  unfoldable pub merkle_root : List Bytes → Bytes
  unfolding root_loop
  merkle_root [] = replicate 32 0
  merkle_root (leaf ∷ leaves) = root_loop (length (leaf ∷ leaves)) (leaf ∷ leaves)

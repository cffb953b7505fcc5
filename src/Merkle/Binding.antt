-- ===== src/Merkle/Binding.antt =====
-- Two Merkle paths of demo/verify.js that end in one root: the root binds the leaf, or the hash
-- function has a collision that the two paths exhibit.
use mobydb_render_engine.Base.{
  ℕ, ◌/◌, ◌%◌, ◌≡◌, refl, sym, ap, ◌∙◌, ◌≢◌, ◌⊎◌, inl, inr, List, [], ◌∷◌, ◌++◌, length,
  length-append, arith, ◌==◌, if◌then◌else◌, Bool-cases, ◌===◌, ===_sound, ===_refl,
}
use mobydb_render_engine.Merkle.{Bytes, concat, reconstruct_root}

-- Two inputs of the hash function with one output.
abbrev pub Collision : (Bytes → Bytes) → Type 0
Collision blake3 = (x : Bytes) × (y : Bytes) × (x ≢ y) × (blake3 x ≡ blake3 y)

append_injective :
    (a a' b b' : Bytes) → length a ≡ length a' → (a ++ b) ≡ (a' ++ b') → (a ≡ a') × (b ≡ b')
append_injective [] [] b b' h e = (refl, e)
append_injective [] (x ∷ a') b b' h e = absurd (omega arith)
append_injective (x ∷ a) [] b b' h e = absurd (omega arith)
append_injective (x ∷ a) (y ∷ a') b b' h e = ground (arith, append_injective a a' b b')

-- What a round hashes.
abbrev joined : ℕ → Bytes → Bytes → Bytes
joined idx node sib = if idx % 2 == 1 then concat sib node else concat node sib

joined_injective :
    (idx : ℕ) (node node' sib sib' : Bytes)
    → length node ≡ length node'
    → joined idx node sib ≡ joined idx node' sib'
    → (node ≡ node') × (sib ≡ sib')
unfolding concat
joined_injective idx node node' sib sib' h e = ground (
  arith,
  append_injective node node' sib sib' h,
  append_injective sib sib' node node',
  ap length e,
  length-append sib node,
  length-append sib' node',
)

module _ (blake3 : Bytes → Bytes) (size : ℕ) (sized : (x : Bytes) → length (blake3 x) ≡ size) where
  same_or_Collision : (x y : Bytes) → blake3 x ≡ blake3 y → (x ≡ y) ⊎ Collision blake3
  same_or_Collision x y e = elim (Bool-cases (x === y)) [
    | inl same ↦ inl (===_sound x y same)
    | inr other ↦ inr (x, y, (λ p. ground (arith, ap (λ t. x === t) p, ===_refl x)), e)
  ]

  -- For a hash function whose results have one length: if two paths of one length, taken from leaves of
  -- one length at one index, end in one root, then the leaves and the paths are equal, or the hash
  -- function has a collision.
  pub reconstruct_root_binding :
      (siblings siblings' : List Bytes) (leaf leaf' : Bytes) (idx : ℕ)
      → length siblings ≡ length siblings'
      → length leaf ≡ length leaf'
      → reconstruct_root blake3 leaf siblings idx ≡ reconstruct_root blake3 leaf' siblings' idx
      → ((leaf ≡ leaf') × (siblings ≡ siblings')) ⊎ Collision blake3
  unfolding reconstruct_root
  reconstruct_root_binding [] [] leaf leaf' idx h k e = inl (e, refl)
  reconstruct_root_binding [] (s ∷ r) leaf leaf' idx h k e = absurd (omega arith)
  reconstruct_root_binding (s ∷ r) [] leaf leaf' idx h k e = absurd (omega arith)
  reconstruct_root_binding (s ∷ r) (s' ∷ r') leaf leaf' idx h k e =
      elim (reconstruct_root_binding r r' (blake3 (joined idx leaf s))
        (blake3 (joined idx leaf' s')) (idx / 2) (omega arith) (sized _ ∙ sym (sized _)) e) [
          | inr collision ↦ inr collision
          | inl (nodes, paths) ↦
              elim (same_or_Collision (joined idx leaf s) (joined idx leaf' s') nodes) [
                | inr collision ↦ inr collision
                | inl inputs ↦
                    let (leaves, heads) = joined_injective idx leaf leaf' s s' k inputs in
                    inl (leaves, cc (heads, paths))
              ]
        ]

-- ===== src/App/Labels.antt =====
-- `idFromH3` and `voltageToKv` of demo/app.js.
use mobydb_render_engine.Base.{
  ℕ, ◌+◌, ◌*◌, ◌%◌, ◌^◌, ◌<◌, ◌≤◌, ◌≡◌, refl, true, List, [], ◌∷◌, ◌++◌, Text, All, arith, ℤ, pos,
  negsuc,
}
use mathlib.Core.List.{Memᴰ}
use mobydb_render_engine.App.{hash_step, hash_from, id_from_h3, le_int, round_thousand}

hash_from_lt : (h : ℕ) (s : Text) → h < 2 ^ 32 → hash_from h s < 2 ^ 32
hash_from_lt h [] lt = lt
hash_from_lt h (c ∷ s) lt = hash_from_lt (hash_step h c) s (omega arith)

hash_from-append : (h : ℕ) (s t : Text) → hash_from h (s ++ t) ≡ hash_from (hash_from h s) t
hash_from-append h [] t = refl
hash_from-append h (c ∷ s) t = hash_from-append (hash_step h c) s t

-- The feature id of a cell is a 32-bit number, and appending a code unit advances it by one step of
-- the multiply-by-31 hash, reduced modulo 2^32.
pub id_from_h3_lem :
    (s : Text) (c : ℕ)
    → (id_from_h3 s < 2 ^ 32) × (id_from_h3 (s ++ c ∷ []) ≡ (id_from_h3 s * 31 + c) % 2 ^ 32)
unfolding id_from_h3
id_from_h3_lem s c = (hash_from_lt 0 s (omega arith), hash_from-append 0 s (c ∷ []))

-- A largest element of the list.
abbrev pub IsLargest : ℤ → List ℤ → Type 0
IsLargest m ns = Memᴰ m ns × All (λ n. le_int n m ≡ true) ns

-- The rounding of a thousandth of the number: to the nearest, a half upwards, below zero as the code
-- does it.
abbrev pub IsRounded : ℤ → ℤ → Type 0
IsRounded (pos n) k = (j : ℕ) × (k ≡ pos j) × (j * 1000 ≤ n + 500) × (n + 500 < j * 1000 + 1000)
IsRounded (negsuc n) k = k ≡ round_thousand (negsuc n)

-- ===== src/Base/Tables.antt =====
-- Over a small range, a claim about every value is checked by evaluation.
use Prim.Native.Nat.{ℕ, zero, suc, ◌<◌}
use mathlib.Core.Path.{◌≡◌}
use mathlib.Core.Bool.{Bool, true, ◌&&◌}
use native.Mathlib.Omega.{arith}

unfoldable pub all_below : ℕ → (ℕ → Bool) → Bool
all_below zero p = true
all_below (suc n) p = p n && all_below n p

pub all_below_sound :
    (test : ℕ → Bool) (limit : ℕ) {c : ℕ} → c < limit → all_below limit test ≡ true → test c ≡ true
unfolding all_below
all_below_sound test (suc m) {c = c} below checked = ground (arith, all_below_sound test m {c = c})
all_below_sound test zero below checked = absurd (omega arith)

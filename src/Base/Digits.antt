-- ===== src/Base/Digits.antt =====
-- The decimal text of a whole number, as `String(n)` and a template literal print it.
use Prim.Native.Nat.{ℕ, zero, suc, ◌+◌, ◌/◌, ◌%◌}
use mathlib.Core.Bool.{true, false}
use mathlib.Core.List.{[], ◌∷◌}
use mobydb_render_engine.Base.Strings.{Text}
use mobydb_render_engine.Base.Tests.{◌==◌}

-- Each round prints the last digit; a number has at most as many digits as its value plus one.
abbrev digits_from : ℕ → ℕ → Text → Text
digits_from zero n printed = printed
digits_from (suc fuel) n printed =
    let longer = (b'0' + n % 10) ∷ printed in
    elim (n / 10 == 0) [ true ↦ longer | false ↦ digits_from fuel (n / 10) longer ]

unfoldable pub digits : ℕ → Text
digits n = digits_from (suc n) n []

-- ===== src/Base/Strings.antt =====
-- Text as the source sees it: a sequence of UTF-16 code units. A literal of the model lies in the
-- Basic Multilingual Plane, where a code unit is a code point.
use Prim.Native.Nat.{ℕ}
use Prim.Native.Char.{code}
use Prim.Native.String.{String}
use mathlib.Core.Path.{◌≡◌, refl, ap}
use mathlib.Core.Option.{Option, none, some}
use mathlib.Core.Bool.{Bool, true, false, ◌&&◌}
use mathlib.Core.List.{List, [], ◌∷◌, ◌++◌}
use native.Mathlib.Omega.{arith}
use mobydb_render_engine.Base.Tests.{◌==◌, if◌then◌else◌}
use mobydb_render_engine.Base.Lists.{drop, length, replicate}
use Prim.Native.Nat.{◌-◌}

abbrev pub Text : Type 0
Text = List ℕ

abbrev pub codes : String → Text
codes String.[] = []
codes (String.◌∷◌ c s) = code c ∷ codes s

-- `a === b` on texts.
infix 50 ◌===◌
abbrev pub ◌===◌ : Text → Text → Bool
[] === [] = true
[] === (d ∷ t) = false
(c ∷ s) === [] = false
(c ∷ s) === (d ∷ t) = (c == d) && (s === t)

pub ===_sound : (s t : Text) → (s === t) ≡ true → s ≡ t
===_sound [] [] h = refl
===_sound [] (d ∷ t) h = ground arith
===_sound (c ∷ s) [] h = ground arith
===_sound (c ∷ s) (d ∷ t) h = ground (arith, ===_sound s t)

pub ===_refl : (s : Text) → (s === s) ≡ true
===_refl [] = refl
===_refl (c ∷ s) = ground (arith, ===_refl s)

-- `s.startsWith(p)`.
abbrev pub starts_with : Text → Text → Bool
starts_with s [] = true
starts_with [] (d ∷ p) = false
starts_with (c ∷ s) (d ∷ p) = (c == d) && starts_with s p

-- `s.replace(/^prefix/, '')`.
abbrev pub without_prefix : Text → Text → Text
without_prefix p s = if starts_with s p then drop (length p) s else s

-- `v || fallback` of a text that may be absent.
abbrev pub or_text : Option Text → Text → Text
or_text none w = w
or_text (some []) w = w
or_text (some (c ∷ s)) w = c ∷ s

-- `parts.join(sep)`.
abbrev pub join : Text → List Text → Text
join sep [] = []
join sep (p ∷ []) = p
join sep (p ∷ (q ∷ r)) = p ++ sep ++ join sep (q ∷ r)

-- `s.padStart(n, c)` with a pad of one code unit.
abbrev pub pad_start : ℕ → ℕ → Text → Text
pad_start n c s = replicate (n - length s) c ++ s

pub ===_false : (s t : Text) → (s === t) ≡ false → ¬ (s ≡ t)
===_false s t h e = ground (arith, ap (λ u. s === u) e, ===_refl s)

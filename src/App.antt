-- ===== src/App.antt =====
-- demo/app.js: the pure helpers of the page. The map, its layers and the page's markup are not
-- modelled; the cell queries are in App/Cells, the escape of markup in App/Escape.
mod Tests
pub mod Labels
pub mod Escape
pub mod Cells
pub mod Mcp
pub mod View
pub mod Setup
pub mod Lines
pub mod Debounce
pub mod Audit
pub mod Operator
use mobydb_render_engine.Base.{
  ℕ, suc, ◌+◌, ◌-◌, ◌*◌, ◌/◌, ◌%◌, ◌^◌, Bool, true, false, Option, none, some, List, [], ◌∷◌, ◌++◌,
  map, Text, codes, ltb, leb, ◌==◌, if◌then◌else◌, ℤ, pos, negsuc,
}
use mobydb_render_engine.Base.Int.{parse_int, negate, trim_start}

-- One step of the loop of `idFromH3`.
abbrev pub hash_step : ℕ → ℕ → ℕ
hash_step h c = (h * 31 + c) % 2 ^ 32

abbrev hash_from : ℕ → Text → ℕ
hash_from h [] = h
hash_from h (c ∷ s) = hash_from (hash_step h c) s

unfoldable pub id_from_h3 : Text → ℕ
id_from_h3 h3hex = hash_from 0 h3hex

-- `s.split(";")`: the first part, and the ones after it.
abbrev pub split_on : ℕ → Text → Text × List Text
split_on sep [] = ([], [])
split_on sep (c ∷ s) =
    let rest = split_on sep s in if c == sep then ([], rest.0 ∷ rest.1) else (c ∷ rest.0, rest.1)

abbrev pub parts_of : ℕ → Text → List Text
parts_of sep s = let r = split_on sep s in r.0 ∷ r.1

-- The numbers that the parts start with; a part without one is filtered out.
abbrev pub numbers : List (Option ℤ) → List ℤ
numbers [] = []
numbers (none ∷ ns) = numbers ns
numbers (some n ∷ ns) = n ∷ numbers ns

abbrev pub le_int : ℤ → ℤ → Bool
le_int (pos a) (pos b) = leb a b
le_int (pos a) (negsuc b) = false
le_int (negsuc a) (pos b) = true
le_int (negsuc a) (negsuc b) = leb b a

abbrev pub max_int : ℤ → ℤ → ℤ
max_int a b = if le_int a b then b else a

-- `Math.max(...parts)` of a list that is not empty.
abbrev pub max_of : ℤ → List ℤ → ℤ
max_of n [] = n
max_of n (m ∷ ms) = max_of (max_int n m) ms

-- `Math.round(n / 1000)`: half a unit rounds up.
abbrev pub round_thousand : ℤ → ℤ
round_thousand (pos n) = pos ((n + 500) / 1000)
round_thousand (negsuc n) = if ltb n 500 then pos 0 else negate ((n + 500) / 1000)

abbrev pub kv_of : List ℤ → Option ℤ
kv_of [] = none
kv_of (n ∷ ns) = some (round_thousand (max_of n ns))

-- `voltageToKv` of the text of a voltage tag. `parseInt` trims what `trim` would.
unfoldable pub voltage_to_kv : Option Text → Option ℤ
voltage_to_kv none = none
voltage_to_kv (some []) = none
voltage_to_kv (some (c ∷ s)) = kv_of (numbers (map (parse_int 10) (parts_of b';' (c ∷ s))))

-- `s.replace(/c/g, rep)`.
abbrev pub replace_all : ℕ → Text → Text → Text
replace_all c rep [] = []
replace_all c rep (d ∷ s) =
    let rest = replace_all c rep s in if d == c then rep ++ rest else d ∷ rest

-- `escapeHtml` of a text; ai_observer_ticker.js, compliance_button.js, lab_overlay.js and
-- lab_tile_preview.js have the same four replacements.
unfoldable pub escape_html : Text → Text
escape_html s = replace_all b'"' (codes "&quot;") (
    replace_all b'>' (codes "&gt;")
      (replace_all b'<' (codes "&lt;") (replace_all b'&' (codes "&amp;") s)))

-- ===== src/App/Lines.antt =====
-- `loadTransmissionLines` of demo/app.js: the style of each line. Voltages are whole kilovolts, widths
-- are tenths of a pixel.
use mobydb_render_engine.Base.{
  ℕ, ◌≤◌, Option, none, some, List, map, Result, ok, throw, Text, codes, leb, length, if◌then◌else◌,
  arith,
}

pub record Line : Type 0 where
  -- Where the tag is a number.
  pub voltage_kv : Option ℕ
  pub geometry : Text

pub record Style : Type 0 where
  pub color : Text
  pub width_z8 : ℕ
  pub width_z14 : ℕ

pub record Feature : Type 0 where
  pub line : Line
  pub style : Style

abbrev pub kv_of : Option ℕ → ℕ
kv_of none = 0
kv_of (some kv) = kv

abbrev style : Text → ℕ → ℕ → Style
style color w8 w14 = record { color = color; width_z8 = w8; width_z14 = w14 }

unfoldable pub style_of : ℕ → Style
style_of kv =
    if leb 380 kv
    then style (codes "#d83232") 18 45
    else if leb 220 kv
    then style (codes "#e06b2a") 13 32
    else if leb 150 kv
    then style (codes "#f0a02d") 9 22
    else if leb 132 kv
    then style (codes "#e5c246") 9 22
    else if leb 60 kv
    then style (codes "#7a8997") 6 16
    else style (codes "#5a6775") 4 12

-- The source `tx-lines`, and the number of lines in the cost counter.
pub record Lines : Type 0 where
  pub features : List Feature
  pub counter : Text

-- The reply, or any error on the way to its features; `toLocaleString` is a parameter.
unfoldable pub load_transmission_lines : (ℕ → Text) → Result (List Line) → Lines → Lines
load_transmission_lines to_locale (ok raw) lines =
    let features = map (λ l. record { line = l; style = style_of (kv_of l.voltage_kv) }) raw in
    record { features = features; counter = to_locale (length features) }
load_transmission_lines to_locale (throw message) lines = record lines { counter = codes "—" }

-- A line of a higher voltage is drawn at least as wide, at both ends of the zoom.
pub style_of_mono :
    (a b : ℕ)
    → a ≤ b
    → ((style_of a).width_z8 ≤ (style_of b).width_z8)
      × ((style_of a).width_z14 ≤ (style_of b).width_z14)
unfolding style_of
style_of_mono a b h = (ground arith, ground arith)

-- ===== src/Tile/Canvas.antt =====
-- `drawTileWithCell` of demo/lab_tile_preview.js: the size of the canvas and what is drawn on it. The
-- scale is an exact fraction, where the source has a double; the colours are not modelled.
pub mod Size
use mobydb_render_engine.Base.{
  ℕ, ◌+◌, ◌*◌, ◌/◌, Option, none, some, List, [], ◌∷◌, ◌++◌, map, leb, if◌then◌else◌,
}
use mobydb_render_engine.Tile.Projection.{Doubles, Corners, outline}

pub record Image : Type 0 where
  pub natural_width : ℕ
  pub natural_height : ℕ

abbrev pub max_w : ℕ
max_w = 600

-- `Math.round(side * Math.min(1, maxW / img.naturalWidth))`.
unfoldable pub scaled : ℕ → ℕ → ℕ
scaled natural_width side =
    if leb natural_width max_w
    then side
    else (2 * (side * max_w) + natural_width) / (2 * natural_width)

pub data Command (R : Type 0) : Type 0 where
  draw_image : (width height : ℕ) → Command R
  begin_path close_path stroke fill : Command R
  move_to line_to dot : R × R → Command R

pub record Canvas (R : Type 0) : Type 0 where
  pub width : ℕ
  pub height : ℕ
  pub commands : List (Command R)

module _ {R : Type 0} (doubles : Doubles R) (of_nat : ℕ → R) where
  abbrev pub path : List (R × R) → List (Command R)
  path [] = []
  path (p ∷ ps) = move_to p ∷ map line_to ps

  abbrev pub dots : List (R × R) → List (Command R)
  dots [] = []
  dots (p ∷ ps) = begin_path ∷ dot p ∷ fill ∷ dots ps

  -- The outline, its stroke and fill, and a dot at each vertex.
  unfoldable pub draw_cell : List (R × R) → List (Command R)
  draw_cell points = begin_path ∷ (path points ++ (close_path ∷ stroke ∷ fill ∷ dots points))

  -- The boundary of the cell, on a page that has the library.
  unfoldable pub draw_tile_with_cell : Image → Corners R → Option (List (R × R)) → Canvas R
  draw_tile_with_cell img corners boundary =
      let w = scaled img.natural_width img.natural_width in
      let h = scaled img.natural_width img.natural_height in
      record {
        width = w;
        height = h;
        commands = draw_image w h ∷ elim boundary [
          | none ↦ []
          | some b ↦ draw_cell (outline doubles (of_nat w) (of_nat h) corners b)
        ];
      }

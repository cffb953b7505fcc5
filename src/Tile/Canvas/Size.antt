-- ===== src/Tile/Canvas/Size.antt =====
-- The size of the canvas of demo/lab_tile_preview.js.
use mobydb_render_engine.Base.{
  ℕ, ◌+◌, ◌*◌, ◌/◌, ◌≤◌, ◌<◌, ◌≡◌, List, Option, leb, Bool-cases, inl, inr, arith,
}
use mobydb_render_engine.Tile.Projection.{Doubles, Corners}
use mobydb_render_engine.Tile.Canvas.{Image, max_w, scaled, draw_tile_with_cell}
use Prim.Native.Nat.{min, max}
use native.Mathlib.Nat.{div-eq_of_lt-le}

-- Rounding to the nearest whole: twice the error is at most the divisor.
rounded :
    (a w : ℕ)
    → 0 < w
    → (2 * (w * ((2 * a + w) / (2 * w))) ≤ 2 * a + w)
      × (2 * a ≤ 2 * (w * ((2 * a + w) / (2 * w))) + w)
rounded a w h = grind arith

scaled_width : (w : ℕ) → scaled w w ≡ min w max_w
unfolding scaled
scaled_width w = elim (Bool-cases (leb w max_w)) [
  | inl small ↦ rw small (ground arith)
  | inr large ↦
      let wide : 600 < w = ground arith in
      let whole : (2 * (w * max_w) + w) / (2 * w) ≡ 600 =
        div-eq_of_lt-le (2 * w) (omega arith) (omega arith) in
      rw (large, whole) (ground arith)
]

-- The height at the scale, times twice the larger width, is off by at most the width of the image.
scaled_close :
    (w side : ℕ)
    → (2 * (max w max_w * scaled w side) ≤ 2 * (side * max_w) + w)
      × (2 * (side * max_w) ≤ 2 * (max w max_w * scaled w side) + w)
unfolding scaled
scaled_close w side = elim (Bool-cases (leb w max_w)) [
  | inl small ↦
      let top : max w max_w ≡ max_w = ground arith in rw (small, top) (omega arith, omega arith)
  | inr large ↦
      let top : max w max_w ≡ w = ground arith in
      rw (large, top) (rounded (side * max_w) w (ground arith))
]

module _ {R : Type 0} (doubles : Doubles R) (of_nat : ℕ → R) where
  -- Whatever the arithmetic on doubles: the canvas is as wide as the image, but at most 600; and its
  -- height times the larger of the width of the image and 600 is the height of the image times 600, with
  -- twice the error at most the width of the image, so that the proportions are kept but for rounding.
  pub canvas_fits :
      (img : Image) (corners : Corners R) (boundary : Option (List (R × R)))
      → let canvas = draw_tile_with_cell doubles of_nat img corners boundary in
        let w = img.natural_width in
        (canvas.width ≡ min w max_w)
        × (2 * (max w max_w * canvas.height) ≤ 2 * (img.natural_height * max_w) + w)
        × (2 * (img.natural_height * max_w) ≤ 2 * (max w max_w * canvas.height) + w)
  unfolding draw_tile_with_cell
  canvas_fits img corners boundary =
      let (low, high) = scaled_close img.natural_width img.natural_height in
      (scaled_width img.natural_width, low, high)

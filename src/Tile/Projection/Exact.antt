-- ===== src/Tile/Projection/Exact.antt =====
-- The corners of the unit square under bilinearForward of demo/lab_tile_preview.js.
use mobydb_render_engine.Base.{◌≡◌}
use mobydb_render_engine.Tile.Projection.{Doubles, Corners, bilinear_forward, weighted}

-- What the arithmetic of finite doubles does with 0 and 1.
pub record HasUnits {R : Type 0} (doubles : Doubles R) : Type 0 where
  pub one_mul : (a : R) → doubles.mul doubles.one a ≡ a
  pub nought_mul : (a : R) → doubles.mul doubles.nought a ≡ doubles.nought
  pub add_nought : (a : R) → doubles.add a doubles.nought ≡ a
  pub nought_add : (a : R) → doubles.add doubles.nought a ≡ a
  pub sub_nought : doubles.sub doubles.one doubles.nought ≡ doubles.one
  pub sub_one : doubles.sub doubles.one doubles.one ≡ doubles.nought

module _ {R : Type 0} (doubles : Doubles R) (units : HasUnits doubles) where
  open doubles use {nought, one}
  open units use {one_mul, nought_mul, add_nought, nought_add, sub_nought, sub_one}

  -- For arithmetic in which 0 and 1 are the units that they are for finite doubles: the corners of the
  -- unit square are mapped to those of the scene exactly, north-west, south-west, south-east and
  -- north-east.
  pub bilinear_forward_corners :
      (c : Corners R)
      → (bilinear_forward doubles nought nought c ≡ c.nw)
        × (bilinear_forward doubles nought one c ≡ c.sw)
        × (bilinear_forward doubles one one c ≡ c.se)
        × (bilinear_forward doubles one nought c ≡ c.ne)
  unfolding bilinear_forward
  bilinear_forward_corners c = (
    simp (weighted, sub_nought, sub_one, one_mul, nought_mul, add_nought, nought_add),
    simp (weighted, sub_nought, sub_one, one_mul, nought_mul, add_nought, nought_add),
    simp (weighted, sub_nought, sub_one, one_mul, nought_mul, add_nought, nought_add),
    simp (weighted, sub_nought, sub_one, one_mul, nought_mul, add_nought, nought_add),
  )

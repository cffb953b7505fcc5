-- ===== src/Tile/Projection.antt =====
-- bilinearForward and projectToUV of demo/lab_tile_preview.js. The arithmetic on doubles is a parameter.
pub mod Exact
pub mod Rounds
use mobydb_render_engine.Base.{
  ℕ, zero, suc, Bool, true, false, ◌&&◌, ◌||◌, List, [], ◌∷◌, take, map, if◌then◌else◌,
}

-- The operations on numbers that the source uses; `below a b` is `Math.abs(a) < b`.
pub record Doubles (R : Type 0) : Type 0 where
  pub add : R → R → R
  pub sub : R → R → R
  pub mul : R → R → R
  pub div : R → R → R
  pub neg : R → R
  pub below : R → R → Bool
  pub nought : R
  pub one : R
  -- 0.5, 1e-9, 1e-5 and 1e-15.
  pub half : R
  pub eps : R
  pub h : R
  pub tiny : R

-- The four corners of the scene, each a longitude and a latitude.
pub record Corners (R : Type 0) : Type 0 where
  pub nw : R × R
  pub sw : R × R
  pub se : R × R
  pub ne : R × R

-- The numerical Jacobian of a round.
pub record Jacobian (R : Type 0) : Type 0 where
  pub d_lng_du : R
  pub d_lat_du : R
  pub d_lng_dv : R
  pub d_lat_dv : R

module _ {R : Type 0} (doubles : Doubles R) where
  open doubles use {add, sub, mul, div, neg, below, one, half, eps, h, tiny}

  -- The sum of the corners' coordinates, each by its weight.
  abbrev pub weighted : R → R → R → R → R → R → R → R → R
  weighted w0 w1 w2 w3 a b c d = add (add (add (mul w0 a) (mul w1 b)) (mul w2 c)) (mul w3 d)

  unfoldable pub bilinear_forward : R → R → Corners R → R × R
  bilinear_forward u v c =
      let w0 = mul (sub one u) (sub one v) in
      let w1 = mul (sub one u) v in
      let w2 = mul u v in
      let w3 = mul u (sub one v) in
      (
        weighted w0 w1 w2 w3 c.nw.0 c.sw.0 c.se.0 c.ne.0,
        weighted w0 w1 w2 w3 c.nw.1 c.sw.1 c.se.1 c.ne.1,
      )

  -- The first test of a round: both errors are small.
  unfoldable pub is_close : R → R → Corners R → R × R → Bool
  is_close lng lat corners (u, v) =
      let (f_lng, f_lat) = bilinear_forward u v corners in
      below (sub f_lng lng) eps && below (sub f_lat lat) eps

  unfoldable pub jacobian : Corners R → R × R → Jacobian R
  jacobian corners (u, v) =
      let (f_lng, f_lat) = bilinear_forward u v corners in
      let (f_lng_u, f_lat_u) = bilinear_forward (add u h) v corners in
      let (f_lng_v, f_lat_v) = bilinear_forward u (add v h) corners in
      record {
        d_lng_du = div (sub f_lng_u f_lng) h;
        d_lat_du = div (sub f_lat_u f_lat) h;
        d_lng_dv = div (sub f_lng_v f_lng) h;
        d_lat_dv = div (sub f_lat_v f_lat) h;
      }

  abbrev pub det_of : Jacobian R → R
  det_of j = sub (mul j.d_lng_du j.d_lat_dv) (mul j.d_lng_dv j.d_lat_du)

  -- The second test: the determinant is tiny.
  abbrev pub is_singular : Corners R → R × R → Bool
  is_singular corners uv = below (det_of (jacobian corners uv)) tiny

  unfoldable pub newton_step : R → R → Corners R → R × R → R × R
  newton_step lng lat corners (u, v) =
      let (f_lng, f_lat) = bilinear_forward u v corners in
      let err_lng = sub f_lng lng in
      let err_lat = sub f_lat lat in
      let j = jacobian corners (u, v) in
      let du = div (sub (mul j.d_lat_dv err_lng) (mul j.d_lng_dv err_lat)) (det_of j) in
      let dv = div (add (mul (neg j.d_lat_du) err_lng) (mul j.d_lng_du err_lat)) (det_of j) in
      (sub u du, sub v dv)

  -- The loop, for as many rounds as are left.
  unfoldable pub newton_from : ℕ → R → R → Corners R → R × R → R × R
  newton_from zero lng lat corners uv = uv
  newton_from (suc rounds) lng lat corners uv =
      let rest = newton_from rounds lng lat corners (newton_step lng lat corners uv) in
      if is_close lng lat corners uv || is_singular corners uv then uv else rest

  unfoldable pub project_to_uv : R → R → Corners R → R × R
  project_to_uv lng lat corners = newton_from 30 lng lat corners (half, half)

  -- The points of the outline, for a boundary of latitudes and longitudes and a canvas of W by H.
  unfoldable pub outline : R → R → Corners R → List (R × R) → List (R × R)
  outline w h' corners [] = []
  outline w h' corners ((lat, lng) ∷ boundary) =
      let (u, v) = project_to_uv lng lat corners in
      (mul u w, mul v h') ∷ outline w h' corners boundary

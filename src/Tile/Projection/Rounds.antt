-- ===== src/Tile/Projection/Rounds.antt =====
-- The rounds of projectToUV of demo/lab_tile_preview.js.
use mobydb_render_engine.Base.{
  ℕ, zero, suc, ◌≤◌, ◌≡◌, refl, true, ◌||◌, ◌⊎◌, inl, inr, ap, if-cases, arith,
}
use mobydb_render_engine.Tile.Projection.{
  Doubles, Corners, is_close, is_singular, newton_step, newton_from, project_to_uv,
}

one_more : {P : Type 0} (k rounds : ℕ) → P ⊎ (k ≡ rounds) → P ⊎ (suc k ≡ suc rounds)
one_more k rounds (inl p) = inl p
one_more k rounds (inr e) = inr (ap suc e)

module _ {R : Type 0} (doubles : Doubles R) where
  -- That many steps of the method.
  abbrev pub iterate : ℕ → R → R → Corners R → R × R → R × R
  iterate zero lng lat corners uv = uv
  iterate (suc n) lng lat corners uv =
      iterate n lng lat corners (newton_step doubles lng lat corners uv)

  -- A step count at which the loop stops.
  abbrev pub Stops : ℕ → R → R → Corners R → R × R → R × R → Type 0
  Stops rounds lng lat corners start out =
      (k : ℕ) × (k ≤ rounds)
      × (out ≡ iterate k lng lat corners start)
      × (((is_close doubles lng lat corners out || is_singular doubles corners out) ≡ true)
          ⊎ (k ≡ rounds))

  newton_from-Stops :
      (rounds : ℕ) (lng lat : R) (corners : Corners R) (uv : R × R)
      → Stops rounds lng lat corners uv (newton_from doubles rounds lng lat corners uv)
  unfolding newton_from
  newton_from-Stops zero lng lat corners uv = (0, omega arith, refl, inr refl)
  newton_from-Stops (suc rounds) lng lat corners uv =
      let next = newton_step doubles lng lat corners uv in
      let (k, le, eq, why) = newton_from-Stops rounds lng lat corners next in
      if-cases (Stops (suc rounds) lng lat corners uv)
        (is_close doubles lng lat corners uv || is_singular doubles corners uv)
        (λ e. (0, omega arith, refl, inl e)) (λ e. (suc k, omega arith, eq, one_more k rounds why))

  -- Whatever the arithmetic of doubles does: the projection ends after at most 30 steps of the method,
  -- at a point whose image is within the tolerance of the asked one in both coordinates, or where the
  -- determinant of the Jacobian is tiny, or after 30 steps.
  pub project_to_uv-Stops :
      (lng lat : R) (corners : Corners R)
      → Stops 30 lng lat corners
          (doubles.half, doubles.half)
          (project_to_uv doubles lng lat corners)
  unfolding project_to_uv
  project_to_uv-Stops lng lat corners =
      newton_from-Stops 30 lng lat corners (doubles.half, doubles.half)

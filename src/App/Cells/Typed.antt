-- ===== src/App/Cells/Typed.antt =====
-- The types of the properties that `refreshCells` of demo/app.js gives a feature of the map: the server's
-- values are of any type.
use mobydb_render_engine.Base.{
  ℕ, ◌^◌, ◌<◌, ◌≡◌, refl, ◌⊎◌, inl, inr, Bool, true, false, throw, not, ◌&&◌, List, [], ◌∷◌, Result,
  ok, Text, codes, All, Bool-cases, arith, if◌then◌else◌,
}
use mobydb_render_engine.Base.Errors.{Holds, Holds-bind, Holds-returned, >>=-eq-ok}
use mobydb_render_engine.LabVerify.Json.{
  Json, undefined, null, bool, num, non_finite, str, arr, obj, other, prop, is_truthy, nil, cons,
  get, is_undefined, to_primitive,
}
use mobydb_render_engine.App.{id_from_h3}
use mobydb_render_engine.App.Labels.{id_from_h3_lem}
use mobydb_render_engine.App.Mcp.{Script, or_default}
use mobydb_render_engine.App.Cells.{
  Feature, Page, Event, feature_id, payload_of, feature_of, features_of, run,
}
use mobydb_render_engine.App.Cells.Race.{IsInStep, run-IsInStep}

-- A value that `??` lets through.
abbrev pub IsGiven : Json → Type 0
IsGiven v = ¬ (v ≡ undefined) × ¬ (v ≡ null)

-- The id is that of a text, and 0 for any other value.
abbrev pub IsIdOf : Json → ℕ → Type 0
IsIdOf (str s) id = id ≡ id_from_h3 s
IsIdOf _ id = id ≡ 0

-- A 32-bit id, which follows from the cell, a load, and an operator that is not falsy but for the empty
-- text.
abbrev pub IsTyped : Feature → Type 0
IsTyped f =
    IsIdOf f.h3_cell f.id
    × (f.id < 2 ^ 32)
    × IsGiven f.load
    × ((is_truthy f.operator ≡ true) ⊎ (f.operator ≡ str []))

or_default-IsGiven : (v : Json) (t : Text) → IsGiven (or_default v (num t))
or_default-IsGiven undefined t = (λ e. ground arith, λ e. ground arith)
or_default-IsGiven null t = (λ e. ground arith, λ e. ground arith)
or_default-IsGiven (bool b) t = (λ e. ground arith, λ e. ground arith)
or_default-IsGiven (num u) t = (λ e. ground arith, λ e. ground arith)
or_default-IsGiven non_finite t = (λ e. ground arith, λ e. ground arith)
or_default-IsGiven (str s) t = (λ e. ground arith, λ e. ground arith)
or_default-IsGiven (arr vs) t = (λ e. ground arith, λ e. ground arith)
or_default-IsGiven (obj fs) t = (λ e. ground arith, λ e. ground arith)
or_default-IsGiven (other k) t = (λ e. ground arith, λ e. ground arith)

or_empty :
    (v : Json) → let w = if is_truthy v then v else str [] in (is_truthy w ≡ true) ⊎ (w ≡ str [])
or_empty v = elim (Bool-cases (is_truthy v)) [ inl e ↦ rw e (inl e) | inr e ↦ rw e (inr refl) ]

module _ (script : Script) (cell_to_boundary : Json → Result Json) (cell_min_zoom : ℕ)
    (is_viewport_error : Text → Bool) where
  zero_id : {id : ℕ} → ◌≡◌ {A = Result ℕ} (ok 0) (ok id) → (id ≡ 0) × (id < 2 ^ 32)
  zero_id h = ground arith

  feature_id-IsIdOf :
      (v : Json) {id : ℕ}
      → feature_id script cell_to_boundary cell_min_zoom is_viewport_error v ≡ ok id
      → IsIdOf v id × (id < 2 ^ 32)
  feature_id-IsIdOf (str s) {id = id} h =
      let known : id ≡ id_from_h3 s = ground arith in (known, rw known ((id_from_h3_lem s 0).0))
  feature_id-IsIdOf undefined h = ground arith
  feature_id-IsIdOf null h = ground arith
  feature_id-IsIdOf (bool b) h = zero_id h
  feature_id-IsIdOf (num u) h = zero_id h
  feature_id-IsIdOf non_finite h = zero_id h
  feature_id-IsIdOf (arr nil) h = zero_id h
  feature_id-IsIdOf (arr (cons v vs)) h = ground arith
  feature_id-IsIdOf (obj fs) h =
      let (_, _, e) = >>=-eq-ok (to_primitive (get (codes "length") fs)) _ h in
      no_units
        (not (is_undefined (get (codes "length") fs))
          && script.above_zero (get (codes "length") fs))
        e
    where
      no_units :
          (b : Bool) {id : ℕ}
          → ◌≡◌ {A = Result ℕ} (if b then throw (codes "TypeError") else ok 0) (ok id)
          → (id ≡ 0) × (id < 2 ^ 32)
      no_units true h = ground arith
      no_units false h = zero_id h
  feature_id-IsIdOf (other k) h = zero_id h

  feature_of-IsTyped :
      (c : Json)
      → Holds IsTyped (feature_of script cell_to_boundary cell_min_zoom is_viewport_error c)
  unfolding feature_of
  feature_of-IsTyped c = Holds-bind IsTyped (prop c (codes "h3_cell")) _ (λ cell e.
      Holds-bind IsTyped (cell_to_boundary cell) _ (λ boundary e.
        Holds-bind IsTyped (prop c (codes "payload")) _ (λ raw e.
          Holds-bind IsTyped
            (payload_of script cell_to_boundary cell_min_zoom is_viewport_error raw) _
            (λ payload e.
              Holds-bind IsTyped
                (feature_id script cell_to_boundary cell_min_zoom is_viewport_error cell) _
                (λ id known. Holds-bind IsTyped (prop c (codes "epoch_id")) _ (λ epoch e.
                  Holds-bind IsTyped (prop payload (codes "value")) _ (λ value e.
                    Holds-bind IsTyped (prop payload (codes "operator")) _ (λ operator e.
                      let (named, small) = feature_id-IsIdOf cell known in
                      (named, small, or_default-IsGiven value _, or_empty operator)))))))))

  features_of-IsTyped :
      (cs : List Json)
      → Holds (All IsTyped) (features_of script cell_to_boundary cell_min_zoom is_viewport_error cs)
  unfolding features_of
  features_of-IsTyped [] = tt
  features_of-IsTyped (c ∷ cs) =
      Holds-bind (All IsTyped)
        (feature_of script cell_to_boundary cell_min_zoom is_viewport_error c) _
        (λ f first.
          Holds-bind (All IsTyped)
            (features_of script cell_to_boundary cell_min_zoom is_viewport_error cs) _
            (λ fs rest. (
              Holds-returned IsTyped _ (feature_of-IsTyped c) first,
              Holds-returned (All IsTyped) _ (features_of-IsTyped cs) rest,
            )))

  -- Whatever the types of the values that the server sends, over any sequence of events, from a page in
  -- step: each feature on the map has an id below 2^32, the one that is computed from its cell if that is
  -- a text, and 0 otherwise; a load that is neither undefined nor null; and an operator that is not falsy,
  -- or the empty text.
  pub shown-IsTyped :
      (es : List Event) (page : Page)
      → IsInStep script cell_to_boundary cell_min_zoom is_viewport_error page
      → All IsTyped (run script cell_to_boundary cell_min_zoom is_viewport_error es page).shown
  shown-IsTyped es page h =
      let after = run script cell_to_boundary cell_min_zoom is_viewport_error es page in
      Holds-returned (All IsTyped) _ (features_of-IsTyped after.bus_cells)
        (run-IsInStep script cell_to_boundary cell_min_zoom is_viewport_error es page h)

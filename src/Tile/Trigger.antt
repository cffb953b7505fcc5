-- ===== src/Tile/Trigger.antt =====
-- injectTrigger of demo/lab_tile_preview.js, and the observer that calls it for every section of the page. `JSON.parse`
-- is a parameter.
use mobydb_render_engine.Base.{
  ◌≡◌, refl, ap, inl, inr, ◌⊎◌, Bool, true, false, not, ◌&&◌, Option, none, some, List, [], ◌∷◌,
  Result, ok, throw, Text, codes, if◌then◌else◌, if-both,
}
use mobydb_render_engine.LabVerify.Json.{Json, is_truthy}
use mobydb_render_engine.App.Mcp.{optional}

-- Where the button stands in the section.
pub data Place : Type 0 where
  before_details at_end : Place

-- A section of the audit panel, as far as the button is concerned.
pub record Section : Type 0 where
  -- `dataset.labRecord`.
  pub lab_record : Option Text
  pub has_details : Bool
  -- The button, with the record that it opens.
  pub trigger : Option (Place × Json)

-- `record.input.stac_item_id` is there.
abbrev pub has_item : Json → Bool
has_item r =
    let input = optional r (codes "input") in
    is_truthy r && is_truthy input && is_truthy (optional input (codes "stac_item_id"))

abbrev pub has_trigger : Section → Bool
has_trigger s = elim s.trigger [ none ↦ false | some t ↦ true ]

abbrev pub placed : Json → Section → Section
placed r s = record s { trigger = some (if s.has_details then before_details else at_end, r) }

unfoldable pub inject_trigger : Json → Section → Section
inject_trigger r s = if has_item r && not (has_trigger s) then placed r s else s

module _ (json_parse : Text → Result Json) where
  abbrev pub inject_parsed : Result Json → Section → Section
  inject_parsed (ok r) s = inject_trigger r s
  inject_parsed (throw e) s = s

  abbrev recovered : Option Text → Section → Section
  recovered none s = s
  recovered (some []) s = s
  recovered (some (c ∷ json)) s = inject_parsed (json_parse (c ∷ json)) s

  -- The callback of the observer on one section, and on all.
  unfoldable pub observe : Section → Section
  observe s = if has_trigger s then s else recovered s.lab_record s

  unfoldable pub observe_all : List Section → List Section
  observe_all [] = []
  observe_all (s ∷ ss) = observe s ∷ observe_all ss

  -- A section that has the button is passed over.
  triggered : (s : Section) → has_trigger s ≡ true → observe s ≡ s
  unfolding observe
  triggered s h = rw h refl

  -- A section is left as it is, or it gets the button.
  abbrev IsStep : Section → Section → Type 0
  IsStep s t = (t ≡ s) ⊎ (has_trigger t ≡ true)

  inject_trigger-IsStep : (r : Json) (s : Section) → IsStep s (inject_trigger r s)
  unfolding inject_trigger
  inject_trigger-IsStep r s =
      if-both (IsStep s) (has_item r && not (has_trigger s)) (inr refl) (inl refl)

  inject_parsed-IsStep : (m : Result Json) (s : Section) → IsStep s (inject_parsed m s)
  inject_parsed-IsStep (ok r) s = inject_trigger-IsStep r s
  inject_parsed-IsStep (throw e) s = inl refl

  recovered-IsStep : (o : Option Text) (s : Section) → IsStep s (recovered o s)
  recovered-IsStep none s = inl refl
  recovered-IsStep (some []) s = inl refl
  recovered-IsStep (some (c ∷ json)) s = inject_parsed-IsStep (json_parse (c ∷ json)) s

  observe-IsStep : (s : Section) → IsStep s (observe s)
  unfolding observe
  observe-IsStep s = if-both (IsStep s) (has_trigger s) (inl refl) (recovered-IsStep s.lab_record s)

  observe_twice : (s : Section) → observe (observe s) ≡ observe s
  observe_twice s = elim (observe-IsStep s) [
    | inl e ↦ ap observe e
    | inr t ↦ triggered (observe s) t
  ]

  -- Whatever JSON.parse does and whatever the sections hold: the observer, which its own insertions
  -- wake up again, changes nothing the second time.
  pub observe_all_idempotent : (ss : List Section) → observe_all (observe_all ss) ≡ observe_all ss
  unfolding observe_all
  observe_all_idempotent [] = refl
  observe_all_idempotent (s ∷ ss) = rw (observe_twice s, observe_all_idempotent ss) refl

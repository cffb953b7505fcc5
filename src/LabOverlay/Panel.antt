-- ===== src/LabOverlay/Panel.antt =====
-- The lab section of demo/lab_overlay.js: the record that it chooses, the counter that it hides, and a
-- verification that ends late.
use mathlib.Core.Path.{subst}
use mobydb_render_engine.Base.{
  ℕ, zero, suc, ◌≡◌, refl, sym, inl, inr, Bool, true, false, Option, none, some, List, [], ◌∷◌,
  Result, ok, Text, codes, All, Bool-cases,
}
use mobydb_render_engine.LabOverlay.{
  LabRecord, verdict, Counter, toggle_cost_counter, lookup, Overlay, audit_open, verified, attach,
  find_verify, lab_cell, latest, show_records, on_event, run,
}

abbrev pub hide_times : ℕ → Counter → Counter
hide_times zero c = c
hide_times (suc n) c = toggle_cost_counter false (hide_times n c)

hide_again :
    (c : Counter) {d : Text}
    → c.restore ≡ some d
    → ((toggle_cost_counter false c).display ≡ codes "none")
      × ((toggle_cost_counter false c).restore ≡ some d)
unfolding toggle_cost_counter
hide_again c h = rw h (refl, refl)

show_again :
    (c : Counter) {d : Text}
    → c.restore ≡ some d
    → ((toggle_cost_counter true c).display ≡ d) × ((toggle_cost_counter true c).restore ≡ none)
unfolding toggle_cost_counter
show_again c h = rw h (refl, refl)

hidden_after :
    (n : ℕ) (c : Counter)
    → c.restore ≡ none
    → ((hide_times (suc n) c).display ≡ codes "none")
      × ((hide_times (suc n) c).restore ≡ some c.display)
unfolding toggle_cost_counter
hidden_after zero c h = rw h (refl, refl)
hidden_after (suc n) c h = hide_again (hide_times (suc n) c) (hidden_after n c h).1

-- However often the counter is hidden, at least once, it is not displayed, and one show gives it the
-- display that it had before the first.
pub toggle_cost_counter_lem :
    (n : ℕ) (c : Counter)
    → c.restore ≡ none
    → ((hide_times (suc n) c).display ≡ codes "none")
      × ((toggle_cost_counter true (hide_times (suc n) c)).display ≡ c.display)
      × ((toggle_cost_counter true (hide_times (suc n) c)).restore ≡ none)
toggle_cost_counter_lem n c h =
    let (d, r) = hidden_after n c h in
    let (shown, cleared) = show_again (hide_times (suc n) c) r in (d, shown, cleared)

-- No record of the list is after the one.
abbrev pub IsLatest : (Text → Text → Bool) → LabRecord → List LabRecord → Type 0
IsLatest is_after x records = All (λ s. is_after s.signed_at x.signed_at ≡ false) records

module _ (h3 : Option (Text → Result Text)) (is_after : Text → Text → Bool)
    (asym : (s t : Text) → is_after s t ≡ true → is_after t s ≡ false)
    (not_after_trans : (s t u : Text)
      → is_after s t ≡ false
      → is_after t u ≡ false
      → is_after s u ≡ false) where
  -- When `localeCompare` is an order up to ties: no record of a list is after the chosen one by its
  -- `signed_at`.
  pub latest_lem :
      (r : LabRecord) (rest : List LabRecord)
      → IsLatest is_after (latest h3 is_after r rest) (r ∷ rest)
  latest_lem r [] = elim (Bool-cases (is_after r.signed_at r.signed_at)) [
    | inl e ↦ (asym r.signed_at r.signed_at e, tt)
    | inr e ↦ (e, tt)
  ]
  latest_lem r (s ∷ rest) = elim (Bool-cases (is_after s.signed_at r.signed_at)) [
    | inl e ↦
        let chosen : latest h3 is_after r (s ∷ rest) ≡ latest h3 is_after s rest = rw e refl in
        let (head, tail) = latest_lem s rest in
        let first =
          not_after_trans r.signed_at s.signed_at _ (asym s.signed_at r.signed_at e) head in
        subst (λ x. IsLatest is_after x (r ∷ s ∷ rest)) (sym chosen) (first, (head, tail))
    | inr e ↦
        let chosen : latest h3 is_after r (s ∷ rest) ≡ latest h3 is_after r rest = rw e refl in
        let (head, tail) = latest_lem r rest in
        let second = not_after_trans s.signed_at r.signed_at _ e head in
        subst (λ x. IsLatest is_after x (r ∷ s ∷ rest)) (sym chosen) (head, (second, tail))
  ]

module _ (h3 : Option (Text → Result Text)) (is_after : Text → Text → Bool) where
  -- While a verification is awaited, a click on a cell whose cached response has no records shows that
  -- it has none; the verification then ends and puts the verdict on its own, older cell there instead.
  pub late_verdict :
      (clicked cell : Text) (q : ℕ) (r : LabRecord) (b : Bool) (o : Overlay)
      → lookup (lab_cell h3 clicked) o.cache ≡ some []
      → find_verify q o.verifying ≡ some (cell, r)
      → (run h3 is_after (audit_open clicked ∷ verified q (ok b) ∷ []) o).section ≡ verdict cell r b
  unfolding run on_event show_records attach
  late_verdict clicked cell q r b o h k = rw (h, k) refl

-- ===== src/Twin/Timing.antt =====
-- The overlay of demo/twin_overlay.js: its status colours, its timer, and a reply that comes late.
use mobydb_render_engine.Base.{
  ℕ, ◌≡◌, refl, sym, ap, ◌∙◌, ◌↔◌, ◌⊎◌, inl, inr, Bool, true, false, Option, none, some, List, [],
  ◌∷◌, Result, ok, throw, Text, ltb, if◌then◌else◌, arith, Bool-cases,
}
use mobydb_render_engine.LabVerify.Json.{Json}
use mobydb_render_engine.Twin.{
  H3, rollup_res8, roll, Quantity, status_ok, critical, no_anomaly, any_above, classify_cell,
  Overlay, Latest, Event, click, tick, api_start, api_stop, api_refresh, settled, refresh_overlay,
  draw, refresh_done, start_overlay, stop_overlay, is_pending, handle, run,
}

-- The interval runs exactly while the overlay is active.
abbrev pub IsTimed : Overlay → Type 0
IsTimed o = o.has_timer ≡ o.overlay_active

refresh_overlay-active :
    (o : Overlay)
    → ((refresh_overlay o).overlay_active ≡ o.overlay_active)
      × ((refresh_overlay o).has_timer ≡ o.has_timer)
      × ((refresh_overlay o).button_active ≡ o.button_active)
unfolding refresh_overlay
refresh_overlay-active o = elim (Bool-cases o.overlay_active) [
  | inl e ↦ rw e (refl, refl, refl)
  | inr e ↦ rw e (refl, refl, refl)
]

refresh_overlay-IsTimed : (o : Overlay) → IsTimed o → IsTimed (refresh_overlay o)
refresh_overlay-IsTimed o h = let (a, t, _) = refresh_overlay-active o in t ∙ h ∙ sym a

start_overlay-IsTimed : (o : Overlay) → IsTimed (start_overlay o)
unfolding start_overlay
start_overlay-IsTimed o =
    let (a, _, _) = refresh_overlay-active (record o { overlay_active = true }) in sym a

draw-IsTimed :
    (cells : Option (List Json)) (total : Option Text) (o : Overlay)
    → IsTimed o
    → IsTimed (draw cells total o)
draw-IsTimed none total o h = h
draw-IsTimed (some cells) total o h = h

refresh_done-IsTimed : (r : Result Latest) (o : Overlay) → IsTimed o → IsTimed (refresh_done r o)
unfolding refresh_done
refresh_done-IsTimed (throw e) o h = h
refresh_done-IsTimed (ok d) o h = draw-IsTimed d.cells d.total o h

either-IsTimed : (b : Bool) (x y : Overlay) → IsTimed x → IsTimed y → IsTimed (if b then x else y)
either-IsTimed true x y h k = h
either-IsTimed false x y h k = k

handle-IsTimed : (e : Event) (o : Overlay) → IsTimed o → IsTimed (handle e o)
unfolding handle stop_overlay
handle-IsTimed click o h =
    either-IsTimed o.button_active _ _ refl
      (start_overlay-IsTimed (record o { button_active = true }))
handle-IsTimed tick o h = either-IsTimed o.has_timer _ _ (refresh_overlay-IsTimed o h) h
handle-IsTimed api_start o h = start_overlay-IsTimed o
handle-IsTimed api_stop o h = refl
handle-IsTimed api_refresh o h = refresh_overlay-IsTimed o h
handle-IsTimed (settled call r) o h =
    either-IsTimed (is_pending call o) _ _ (refresh_done-IsTimed r _ h) h

pub run-IsTimed : (es : List Event) (o : Overlay) → IsTimed o → IsTimed (run es o)
unfolding run
run-IsTimed [] o h = h
run-IsTimed (e ∷ es) o h = run-IsTimed es (handle e o) (handle-IsTimed e o h)

-- A reply with cells that is awaited when the overlay is stopped draws its layer and count all the same, and the
-- overlay stays inactive.
pub late_reply_draws :
    (call : ℕ) (cells : List Json) (total : Option Text) (o : Overlay)
    → is_pending call o ≡ true
    → let after =
        run (api_stop ∷ settled call (ok (record { cells = some cells; total = total })) ∷ []) o in
      (after.layer ≡ some cells) × (after.count ≡ total) × (after.overlay_active ≡ false)
unfolding run handle stop_overlay refresh_done
late_reply_draws call cells total o h = rw h (refl, refl, refl)

-- Without an anomaly: the status is critical exactly when a quantity is above its critical
-- threshold, and ok exactly when none is above either of its thresholds.
pub classify_cell_lem :
    (above : Quantity → ℕ → Bool)
    → ((classify_cell above no_anomaly ≡ critical) ↔ (any_above above 1150 60 60000 ≡ true))
      × ((classify_cell above no_anomaly ≡ status_ok)
          ↔ ((any_above above 1150 60 60000 ≡ false) × (any_above above 1000 40 55000 ≡ false)))
unfolding classify_cell
classify_cell_lem above = (ground arith, ground arith)

roll_fixed : (h3 : H3) (s : Text) → h3.get_resolution s ≡ ok 8 → roll h3 s ≡ s
roll_fixed h3 s e = rw e refl

roll_either :
    (h3 : H3) (s : Text) (res : Result ℕ) (parent : Result Text)
    → h3.get_resolution s ≡ res
    → h3.parent_at_8 s ≡ parent
    → (roll h3 s ≡ s) ⊎ ((p : Text) × (h3.parent_at_8 s ≡ ok p) × (roll h3 s ≡ p))
roll_either h3 s (throw e) parent p q = inl (rw p refl)
roll_either h3 s (ok n) (throw e) p q = elim (Bool-cases (ltb 8 n)) [
  | inl b ↦ inl (rw (p, b, q) refl)
  | inr b ↦ inl (rw (p, b) refl)
]
roll_either h3 s (ok n) (ok r) p q = elim (Bool-cases (ltb 8 n)) [
  | inl b ↦ inr (r, q, rw (p, b, q) refl)
  | inr b ↦ inl (rw (p, b) refl)
]

abbrev roll_text : H3 → Text → Text
roll_text h3 [] = []
roll_text h3 (c ∷ s) = roll h3 (c ∷ s)

Text-cases : (s : Text) → (s ≡ []) ⊎ ((c : ℕ) × (t : Text) × (s ≡ c ∷ t))
Text-cases [] = inl refl
Text-cases (c ∷ t) = inr (c, t, refl)

roll_idempotent :
    (h3 : H3) (s : Text)
    → ((p : Text) → h3.parent_at_8 s ≡ ok p → h3.get_resolution p ≡ ok 8)
    → roll h3 (roll h3 s) ≡ roll h3 s
roll_idempotent h3 s law =
    elim (roll_either h3 s (h3.get_resolution s) (h3.parent_at_8 s) refl refl) [
      | inl e ↦ ap (roll h3) e
      | inr (p, q, e) ↦ ap (roll h3) e ∙ roll_fixed h3 p (law p q) ∙ sym e
    ]

nonempty_roll : (h3 : H3) (s : Text) → rollup_res8 (some h3) s ≡ roll_text h3 s
unfolding rollup_res8
nonempty_roll h3 [] = refl
nonempty_roll h3 (c ∷ s) = refl

roll_text_idempotent :
    (h3 : H3) (s : Text)
    → ((p : Text) → h3.parent_at_8 s ≡ ok p → h3.get_resolution p ≡ ok 8)
    → roll_text h3 (roll_text h3 s) ≡ roll_text h3 s
roll_text_idempotent h3 [] law = refl
roll_text_idempotent h3 (c ∷ s) law = elim (Text-cases (roll h3 (c ∷ s))) [
  | inl e ↦ rw e refl
  | inr (d, t, e) ↦ rw e (rw (← e) (roll_idempotent h3 (c ∷ s) law))
]

-- With a library whose `cellToParent(_, 8)` returns cells of resolution 8: rolling up twice is rolling
-- up once.
pub rollup_res8_idempotent :
    (h3 : H3) (s : Text)
    → ((p : Text) → h3.parent_at_8 s ≡ ok p → h3.get_resolution p ≡ ok 8)
    → rollup_res8 (some h3) (rollup_res8 (some h3) s) ≡ rollup_res8 (some h3) s
rollup_res8_idempotent h3 s law =
    rw (nonempty_roll h3 s, nonempty_roll h3 (roll_text h3 s)) (roll_text_idempotent h3 s law)

-- ===== src/Liveness/Flash/Frames.antt =====
-- The flash of demo/liveness_indicators.js over sequences of flashes and frames: it ends.
use mobydb_render_engine.Base.{
  ℕ, ◌+◌, ◌-◌, ◌≤◌, ◌≡◌, refl, ap, ◌∙◌, Option, List, [], ◌∷◌, ◌++◌, Text, ltb, All, if-both,
  if-cases, arith,
}
use mobydb_render_engine.Liveness.Flash.{
  FlashFeature, Flash, FlashEvent, flash_cells, frame, aged, step, steps, flash_features, on_event,
  run,
}

-- Something is shown only while an animation runs.
abbrev pub Runs : List FlashFeature → List ℕ → Type 0
Runs [] starts = Unit
Runs (f ∷ fs) [] = ⊥
Runs (f ∷ fs) (s ∷ starts) = Unit

abbrev pub IsAnimated : Flash → Type 0
IsAnimated s = Runs s.features s.running

Runs-append :
    (fs : List FlashFeature) (starts : List ℕ) (start : ℕ) → Runs fs (starts ++ start ∷ [])
Runs-append [] starts start = tt
Runs-append (f ∷ fs) [] start = tt
Runs-append (f ∷ fs) (s ∷ starts) start = tt

step-IsAnimated : (now start : ℕ) (s : Flash) → IsAnimated (step now start s)
step-IsAnimated now start s =
    if-both IsAnimated (ltb (now - start) 700)
      (Runs-append (aged (now - start) s.features) s.running start) tt

steps-IsAnimated :
    (now : ℕ) (starts : List ℕ) (s : Flash) → IsAnimated s → IsAnimated (steps now starts s)
steps-IsAnimated now [] s h = h
steps-IsAnimated now (start ∷ starts) s h =
    steps-IsAnimated now starts (step now start s) (step-IsAnimated now start s)

frame-IsAnimated :
    (now : ℕ) (starts : List ℕ) (s : Flash)
    → Runs s.features starts
    → IsAnimated (steps now starts (record s { running = [] }))
frame-IsAnimated now [] s h = h
frame-IsAnimated now (start ∷ starts) s h =
    let cleared : Flash = record s { running = [] } in
    steps-IsAnimated now starts (step now start cleared) (step-IsAnimated now start cleared)

abbrev pub nothing : Flash
nothing = record { features = []; running = [] }

-- 700 ms after its start an animation ends.
expired :
    (now start : ℕ) (s : Flash)
    → start + 700 ≤ now
    → (step now start s) ≡ record { features = []; running = s.running }
expired now start s h =
    if-cases (λ (t : Flash). t ≡ record { features = []; running = s.running })
      (ltb (now - start) 700) (λ e. absurd (ground arith)) (λ e. refl)

All-expired :
    (now : ℕ) (starts : List ℕ)
    → All (λ start. start + 700 ≤ now) starts
    → steps now starts nothing ≡ nothing
All-expired now [] h = refl
All-expired now (start ∷ starts) (h, hs) =
    ap (steps now starts) (expired now start nothing h) ∙ All-expired now starts hs

last_frame :
    (now : ℕ) (fs : List FlashFeature) (starts : List ℕ)
    → Runs fs starts
    → All (λ start. start + 700 ≤ now) starts
    → steps now starts (record { features = fs; running = [] }) ≡ nothing
last_frame now [] [] h k = refl
last_frame now (f ∷ fs) [] h k = elim h [ ]
last_frame now fs (start ∷ starts) h (k, ks) =
    ap (steps now starts) (expired now start (record { features = fs; running = [] }) k)
    ∙ All-expired now starts ks

module _ (cell_to_boundary : Text → Option (List Text)) where
  on_event-IsAnimated :
      (e : FlashEvent) (s : Flash) → IsAnimated s → IsAnimated (on_event cell_to_boundary e s)
  unfolding on_event
  on_event-IsAnimated (flash_cells now h3s) s h =
      Runs-append (flash_features cell_to_boundary h3s) s.running now
  on_event-IsAnimated (frame now) s h = frame-IsAnimated now s.running s h

  run-IsAnimated :
      (es : List FlashEvent) (s : Flash) → IsAnimated s → IsAnimated (run cell_to_boundary es s)
  unfolding run
  run-IsAnimated [] s h = h
  run-IsAnimated (e ∷ es) s h =
      run-IsAnimated es (on_event cell_to_boundary e s) (on_event-IsAnimated e s h)

  -- Whatever the h3 library does, after any sequence of flashes and frames from an idle map: a frame
  -- that comes 700 ms or more after the start of every animation that runs leaves no cell shown and no
  -- animation running.
  pub flash_ends :
      (es : List FlashEvent) (now : ℕ)
      → All (λ start. start + 700 ≤ now) (run cell_to_boundary es nothing).running
      → on_event cell_to_boundary (frame now) (run cell_to_boundary es nothing) ≡ nothing
  unfolding on_event
  flash_ends es now h =
      let s = run cell_to_boundary es nothing in
      last_frame now s.features s.running (run-IsAnimated es nothing tt) h

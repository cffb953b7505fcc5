-- ===== src/Liveness/Controller/Toast.antt =====
-- The timers of demo/liveness_indicators.js over sequences of events.
use mobydb_render_engine.Base.{
  ℕ, ◌+◌, ◌≤◌, ◌<◌, ◌≡◌, refl, sym, ap, ◌∙◌, Bool, true, false, Option, none, some, List, [], ◌∷◌,
  Text, take, leb, ◌==◌, if-both, if-cases, arith,
}
use mobydb_render_engine.Liveness.{on_epoch}
use mobydb_render_engine.Liveness.Controller.{
  Controller, MapOf, no_map, map_with, H3, StripEvent, cells, epoch, tick, second, timers, toast_ms,
  present, flashed, flash_for, announced, is_due, flash_timeout, toast_timeout, on_event, run,
}

-- A light is on exactly while its timer runs.
abbrev pub Agrees : Bool → Option ℕ → Type 0
Agrees true none = ⊥
Agrees true (some due) = Unit
Agrees false none = Unit
Agrees false (some due) = ⊥

abbrev pub IsTimed : Controller → Type 0
IsTimed c = Agrees c.is_flashing c.flash_timer × Agrees c.toast_on c.toast_timer

module _ (fmt_int : ℕ → Text) (api_base : Text) where
  flash_for-IsTimed :
      (now : ℕ) (m : MapOf) (h3 : H3) (cs : List (Option Text)) (c : Controller)
      → IsTimed c
      → IsTimed (flash_for now m h3 cs c)
  flash_for-IsTimed now no_map h3 cs c h = h
  flash_for-IsTimed now (map_with b) h3 cs c h = flashed-IsTimed (take 8 (present cs)) h3
    where
      flashed-IsTimed : (hs : List Text) (h3 : H3) → IsTimed (flashed now b h3 hs c)
      flashed-IsTimed [] h3 = h
      flashed-IsTimed (x ∷ hs) none = (tt, h.1)
      flashed-IsTimed (x ∷ hs) (some f) = (tt, h.1)

  announced-IsTimed :
      (now : ℕ) (o : Option ℕ) (c : Controller) → IsTimed c → IsTimed (announced now o c)
  announced-IsTimed now none c h = h
  announced-IsTimed now (some e) c h = (h.0, tt)

  timeout-IsTimed :
      (now : ℕ) (c : Controller) → IsTimed c → IsTimed (toast_timeout now (flash_timeout now c))
  timeout-IsTimed now c h =
      let flash : IsTimed (flash_timeout now c) =
        if-both IsTimed (is_due now c.flash_timer) (tt, h.1) h in
      if-both IsTimed (is_due now (flash_timeout now c).toast_timer) (flash.0, tt) flash

  on_event-IsTimed :
      (e : StripEvent) (c : Controller) → IsTimed c → IsTimed (on_event fmt_int api_base e c)
  unfolding on_event
  on_event-IsTimed (cells now m h3 cs) c h = flash_for-IsTimed now m h3 cs _ h
  on_event-IsTimed (epoch now e) c h = announced-IsTimed now (on_epoch e c.prev_epoch).1 c h
  on_event-IsTimed (tick now fetch shared) c h = h
  on_event-IsTimed (second now shared) c h = h
  on_event-IsTimed (timers now) c h = timeout-IsTimed now c h

  -- In every order of events, the strip flashes exactly while its timer runs, and the toast is on exactly
  -- while its timer runs.
  pub run-IsTimed :
      (es : List StripEvent) (c : Controller) → IsTimed c → IsTimed (run fmt_int api_base es c)
  unfolding run
  run-IsTimed [] c h = h
  run-IsTimed (e ∷ es) c h = run-IsTimed es (on_event fmt_int api_base e c) (on_event-IsTimed e c h)

-- The time of an event.
abbrev pub time_of : StripEvent → ℕ
time_of (cells now m h3 cs) = now
time_of (epoch now e) = now
time_of (tick now fetch shared) = now
time_of (second now shared) = now
time_of (timers now) = now

-- Every event happens in the `toast_ms` after the time.
abbrev pub Within : ℕ → List StripEvent → Type 0
Within t [] = Unit
Within t (e ∷ es) = (t ≤ time_of e) × (time_of e < t + toast_ms) × Within t es

-- The toast is on, and no timer ends it in the `toast_ms` after the time.
abbrev Stays : ℕ → Controller → Type 0
Stays t c = (c.toast_on ≡ true) × ((due : ℕ) × (c.toast_timer ≡ some due) × (t + toast_ms ≤ due))

module _ (fmt_int : ℕ → Text) (api_base : Text) (t : ℕ) where
  flash_for-Stays :
      (now : ℕ) (m : MapOf) (h3 : H3) (cs : List (Option Text)) (c : Controller)
      → Stays t c
      → Stays t (flash_for now m h3 cs c)
  flash_for-Stays now no_map h3 cs c h = h
  flash_for-Stays now (map_with b) h3 cs c h = go (take 8 (present cs)) h3
    where
      go : (hs : List Text) (h3 : H3) → Stays t (flashed now b h3 hs c)
      go [] h3 = h
      go (x ∷ hs) none = h
      go (x ∷ hs) (some f) = h

  announced-Stays :
      (now : ℕ) (o : Option ℕ) (c : Controller) → t ≤ now → Stays t c → Stays t (announced now o c)
  announced-Stays now none c le h = h
  announced-Stays now (some e) c le h = (refl, (now + toast_ms, refl, omega arith))

  timers-Stays :
      (now : ℕ) (c : Controller)
      → now < t + toast_ms
      → Stays t c
      → Stays t (toast_timeout now (flash_timeout now c))
  timers-Stays now c lt h =
      let flash : Stays t (flash_timeout now c) =
        if-both (Stays t) (is_due now c.flash_timer) h h in
      if-cases (Stays t) (is_due now (flash_timeout now c).toast_timer)
        (λ q.
          let over : leb flash.1.0 now ≡ true = sym (ap (is_due now) flash.1.1) ∙ q in
          absurd (ground (arith, flash.1.2)))
        (λ q. flash)

  on_event-Stays :
      (e : StripEvent) (c : Controller)
      → t ≤ time_of e
      → time_of e < t + toast_ms
      → Stays t c
      → Stays t (on_event fmt_int api_base e c)
  unfolding on_event
  on_event-Stays (cells now m h3 cs) c le lt h = flash_for-Stays now m h3 cs _ h
  on_event-Stays (epoch now e) c le lt h = announced-Stays now (on_epoch e c.prev_epoch).1 c le h
  on_event-Stays (tick now fetch shared) c le lt h = h
  on_event-Stays (second now shared) c le lt h = h
  on_event-Stays (timers now) c le lt h = timers-Stays now c lt h

  run-Stays :
      (es : List StripEvent) (c : Controller)
      → Within t es
      → Stays t c
      → Stays t (run fmt_int api_base es c)
  unfolding run
  run-Stays [] c w h = h
  run-Stays (e ∷ es) c (le, lt, w) h =
      run-Stays es (on_event fmt_int api_base e c) w (on_event-Stays e c le lt h)

  starts-Stays : (e : ℕ) (o : Option ℕ) (c : Controller) → o ≡ some e → Stays t (announced t o c)
  starts-Stays e none c h = ground arith
  starts-Stays e (some e') c h = (refl, (t + toast_ms, refl, omega arith))

  on_epoch_changed : (e prev : ℕ) → (e == prev) ≡ false → (on_epoch e (some prev)).1 ≡ some e
  on_epoch_changed e prev d = rw d refl

  -- After an epoch event at a time, with an epoch that differs from the one remembered, the toast is on
  -- after every sequence of events in the `TOAST_MS` that follow that time.
  pub toast_stays :
      (e prev : ℕ) (es : List StripEvent) (c : Controller)
      → c.prev_epoch ≡ some prev
      → (e == prev) ≡ false
      → Within t es
      → (run fmt_int api_base (epoch t e ∷ es) c).toast_on ≡ true
  unfolding run on_event
  toast_stays e prev es c p d w =
      (run-Stays es (on_event fmt_int api_base (epoch t e) c) w (
        starts-Stays e (on_epoch e c.prev_epoch).1 c
          (ap (λ o. (on_epoch e o).1) p ∙ on_epoch_changed e prev d))).0

-- ===== src/Wiring/Counts.antt =====
-- What the strip of demo/liveness_indicators.js says of the cells that demo/app.js draws.
use mobydb_render_engine.Base.{
  ℕ, ◌≡◌, refl, sym, ap, ◌∙◌, Bool, false, Option, none, some, List, [], ◌∷◌, map, Result, ok, Text,
  length, length-map, take, if◌then◌else◌, if-both, if-cases, arith,
}
use mobydb_render_engine.Base.Errors.{>>=-eq-ok}
use mobydb_render_engine.LabVerify.Json.{Json}
use mobydb_render_engine.App.Mcp.{Script}
use mobydb_render_engine.App.Cells.{
  Page, Event, Feature, refresh, reply, failed, slide, feature_of, features_of, handle,
  refresh_cells,
}
use mobydb_render_engine.Liveness.Controller.{
  Controller, MapOf, no_map, map_with, H3, Strip, present, flashed, flash_for, announced, rendered,
  flash_timeout, toast_timeout, is_due, on_event,
}
use mobydb_render_engine.Liveness.{Log, on_epoch}
use mobydb_render_engine.Liveness.Window.{event_count}
use mobydb_render_engine.App.Cells.Race.{IsInStep, handle-IsInStep}
use mobydb_render_engine.Wiring
use mobydb_render_engine.Wiring.{
  Message, cells_message, epoch_message, Desk, DeskEvent, page_event, slider_change, heartbeat,
  render_timer, strip_timers, h3_of, deliver, deliver_all, syncs, handled, messages, page_does, run,
}

flash_for-log :
    (now : ℕ) (m : MapOf) (h3 : H3) (cs : List (Option Text)) (c : Controller)
    → (flash_for now m h3 cs c).log ≡ c.log
flash_for-log now no_map h3 cs c = refl
flash_for-log now (map_with b) h3 cs c = flashed-log (take 8 (present cs)) h3
  where
    flashed-log : (hs : List Text) (h3 : H3) → (flashed now b h3 hs c).log ≡ c.log
    flashed-log [] h3 = refl
    flashed-log (x ∷ hs) none = refl
    flashed-log (x ∷ hs) (some f) = refl

timeouts-log : (now : ℕ) (c : Controller) → (toast_timeout now (flash_timeout now c)).log ≡ c.log
timeouts-log now c =
    let Same : Controller → Type 0 = λ c'. c'.log ≡ c.log in
    let flash : Same (flash_timeout now c) = if-both Same (is_due now c.flash_timer) refl refl in
    if-both Same (is_due now (flash_timeout now c).toast_timer) flash flash

module _ (script : Script) (cell_to_boundary : Json → Result Json) (cell_min_zoom : ℕ)
    (is_viewport_error : Text → Bool) where
  length-features_of :
      (cs : List Json) {fs : List Feature}
      → features_of script cell_to_boundary cell_min_zoom is_viewport_error cs ≡ ok fs
      → length fs ≡ length cs
  unfolding features_of
  length-features_of [] h = ground arith
  length-features_of (c ∷ cs) h =
      let (f, e1, h1) =
        >>=-eq-ok (feature_of script cell_to_boundary cell_min_zoom is_viewport_error c) _ h in
      let (fs, e2, h2) =
        >>=-eq-ok (features_of script cell_to_boundary cell_min_zoom is_viewport_error cs) _ h1 in
      ground (arith, length-features_of cs e2)

module _ (script : Script) (cell_to_boundary : Json → Result Json) (cell_min_zoom : ℕ)
    (is_viewport_error : Text → Bool) (fmt_int : ℕ → Text) (api_base : Text) (map_of : MapOf)
    (h3 : H3) where
  cells_counted :
      (now : ℕ) (cs : List Json) (c : Controller)
      → (deliver script cell_to_boundary cell_min_zoom is_viewport_error fmt_int api_base map_of h3
          now
          (cells_message cs)
          c).log.prev_cell_count
        ≡ length cs
  unfolding on_event
  cells_counted now cs c =
      ap (λ (l : Log). l.prev_cell_count) (flash_for-log now map_of h3 (map h3_of cs) _)
      ∙ event_count now (length (map h3_of cs)) c.log
      ∙ length-map h3_of cs

  epoch_counted :
      (now e : ℕ) (c : Controller)
      → (deliver script cell_to_boundary cell_min_zoom is_viewport_error fmt_int api_base map_of h3
          now
          (epoch_message e)
          c).log.prev_cell_count
        ≡ c.log.prev_cell_count
  unfolding on_event
  epoch_counted now e c = by_toast (on_epoch e c.prev_epoch).1
    where
      by_toast : (o : Option ℕ) → (announced now o c).log.prev_cell_count ≡ c.log.prev_cell_count
      by_toast none = refl
      by_toast (some t) = refl

  -- A handler that does not send the cells does not change them.
  unsent :
      (e : Event) (page : Page)
      → syncs script cell_to_boundary cell_min_zoom is_viewport_error fmt_int api_base map_of h3 e
          page
        ≡ false
      → (handled script cell_to_boundary cell_min_zoom is_viewport_error fmt_int api_base map_of h3
          e page).bus_cells
        ≡ page.bus_cells
  unfolding syncs handle refresh_cells
  unsent (refresh zoom) page h = ground arith
  unsent (reply q r) page h = rw h refl
  unsent (failed q m) page h = rw h refl
  unsent (slide e) page h = refl

  -- The page is in step with its map, and the strip counts what the page holds.
  abbrev pub IsCounted : Desk → Type 0
  IsCounted d =
      IsInStep script cell_to_boundary cell_min_zoom is_viewport_error d.page
      × (d.strip.log.prev_cell_count ≡ length d.page.bus_cells)

  page_does-IsCounted :
      (now : ℕ) (e : Event) (d : Desk)
      → IsCounted d
      → IsCounted (
          page_does script cell_to_boundary cell_min_zoom is_viewport_error fmt_int api_base map_of
            h3 now e d)
  unfolding messages
  page_does-IsCounted now e d (s, n) =
      (handle-IsInStep script cell_to_boundary cell_min_zoom is_viewport_error e d.page s, counted)
    where
      now_held : Page
      now_held =
          handled script cell_to_boundary cell_min_zoom is_viewport_error fmt_int api_base map_of h3
            e d.page

      is_sent : Bool
      is_sent =
          syncs script cell_to_boundary cell_min_zoom is_viewport_error fmt_int api_base map_of h3 e
            d.page

      counted :
          (deliver_all script cell_to_boundary cell_min_zoom is_viewport_error fmt_int api_base
            map_of h3 now
            (if is_sent then cells_message now_held.bus_cells ∷ [] else [])
            d.strip).log.prev_cell_count
          ≡ length now_held.bus_cells
      counted =
          if-cases
            (λ ms.
              (deliver_all script cell_to_boundary cell_min_zoom is_viewport_error fmt_int api_base
                map_of h3 now ms d.strip).log.prev_cell_count
              ≡ length now_held.bus_cells)
            is_sent (λ yes_sent. cells_counted now now_held.bus_cells d.strip)
            (λ unsent'. n ∙ ap length (sym (unsent e d.page unsent')))

  on_event-IsCounted :
      (e : DeskEvent) (d : Desk)
      → IsCounted d
      → IsCounted (
          Wiring.on_event script cell_to_boundary cell_min_zoom is_viewport_error fmt_int api_base
            map_of h3 e d)
  unfolding Wiring.on_event on_event
  on_event-IsCounted (page_event now e) d h = page_does-IsCounted now e d h
  on_event-IsCounted (slider_change now zoom) d (s, n) =
      page_does-IsCounted now (refresh zoom) _
        (s, epoch_counted now d.page.current_epoch d.strip ∙ n)
  on_event-IsCounted (heartbeat now fetch) d h = h
  on_event-IsCounted (render_timer now) d h = h
  on_event-IsCounted (strip_timers now) d h =
      (h.0, ap (λ (l : Log). l.prev_cell_count) (timeouts-log now d.strip) ∙ h.1)

  run-IsCounted :
      (es : List DeskEvent) (d : Desk)
      → IsCounted d
      → IsCounted (
          run script cell_to_boundary cell_min_zoom is_viewport_error fmt_int api_base map_of h3 es
            d)
  unfolding run
  run-IsCounted [] d h = h
  run-IsCounted (e ∷ es) d h = run-IsCounted es _ (on_event-IsCounted e d h)

  -- Over any sequence of events of the map, the queries, the slider, the heartbeat and the timers, from a
  -- page in step whose strip counts its cells: what the next heartbeat prints under cells loaded is the
  -- number of features on the map, and the count that the strip starts from at the next `cells` event is
  -- that number too.
  pub strip_counts_map :
      (es : List DeskEvent) (d : Desk) (now : ℕ) (fetch : Text → Result (Bool × ℕ))
      → IsCounted d
      → let before =
          run script cell_to_boundary cell_min_zoom is_viewport_error fmt_int api_base map_of h3 es
            d in
        let after =
          Wiring.on_event script cell_to_boundary cell_min_zoom is_viewport_error fmt_int api_base
            map_of h3
            (heartbeat now fetch)
            before in
        ((s : Strip) × (after.strip.strip ≡ some s) × (s.total ≡ fmt_int (length after.page.shown)))
        × (after.strip.log.prev_cell_count ≡ length after.page.shown)
  unfolding Wiring.on_event on_event rendered
  strip_counts_map es d now fetch h =
      let before =
        run script cell_to_boundary cell_min_zoom is_viewport_error fmt_int api_base map_of h3 es
          d in
      let (s, n) = run-IsCounted es d h in
      let same =
        length-features_of script cell_to_boundary cell_min_zoom is_viewport_error
          before.page.bus_cells s in
      ((_, refl, ap fmt_int (sym same)), n ∙ sym same)

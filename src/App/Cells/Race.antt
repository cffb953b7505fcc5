-- ===== src/App/Cells/Race.antt =====
-- Which answers `refreshCells` of demo/app.js shows, over every interleaving of events.
use mobydb_render_engine.Base.{
  ℕ, suc, ◌≡◌, refl, ◌⊎◌, inl, inr, Bool, true, false, Option, none, some, List, [], ◌∷◌, Result,
  ok, throw, Text, leb, ◌==◌, ==_iff, arith, Bool-cases,
}
use mobydb_render_engine.LabVerify.Json.{Json}
use mobydb_render_engine.App.Mcp.{Script, HttpReply, read_reply}
use mobydb_render_engine.App.Cells.{
  Feature, zoom_in, Page, Event, refresh, reply, failed, slide, abort, features_of, refresh_cells,
  refresh_failed, draw, show_cells, answered_cells, receive, is_pending, settle, handle, run,
}

-- At most one query is pending, and it is the newest one.
abbrev pub IsTracked : Page → Type 0
IsTracked page =
    (page.pending ≡ [])
    ⊎ ((q : ℕ) × (page.pending ≡ q ∷ [])
        × (page.last_fetch_abort ≡ some q)
        × (suc q ≡ page.next_query))

abort_nil : (o : Option ℕ) → abort o [] ≡ []
abort_nil none = refl
abort_nil (some q) = refl

module _ (script : Script) (cell_to_boundary : Json → Result Json) (cell_min_zoom : ℕ)
    (is_viewport_error : Text → Bool) where
  -- The map shows the features of the cells that the bus announced last.
  abbrev pub IsInStep : Page → Type 0
  IsInStep page =
      features_of script cell_to_boundary cell_min_zoom is_viewport_error page.bus_cells
      ≡ ok page.shown

  refresh_failed-IsTracked :
      (m : Text) (page : Page)
      → IsTracked page
      → IsTracked (refresh_failed script cell_to_boundary cell_min_zoom is_viewport_error m page)
  unfolding refresh_failed
  refresh_failed-IsTracked m page h = elim (Bool-cases (is_viewport_error m)) [
    | inl e ↦ rw e h
    | inr e ↦ rw e h
  ]

  draw-IsTracked :
      (cells : List Json) (fs : Result (List Feature)) (page : Page)
      → IsTracked page
      → IsTracked (draw script cell_to_boundary cell_min_zoom is_viewport_error cells fs page)
  draw-IsTracked cells (throw m) page h = refresh_failed-IsTracked m page h
  draw-IsTracked cells (ok fs) page h = h

  show_cells-IsTracked :
      (r : Result (List Json)) (page : Page)
      → IsTracked page
      → IsTracked (show_cells script cell_to_boundary cell_min_zoom is_viewport_error r page)
  unfolding show_cells
  show_cells-IsTracked (throw m) page h = refresh_failed-IsTracked m page h
  show_cells-IsTracked (ok cells) page h =
      draw-IsTracked cells
        (features_of script cell_to_boundary cell_min_zoom is_viewport_error cells) _ h

  settle-IsTracked :
      (q : ℕ) (page : Page)
      → IsTracked page
      → IsTracked (settle script cell_to_boundary cell_min_zoom is_viewport_error q page)
  settle-IsTracked q page (inl e) = inl (rw e refl)
  settle-IsTracked q page (inr (p, e, l, n)) = elim (Bool-cases (p == q)) [
    | inl same ↦ inl (rw (e, same) refl)
    | inr other ↦ inr (p, rw (e, other) refl, l, n)
  ]

  abort_tracked : (page : Page) → IsTracked page → abort page.last_fetch_abort page.pending ≡ []
  abort_tracked page (inl e) = rw e (abort_nil page.last_fetch_abort)
  abort_tracked page (inr (q, e, l, n)) = rw (e, l) (ground (arith, ==_iff q q))

  refresh_cells-IsTracked :
      (zoom : ℕ) (page : Page)
      → IsTracked page
      → IsTracked (refresh_cells script cell_to_boundary cell_min_zoom is_viewport_error zoom page)
  unfolding refresh_cells
  refresh_cells-IsTracked zoom page h = elim (Bool-cases (leb cell_min_zoom zoom)) [
    | inl e ↦ rw e (inr (page.next_query, rw (abort_tracked page h) refl, refl, refl))
    | inr e ↦ rw e h
  ]

  handle-IsTracked :
      (e : Event) (page : Page)
      → IsTracked page
      → IsTracked (handle script cell_to_boundary cell_min_zoom is_viewport_error e page)
  unfolding handle receive
  handle-IsTracked (refresh zoom) page h = refresh_cells-IsTracked zoom page h
  handle-IsTracked (slide epoch) page h = h
  handle-IsTracked (reply q r) page h =
      elim (Bool-cases
        (is_pending script cell_to_boundary cell_min_zoom is_viewport_error q page)) [
          | inl e ↦ rw e (show_cells-IsTracked _ _ (settle-IsTracked q page h))
          | inr e ↦ rw e h
        ]
  handle-IsTracked (failed q m) page h =
      elim (Bool-cases
        (is_pending script cell_to_boundary cell_min_zoom is_viewport_error q page)) [
          | inl e ↦ rw e (refresh_failed-IsTracked m _ (settle-IsTracked q page h))
          | inr e ↦ rw e h
        ]

  -- Over any sequence of events, from a page that has at most its newest query pending: the page
  -- still has at most its newest query pending, so no answer to an older query is ever shown.
  pub run-IsTracked :
      (es : List Event) (page : Page)
      → IsTracked page
      → IsTracked (run script cell_to_boundary cell_min_zoom is_viewport_error es page)
  unfolding run
  run-IsTracked [] page h = h
  run-IsTracked (e ∷ es) page h = run-IsTracked es _ (handle-IsTracked e page h)

  refresh_failed-IsInStep :
      (m : Text) (page : Page)
      → IsInStep (refresh_failed script cell_to_boundary cell_min_zoom is_viewport_error m page)
  unfolding refresh_failed features_of
  refresh_failed-IsInStep m page = elim (Bool-cases (is_viewport_error m)) [
    | inl e ↦ rw e refl
    | inr e ↦ rw e refl
  ]

  draw-IsInStep :
      (cells : List Json) (fs : Result (List Feature)) (page : Page)
      → features_of script cell_to_boundary cell_min_zoom is_viewport_error cells ≡ fs
      → IsInStep (draw script cell_to_boundary cell_min_zoom is_viewport_error cells fs page)
  draw-IsInStep cells (throw m) page h = refresh_failed-IsInStep m page
  draw-IsInStep cells (ok fs) page h = h

  show_cells-IsInStep :
      (r : Result (List Json)) (page : Page)
      → IsInStep (show_cells script cell_to_boundary cell_min_zoom is_viewport_error r page)
  unfolding show_cells
  show_cells-IsInStep (throw m) page = refresh_failed-IsInStep m page
  show_cells-IsInStep (ok cells) page =
      draw-IsInStep cells
        (features_of script cell_to_boundary cell_min_zoom is_viewport_error cells) _ refl

  empty_in_step : features_of script cell_to_boundary cell_min_zoom is_viewport_error [] ≡ ok []
  unfolding features_of
  empty_in_step = refl

  refresh_cells-IsInStep :
      (zoom : ℕ) (page : Page)
      → IsInStep page
      → IsInStep (refresh_cells script cell_to_boundary cell_min_zoom is_viewport_error zoom page)
  unfolding refresh_cells
  refresh_cells-IsInStep zoom page h = elim (Bool-cases (leb cell_min_zoom zoom)) [
    | inl e ↦ rw e h
    | inr e ↦ rw e empty_in_step
  ]

  pub handle-IsInStep :
      (e : Event) (page : Page)
      → IsInStep page
      → IsInStep (handle script cell_to_boundary cell_min_zoom is_viewport_error e page)
  unfolding handle receive
  handle-IsInStep (refresh zoom) page h = refresh_cells-IsInStep zoom page h
  handle-IsInStep (slide epoch) page h = h
  handle-IsInStep (reply q r) page h =
      elim (Bool-cases
        (is_pending script cell_to_boundary cell_min_zoom is_viewport_error q page)) [
          | inl e ↦ rw e (show_cells-IsInStep _ _)
          | inr e ↦ rw e h
        ]
  handle-IsInStep (failed q m) page h =
      elim (Bool-cases
        (is_pending script cell_to_boundary cell_min_zoom is_viewport_error q page)) [
          | inl e ↦ rw e (refresh_failed-IsInStep m _)
          | inr e ↦ rw e h
        ]

  -- Over any sequence of events, from a page in step: the map's source holds exactly the features
  -- computed from the cells that the shared state holds, in their order.
  pub run-IsInStep :
      (es : List Event) (page : Page)
      → IsInStep page
      → IsInStep (run script cell_to_boundary cell_min_zoom is_viewport_error es page)
  unfolding run
  run-IsInStep [] page h = h
  run-IsInStep (e ∷ es) page h = run-IsInStep es _ (handle-IsInStep e page h)

  -- A refresh below the zoom for cells leaves a pending query alive: when its answer then comes and
  -- its cells make features, they are shown, while the hint still says to zoom in.
  pub late_reply_shows :
      (zoom q : ℕ) (r : HttpReply) (page : Page) {cells : List Json} {fs : List Feature}
      → leb cell_min_zoom zoom ≡ false
      → is_pending script cell_to_boundary cell_min_zoom is_viewport_error q page ≡ true
      → answered_cells script cell_to_boundary cell_min_zoom is_viewport_error (read_reply script r)
        ≡ ok cells
      → features_of script cell_to_boundary cell_min_zoom is_viewport_error cells ≡ ok fs
      → let after =
          run script cell_to_boundary cell_min_zoom is_viewport_error
            (refresh zoom ∷ reply q r ∷ [])
            page in
        (after.shown ≡ fs) × (after.bus_cells ≡ cells) × (after.hint ≡ zoom_in)
  unfolding handle refresh_cells receive show_cells run
  late_reply_shows zoom q r page low pending answer drawn =
      rw (low, pending, answer, drawn) (refl, refl, refl)

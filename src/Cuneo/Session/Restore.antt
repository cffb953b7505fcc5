-- ===== src/Cuneo/Session/Restore.antt =====
-- What a reload of the page restores of demo/cuneo_overlay.js.
use mobydb_render_engine.Base.{
  ◌-◌, ◌≡◌, refl, ◌∙◌, Bool, true, false, Result, List, [], ◌∷◌, ltb, if-both,
}
use mobydb_render_engine.Cuneo.{
  Station, deactivate, activate, close_station_modal, stations_reply, deactivated,
}
use mobydb_render_engine.Cuneo
use mobydb_render_engine.Cuneo.Activation.{IsShown, on_event-IsShown, close_from-IsShown}
use mobydb_render_engine.Cuneo.Session.{
  Session, SessionEvent, Target, init, poll_timer, toggle_click, locate_click, stations_come,
  escape, fresh, fly, arrive, try_activate, on_event, run, magliano,
}

module _ (fallback : List Station) where
  fly-IsShown :
      (map : Bool) (t : Target) (s : Session) → IsShown s.cuneo → IsShown (fly map t s).cuneo
  fly-IsShown map t s h = if-both (λ (u : Session). IsShown u.cuneo) map h h

  try_activate-IsShown :
      (map : Bool) (s : Session) → IsShown s.cuneo → IsShown (try_activate fallback map s).cuneo
  unfolding try_activate
  try_activate-IsShown true s h = on_event-IsShown fallback activate s.cuneo h
  try_activate-IsShown false s h = h

  arrive-IsShown :
      (map : Bool) (r : Result (List Station)) (s : Session)
      → IsShown s.cuneo
      → IsShown (arrive fallback map r s).cuneo
  arrive-IsShown true r s h = on_event-IsShown fallback (stations_reply r) s.cuneo h
  arrive-IsShown false r s h = on_event-IsShown fallback (stations_reply r) s.cuneo h

  event-IsShown :
      (e : SessionEvent) (s : Session) → IsShown s.cuneo → IsShown (on_event fallback e s).cuneo
  unfolding on_event close_station_modal
  event-IsShown (init map) s h =
      if-both (λ (u : Session). IsShown u.cuneo) s.cuneo.stored
        (try_activate-IsShown map (record s { has_buttons = true }) h) h
  event-IsShown (poll_timer map) s h =
      if-both (λ (u : Session). IsShown u.cuneo) (ltb 0 s.polling)
        (try_activate-IsShown map (record s { polling = s.polling - 1 }) h) h
  event-IsShown toggle_click s h =
      if-both (λ (u : Session). IsShown u.cuneo) s.cuneo.active
        (on_event-IsShown fallback deactivate s.cuneo h)
        (on_event-IsShown fallback activate s.cuneo h)
  event-IsShown (locate_click map) s h = fly-IsShown map magliano s h
  event-IsShown (stations_come map r) s h =
      if-both (λ (u : Session). IsShown u.cuneo) (ltb 0 s.cuneo.loading) (arrive-IsShown map r s h)
        h
  event-IsShown escape s h = close_from-IsShown s.cuneo.modal_el s.cuneo h

  run-IsShown :
      (es : List SessionEvent) (s : Session) → IsShown s.cuneo → IsShown (run fallback es s).cuneo
  unfolding run
  run-IsShown [] s h = h
  run-IsShown (e ∷ es) s h = run-IsShown es (on_event fallback e s) (event-IsShown e s h)

  loaded-IsShown : (stored : Bool) → IsShown (on_event fallback (init true) (fresh stored)).cuneo
  unfolding on_event try_activate Cuneo.on_event
  loaded-IsShown true = (refl, refl, refl)
  loaded-IsShown false = (refl, refl, refl)

  loaded_active :
      (stored : Bool) → (on_event fallback (init true) (fresh stored)).cuneo.active ≡ stored
  unfolding on_event try_activate Cuneo.on_event
  loaded_active true = refl
  loaded_active false = refl

  -- On a page whose map is there when it loads, with whatever `localStorage` held, and after any clicks,
  -- keys, timers and replies: a reload of the page has the overlay active exactly when it was active.
  pub reload_restores :
      (stored : Bool) (es : List SessionEvent)
      → let before = run fallback es (on_event fallback (init true) (fresh stored)) in
        (on_event fallback (init true) (fresh before.cuneo.stored)).cuneo.active
        ≡ before.cuneo.active
  reload_restores stored es =
      let before = run fallback es (on_event fallback (init true) (fresh stored)) in
      loaded_active before.cuneo.stored
      ∙ (run-IsShown es (on_event fallback (init true) (fresh stored)) (loaded-IsShown stored)).0

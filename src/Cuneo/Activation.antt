-- ===== src/Cuneo/Activation.antt =====
-- The activation of demo/cuneo_overlay.js and its station modal, over sequences of events.
use mobydb_render_engine.Base.{
  ℕ, zero, suc, ◌≡◌, refl, true, false, not, Option, none, some, List, [], ◌∷◌, ok, map, ◌==◌,
  ==_iff, arith,
}
use mobydb_render_engine.Cuneo.{
  Station, Cuneo, CuneoEvent, activate, deactivate, stations_reply, open_station, devices_ready,
  close_modal, close_from, close_station_modal, deactivated, load_stations, arrived, on_event, run,
}

-- The stored flag, the toggle and the locate button follow `state.active`.
abbrev pub IsShown : Cuneo → Type 0
IsShown c = (c.stored ≡ c.active) × (c.toggle_active ≡ c.active) × (c.locate_hidden ≡ not c.active)

pub close_from-IsShown : (m : Option ℕ) (c : Cuneo) → IsShown c → IsShown (close_from m c)
close_from-IsShown none c h = h
close_from-IsShown (some m) c h = h

module _ (fallback : List Station) where
  arrived-IsShown :
      (n : ℕ) (s : List Station) (c : Cuneo) → IsShown c → IsShown (arrived fallback n s c)
  arrived-IsShown zero s c h = h
  arrived-IsShown (suc n) s c h = h

  pub on_event-IsShown : (e : CuneoEvent) (c : Cuneo) → IsShown c → IsShown (on_event fallback e c)
  unfolding on_event deactivated close_station_modal
  on_event-IsShown activate c h = (refl, refl, refl)
  on_event-IsShown deactivate c h = close_from-IsShown c.modal_el _ (refl, refl, refl)
  on_event-IsShown (stations_reply r) c h = arrived-IsShown c.loading (load_stations fallback r) c h
  on_event-IsShown open_station c h = close_from-IsShown c.modal_el c h
  on_event-IsShown devices_ready c h = h
  on_event-IsShown close_modal c h = close_from-IsShown c.modal_el c h

  -- Over any sequence of events, from a state where they agree: the stored flag and the toggle say that
  -- the overlay is active exactly when it is, and the locate button is hidden exactly when it is not.
  pub run-IsShown : (es : List CuneoEvent) (c : Cuneo) → IsShown c → IsShown (run fallback es c)
  unfolding run
  run-IsShown [] c h = h
  run-IsShown (e ∷ es) c h = run-IsShown es (on_event fallback e c) (on_event-IsShown e c h)

  -- A deactivation while an activation waits for its stations: the stations that arrive afterwards put
  -- their markers on the map of an inactive overlay.
  pub late_stations :
      (c : Cuneo) {n : ℕ} (stations : List Station)
      → c.loading ≡ suc n
      → c.modal_el ≡ none
      → let after = run fallback (deactivate ∷ stations_reply (ok stations) ∷ []) c in
        (after.active ≡ false) × (after.markers ≡ map (λ s. s.name) stations)
  unfolding run on_event deactivated close_station_modal
  late_stations c stations h k = rw (k, h) (refl, refl)

  -- On a page without a backdrop and without a modal: one station opened and closed leaves the page without a backdrop; a second station opened before
  -- the devices of the first are there leaves the first backdrop on the page, with no modal to close.
  pub modal_backdrops :
      (c : Cuneo)
      → c.backdrops ≡ []
      → c.modal_el ≡ none
      → let one = run fallback (open_station ∷ devices_ready ∷ close_modal ∷ []) c in
        let two =
          run fallback
            (open_station ∷ open_station ∷ devices_ready ∷ devices_ready ∷ close_modal ∷ [])
            c in
        (one.backdrops ≡ []) × (two.backdrops ≡ c.next_modal ∷ []) × (two.modal_el ≡ none)
  unfolding run on_event close_station_modal
  modal_backdrops c h k =
      let same : (n : ℕ) → (n == n) ≡ true = λ n. (==_iff n n).1 refl in
      let differ : (c.next_modal == suc c.next_modal) ≡ false = ground arith in
      rw (k, h, same c.next_modal, same (suc c.next_modal), differ) (refl, refl, refl)

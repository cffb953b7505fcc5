-- ===== src/Cuneo/Session.antt =====
-- `init` of demo/cuneo_overlay.js with the two buttons and the keys: the restored activation, which polls
-- for the map, and the flights of the map. What is stored outlives the page.
pub mod Restore
use mobydb_render_engine.Base.{
  ℕ, zero, suc, ◌+◌, ◌-◌, Bool, true, false, Option, none, some, List, [], ◌∷◌, ◌++◌, Result, Text,
  codes, ltb, if◌then◌else◌,
}
use mobydb_render_engine.Cuneo
use mobydb_render_engine.Cuneo.{
  Station, Cuneo, activate, deactivate, stations_reply, close_station_modal,
}

pub data Target : Type 0 where
  -- The first station of the fallback list, and the centre of the pilot region.
  magliano pilot_region : Target

pub record Session : Type 0 where
  pub cuneo : Cuneo.Cuneo
  -- The toggle and the locate button stand on the page.
  pub has_buttons : Bool
  -- The timers that call `tryActivate` again.
  pub polling : ℕ
  pub flights : List Target

pub data SessionEvent : Type 0 where
  -- The page has loaded; its map is there or not.
  init : (map : Bool) → SessionEvent
  poll_timer : (map : Bool) → SessionEvent
  toggle_click : SessionEvent
  locate_click : (map : Bool) → SessionEvent
  -- The stations of an activation.
  stations_come : (map : Bool) → Result (List Station) → SessionEvent
  escape : SessionEvent

-- The page before the script, with what `localStorage` holds.
abbrev pub fresh : Bool → Session
fresh stored = record {
  cuneo = record {
    active = false;
    stored = stored;
    toggle_active = false;
    locate_hidden = true;
    stations = [];
    markers = [];
    counter = none;
    loading = 0;
    backdrops = [];
    modal_el = none;
    next_modal = 0;
  };
  has_buttons = false;
  polling = 0;
  flights = [];
}

abbrev pub fly : Bool → Target → Session → Session
fly map target s = if map then record s { flights = s.flights ++ target ∷ [] } else s

module _ (fallback : List Station) where
  abbrev pub does : Cuneo.CuneoEvent → Session → Session
  does e s = record s { cuneo = Cuneo.on_event fallback e s.cuneo }

  -- `tryActivate`.
  unfoldable pub try_activate : Bool → Session → Session
  try_activate true s = does activate s
  try_activate false s = record s { polling = suc s.polling }

  -- The end of `activate`: without the map neither the markers nor the view change.
  abbrev pub arrive : Bool → Result (List Station) → Session → Session
  arrive true r s = fly true pilot_region (does (stations_reply r) s)
  arrive false r s =
      let after = does (stations_reply r) s in
      record after { cuneo = record after.cuneo { markers = s.cuneo.markers } }

  unfoldable pub on_event : SessionEvent → Session → Session
  on_event (init map) s =
      let shown = record s { has_buttons = true } in
      if shown.cuneo.stored then try_activate map shown else shown
  on_event (poll_timer map) s =
      if ltb 0 s.polling then try_activate map (record s { polling = s.polling - 1 }) else s
  on_event toggle_click s = if s.cuneo.active then does deactivate s else does activate s
  on_event (locate_click map) s = fly map magliano s
  on_event (stations_come map r) s = if ltb 0 s.cuneo.loading then arrive map r s else s
  on_event escape s = record s { cuneo = close_station_modal s.cuneo }

  unfoldable pub run : List SessionEvent → Session → Session
  run [] s = s
  run (e ∷ es) s = run es (on_event e s)

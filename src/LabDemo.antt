-- ===== src/LabDemo.antt =====
-- The button of demo/lab_demo_button.js: boot, flyToLabCell and the marks it puts on the map. h3, the map
-- and its projection are parameters; coordinates are opaque texts. Timers of one delay run in order.
pub mod Glow
use mobydb_render_engine.Base.{
  ℕ, suc, ◌+◌, ◌-◌, Bool, true, false, Option, none, some, List, [], ◌∷◌, ◌++◌, drop, Text, codes,
  if◌then◌else◌,
}

abbrev pub lab_cell : Text
lab_cell = codes "881e805015fffff"

abbrev lab_label : Text
lab_label = codes "Trastevere · GEIANT Lab × substation"

abbrev target_zoom : ℕ
target_zoom = 14

abbrev pub title : Text
title = codes "Pan to " ++ lab_label ++ codes " (" ++ lab_cell ++ codes ")"

pub record Place : Type 0 where
  pub lat : Text
  pub lng : Text

pub record Point : Type 0 where
  pub x : Text
  pub y : Text

pub record Flight : Type 0 where
  pub center : Place
  pub zoom : ℕ
  pub duration : ℕ
  pub essential : Bool

pub data Warning : Type 0 where
  map_not_ready : Warning
  h3_not_loaded : Warning
  non_numeric : Warning

-- `listeners` are the handlers of `moveend`, each with its place; `clearing` counts the timers that
-- reset the button. A pulse or a toast has a timer that removes it.
pub record Demo : Type 0 where
  pub styles : Bool
  pub buttons : List Text
  pub active : Bool
  pub flights : List Flight
  pub listeners : List Place
  pub pulses : List Point
  pub toasts : List Text
  pub clearing : ℕ
  pub warnings : List Warning

-- `cellToLatLng`, when h3 is loaded; a result that is not two numbers is `none`.
abbrev pub H3 : Type 0
H3 = Option (Text → Option Place)

pub data DemoEvent : Type 0 where
  -- The page has loaded, or the retry timer has run; the map has its container or not.
  boot : (container : Bool) → DemoEvent
  click : (container : Bool) → H3 → DemoEvent
  move_end : (project : Place → Point) → DemoEvent
  pulse_timer : DemoEvent
  toast_timer : DemoEvent
  active_timer : DemoEvent

abbrev inject_styles : Demo → Demo
inject_styles s = if s.styles then s else record s { styles = true }

abbrev pub build_button : Demo → Demo
build_button s = record s { buttons = s.buttons ++ title ∷ [] }

abbrev warn : Warning → Demo → Demo
warn w s = record s { warnings = s.warnings ++ w ∷ [] }

abbrev pub fly_to : Option Place → Demo → Demo
fly_to none s = warn non_numeric s
fly_to (some place) s = record s {
  active = true;
  flights =
      s.flights
      ++ record { center = place; zoom = target_zoom; duration = 1800; essential = true } ∷ [];
  listeners = s.listeners ++ place ∷ [];
}

unfoldable pub fly_to_lab_cell : Bool → H3 → Demo → Demo
fly_to_lab_cell false h3 s = warn map_not_ready s
fly_to_lab_cell true none s = warn h3_not_loaded s
fly_to_lab_cell true (some cell_to_lat_lng) s = fly_to (cell_to_lat_lng lab_cell) s

abbrev show_pulse : Point → Demo → Demo
show_pulse p s = record s { pulses = s.pulses ++ p ∷ [] }

abbrev show_toast : Text → Demo → Demo
show_toast msg s = record s { toasts = s.toasts ++ msg ∷ [] }

-- One handler of `moveend`, which takes itself off first.
abbrev pub once_move_end : (Place → Point) → Place → Demo → Demo
once_move_end project place s =
    let shown =
      show_toast (codes "click any substation hexagon to verify · GEIANT Lab cell located")
        (show_pulse (project place) s) in
    record shown { clearing = suc shown.clearing }

abbrev pub settle : (Place → Point) → List Place → Demo → Demo
settle project [] s = s
settle project (p ∷ ps) s = settle project ps (once_move_end project p s)

unfoldable pub on_event : DemoEvent → Demo → Demo
on_event (boot false) s = s
on_event (boot true) s = build_button (inject_styles s)
on_event (click container h3) s = fly_to_lab_cell container h3 s
on_event (move_end project) s = settle project s.listeners (record s { listeners = [] })
on_event pulse_timer s = record s { pulses = drop 1 s.pulses }
on_event toast_timer s = record s { toasts = drop 1 s.toasts }
on_event active_timer s = record s { active = false; clearing = s.clearing - 1 }

unfoldable pub run : List DemoEvent → Demo → Demo
run [] s = s
run (e ∷ es) s = run es (on_event e s)

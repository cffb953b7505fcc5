-- ===== src/Liveness.antt =====
-- demo/liveness_indicators.js: the log of `cells` events, the rate, the state of the strip and the
-- epoch toast. Times are milliseconds of `Date.now()`; a rate is an exact fraction, where the source
-- rounds to a double. The page's markup is not modelled; the flash of the map is in Liveness/Flash.
mod Tests
pub mod Window
pub mod Strip
pub mod Flash
pub mod Controller
use mobydb_render_engine.Base.{
  ℕ, ◌+◌, ◌-◌, ◌*◌, ◌/◌, ◌%◌, Bool, true, false, not, ◌&&◌, Option, none, some, List, [], ◌∷◌, ◌++◌,
  leb, ltb, ◌==◌, if◌then◌else◌,
}
use Prim.Native.Nat.{min}

pub record Entry : Type 0 where
  pub ts : ℕ
  pub delta : ℕ

-- `cellLog`, `lastFetchTs` and `prevCellCount`.
pub record Log : Type 0 where
  pub entries : List Entry
  pub last_fetch_ts : Option ℕ
  pub prev_cell_count : ℕ

abbrev pub window_ms : ℕ
window_ms = 60000

-- `while (cellLog.length && cellLog[0].ts < now - WINDOW_MS) cellLog.shift()`.
unfoldable pub trim : ℕ → List Entry → List Entry
trim now [] = []
trim now (e ∷ es) = if ltb (e.ts + window_ms) now then trim now es else e ∷ es

-- `onCellsEvent`.
unfoldable pub on_cells_event : ℕ → ℕ → Log → Log
on_cells_event now count log =
    let delta = count - log.prev_cell_count in
    let pushed =
      if ltb 0 delta then log.entries ++ record { ts = now; delta = delta } ∷ [] else log.entries in
    let touched = if ltb 0 delta then some now else log.last_fetch_ts in
    record {
      entries = trim now pushed;
      last_fetch_ts = if ltb 0 count && (delta == 0) then some now else touched;
      prev_cell_count = count;
    }

abbrev pub sum_of : List Entry → ℕ
sum_of [] = 0
sum_of (e ∷ es) = e.delta + sum_of es

-- The numerator and the denominator of `cellsPerMin`.
abbrev pub rate_of : ℕ → List Entry → ℕ × ℕ
rate_of now [] = (0, 1)
rate_of now (e ∷ es) =
    let span = min window_ms (now - e.ts) in
    if ltb span 1000 then (0, 1) else (sum_of (e ∷ es) * 60000, span)

unfoldable pub cells_per_min : ℕ → Log → ℕ × ℕ
cells_per_min now log = rate_of now log.entries

pub data State : Type 0 where
  offline ready live idle stale : State

-- `data-state`.
pub data Attr : Type 0 where
  attr_ok attr_warn attr_stale : Attr

abbrev pub attr_of : State → Attr
attr_of offline = attr_stale
attr_of ready = attr_ok
attr_of live = attr_ok
attr_of idle = attr_warn
attr_of stale = attr_stale

abbrev by_age : ℕ → State
by_age age = if ltb age 30000 then live else if ltb age 120000 then idle else stale

-- `stateLabel`; a time stamp of 0 is falsy.
unfoldable pub state_label : ℕ → Bool → Option ℕ → State
state_label now backend_ok none = if backend_ok then ready else offline
state_label now backend_ok (some last) =
    if backend_ok then (if last == 0 then ready else by_age (now - last)) else offline

-- What `fmtAgo` prints, by its branch.
pub data Ago : Type 0 where
  dash just_now : Ago
  seconds_ago : ℕ → Ago
  minutes_ago : (minutes seconds : ℕ) → Ago
  hours_ago : (hours minutes : ℕ) → Ago

abbrev pub ago_of : ℕ → Ago
ago_of d =
    if ltb d 2
    then just_now
    else if ltb d 60
    then seconds_ago d
    else if ltb d 3600
    then minutes_ago (d / 60) (d % 60)
    else hours_ago (d / 3600) (d % 3600 / 60)

unfoldable pub fmt_ago : ℕ → Option ℕ → Ago
fmt_ago now none = dash
fmt_ago now (some ts) = if ts == 0 then dash else ago_of ((now - ts + 500) / 1000)

-- The `epoch` listener: the remembered epoch, and the one that the toast announces, if any.
abbrev pub on_epoch : ℕ → Option ℕ → Option ℕ × Option ℕ
on_epoch e none = (some e, none)
on_epoch e (some prev) = if e == prev then (some prev, none) else (some e, some e)

abbrev pub on_epochs : List ℕ → Option ℕ → List ℕ
on_epochs [] prev = []
on_epochs (e ∷ es) prev =
    let (prev', toast) = on_epoch e prev in
    let rest = on_epochs es prev' in elim toast [ none ↦ rest | some t ↦ t ∷ rest ]

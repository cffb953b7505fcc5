-- ===== src/Liveness/Controller.antt =====
-- The controller of demo/liveness_indicators.js: the heartbeat, what the strip prints, the flash of the
-- strip and the toast with their timers, and the listeners of the bus. A timer is the time at which it
-- is due. `Intl.NumberFormat` is a parameter.
pub mod Toast
use mobydb_render_engine.Base.{
  ℕ, ◌+◌, ◌*◌, ◌/◌, Bool, true, false, ◌&&◌, Option, none, some, List, [], ◌∷◌, ◌++◌, Result, ok,
  throw, Text, codes, length, take, leb, ltb, ◌==◌, is_empty, if◌then◌else◌,
}
use mobydb_render_engine.Liveness.{
  Log, on_cells_event, cells_per_min, State, state_label, Attr, attr_stale, attr_of, Ago, fmt_ago,
  on_epoch,
}
use mobydb_render_engine.Liveness.Flash
use mobydb_render_engine.Liveness.Flash.{Flash, flash_cells}

-- `base.replace(/\/+$/, '')`.
unfoldable pub without_slashes : Text → Text
without_slashes [] = []
without_slashes (c ∷ s) =
    let rest = without_slashes s in if is_empty rest && (c == b'/') then [] else c ∷ rest

pub record Ping : Type 0 where
  pub is_ok : Bool
  pub status : Option ℕ

-- The address that `pingHealth` fetches, if there is a base.
unfoldable pub ping_url : Text → Option Text
ping_url [] = none
ping_url (c ∷ base) = some (without_slashes (c ∷ base) ++ codes "/health")

-- `pingHealth` on what `fetch` gives for an address: `r.ok` and `r.status`, or a rejection.
abbrev pub pinged : Option Text → (Text → Result (Bool × ℕ)) → Ping
pinged none fetch = record { is_ok = false; status = none }
pinged (some url) fetch = elim (fetch url) [
  | ok (is_ok, status) ↦ record { is_ok = is_ok; status = some status }
  | throw message ↦ record { is_ok = false; status = none }
]

unfoldable pub ping_health : Text → (Text → Result (Bool × ℕ)) → Ping
ping_health base fetch = pinged (ping_url base) fetch

-- What `render` reads of `window.mobydbState`.
pub record Shared : Type 0 where
  pub n_cells : ℕ
  pub current_epoch : ℕ

pub record Strip : Type 0 where
  pub attr : Attr
  pub state : State
  pub is_muted : Bool
  pub last : Ago
  pub epoch : Text
  pub cpm : Text
  pub total : Text

-- The layer of the flash: the layer that it was put below.
pub data FlashLayer : Type 0 where
  on_top below_stroke : FlashLayer

pub record Controller : Type 0 where
  pub log : Log
  pub has_source : Bool
  pub flash_layer : Option FlashLayer
  pub flash : Flash
  pub strip : Option Strip
  pub is_flashing : Bool
  pub flash_timer : Option ℕ
  pub toast_epoch : Option ℕ
  pub toast_on : Bool
  pub toast_timer : Option ℕ
  pub prev_epoch : Option ℕ
  pub last_backend_ok : Bool

-- The state before the first event: the epoch of the shared state is no change.
abbrev pub initial : Option ℕ → Controller
initial current_epoch = record {
  log = record { entries = []; last_fetch_ts = none; prev_cell_count = 0 };
  has_source = false;
  flash_layer = none;
  flash = record { features = []; running = [] };
  strip = none;
  is_flashing = false;
  flash_timer = none;
  toast_epoch = none;
  toast_on = false;
  toast_timer = none;
  prev_epoch = current_epoch;
  last_backend_ok = false;
}

-- The map of the page, and whether it has the layer `cells-stroke`.
pub data MapOf : Type 0 where
  no_map : MapOf
  map_with : (has_stroke : Bool) → MapOf

abbrev pub H3 : Type 0
H3 = Option (Text → Option (List Text))

pub data StripEvent : Type 0 where
  -- `cells`: the `h3_cell` of each cell of the event.
  cells : (now : ℕ) → MapOf → H3 → List (Option Text) → StripEvent
  epoch : (now : ℕ) → (epoch : ℕ) → StripEvent
  -- The heartbeat's answer, and the timer that renders again.
  tick : (now : ℕ) → (fetch : Text → Result (Bool × ℕ)) → Shared → StripEvent
  second : (now : ℕ) → Shared → StripEvent
  -- The clock reaches a time at which timers may be due.
  timers : (now : ℕ) → StripEvent

abbrev pub toast_ms : ℕ
toast_ms = 5200

-- `.map(c => c.h3_cell).filter(Boolean)`.
abbrev pub present : List (Option Text) → List Text
present [] = []
present (none ∷ cs) = present cs
present (some [] ∷ cs) = present cs
present (some (c ∷ s) ∷ cs) = (c ∷ s) ∷ present cs

abbrev pub ensured : Bool → Option FlashLayer → Option FlashLayer
ensured has_stroke (some layer) = some layer
ensured has_stroke none = some (if has_stroke then below_stroke else on_top)

abbrev pub ensure_flash_layer : Bool → Controller → Controller
ensure_flash_layer has_stroke c = record c {
  has_source = true;
  flash_layer = ensured has_stroke c.flash_layer;
}

abbrev pub flash_on_map : ℕ → H3 → List Text → Controller → Controller
flash_on_map now none h3s c = c
flash_on_map now (some cell_to_boundary) h3s c = record c {
  flash = Flash.on_event cell_to_boundary (flash_cells now h3s) c.flash;
}

-- `flashStrip`: the timer that was set before is cleared.
abbrev pub flash_strip : ℕ → Controller → Controller
flash_strip now c = record c { is_flashing = true; flash_timer = some (now + 900) }

abbrev pub flashed : ℕ → Bool → H3 → List Text → Controller → Controller
flashed now has_stroke h3 [] c = c
flashed now has_stroke h3 (h ∷ hs) c =
    flash_strip now (flash_on_map now h3 (h ∷ hs) (ensure_flash_layer has_stroke c))

abbrev pub flash_for : ℕ → MapOf → H3 → List (Option Text) → Controller → Controller
flash_for now no_map h3 cs c = c
flash_for now (map_with has_stroke) h3 cs c = flashed now has_stroke h3 (take 8 (present cs)) c

-- `showEpochToast`.
abbrev pub show_epoch_toast : ℕ → ℕ → Controller → Controller
show_epoch_toast now e c = record c {
  toast_epoch = some e;
  toast_on = true;
  toast_timer = some (now + toast_ms);
}

abbrev pub announced : ℕ → Option ℕ → Controller → Controller
announced now none c = c
announced now (some e) c = show_epoch_toast now e c

abbrev pub is_due : ℕ → Option ℕ → Bool
is_due now none = false
is_due now (some due) = leb due now

abbrev pub flash_timeout : ℕ → Controller → Controller
flash_timeout now c =
    if is_due now c.flash_timer then record c { is_flashing = false; flash_timer = none } else c

abbrev pub toast_timeout : ℕ → Controller → Controller
toast_timeout now c =
    if is_due now c.toast_timer then record c { toast_on = false; toast_timer = none } else c

-- `Math.round` of a fraction.
abbrev pub round : ℕ × ℕ → ℕ
round (p, q) = (2 * p + q) / (2 * q)

abbrev is_stale : Attr → Bool
is_stale attr_stale = true
is_stale _ = false

module _ (fmt_int : ℕ → Text) (api_base : Text) where
  unfoldable pub rendered : ℕ → Bool → Shared → Log → Strip
  rendered now backend_ok shared log =
      let label = state_label now backend_ok log.last_fetch_ts in
      record {
        attr = attr_of label;
        state = label;
        is_muted = is_stale (attr_of label);
        last = fmt_ago now log.last_fetch_ts;
        epoch = codes "E" ++ fmt_int shared.current_epoch;
        cpm = fmt_int (round (cells_per_min now log));
        total = fmt_int shared.n_cells;
      }

  abbrev pub render : ℕ → Bool → Shared → Controller → Controller
  render now backend_ok shared c = record c { strip = some (rendered now backend_ok shared c.log) }

  unfoldable pub on_event : StripEvent → Controller → Controller
  on_event (cells now map h3 cs) c =
      flash_for now map h3 cs (record c { log = on_cells_event now (length cs) c.log })
  on_event (epoch now e) c =
      let next = on_epoch e c.prev_epoch in record (announced now next.1 c) { prev_epoch = next.0 }
  on_event (tick now fetch shared) c =
      let is_ok = (ping_health api_base fetch).is_ok in
      render now is_ok shared (record c { last_backend_ok = is_ok })
  on_event (second now shared) c = render now c.last_backend_ok shared c
  on_event (timers now) c = toast_timeout now (flash_timeout now c)

  unfoldable pub run : List StripEvent → Controller → Controller
  run [] c = c
  run (e ∷ es) c = run es (on_event e c)

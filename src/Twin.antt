-- ===== src/Twin.antt =====
-- demo/twin_overlay.js: the telemetry overlay and the section of the audit panel, as transitions.
-- The replies of the twin service and the h3 library are parameters or data of the events; markup is
-- not modelled.
mod Tests
pub mod Timing
pub mod Panel
pub mod Layer
pub mod Inspector
pub mod Detail
use mobydb_render_engine.Base.{
  ℕ, suc, ◌+◌, ◌*◌, Bool, true, false, not, ◌&&◌, ◌||◌, Option, none, some, List, [], ◌∷◌, ◌++◌,
  Result, ok, throw, ◌>>=◌, Text, codes, ◌===◌, ◌==◌, ltb, leb, keep, every, is_empty,
  if◌then◌else◌,
}
use mobydb_render_engine.LabVerify.Json.{
  Json, undefined, null, str, num, arr, obj, Items, nil, cons, Fields, get, prop, is_truthy,
}

-- `getResolution` and `cellToParent(_, 8)` of `window.h3`.
pub record H3 : Type 0 where
  pub get_resolution : Text → Result ℕ
  pub parent_at_8 : Text → Result Text

abbrev pub caught_as : Text → Result Text → Text
caught_as h3id (ok parent) = parent
caught_as h3id (throw e) = h3id

abbrev roll : H3 → Text → Text
roll h3 h3id =
    caught_as h3id
      (h3.get_resolution h3id >>= (λ res. if ltb 8 res then h3.parent_at_8 h3id else ok h3id))

-- `rollupRes8`: `none` is a page without the library.
unfoldable pub rollup_res8 : Option H3 → Text → Text
rollup_res8 none h3id = h3id
rollup_res8 (some h3) [] = []
rollup_res8 (some h3) (c ∷ s) = roll h3 (c ∷ s)

abbrev fields_of : Json → Fields
fields_of (obj fs) = fs
fields_of _ = Fields.end

abbrev or_else : Json → Json → Json
or_else v w = if is_truthy v then v else w

abbrev candidate_of : Json → Json
candidate_of raw =
    let fs = fields_of raw in
    let inner = get (codes "cell_state") fs in
    let nested = get (codes "h3_cell") (fields_of inner) in
    or_else (get (codes "h3_cell") fs)
      (or_else (if is_truthy inner then nested else inner) (or_else (get (codes "id") fs) null))

-- The rolled-up value, which only a text changes; the caller uses it only when it is a text that is
-- not empty.
abbrev used : Option H3 → Json → Option Text
used h3 (str (c ∷ s)) = some (rollup_res8 h3 (c ∷ s))
used h3 _ = none

abbrev direct : Option H3 → Json → Option Text
direct h3 detail = used h3 (get (codes "h3_cell") (fields_of detail))

abbrev from_object : Option H3 → Json → Json → Option Text
from_object h3 detail raw =
    if is_truthy (candidate_of raw) then used h3 (candidate_of raw) else direct h3 detail

abbrev from_cell : Option H3 → Json → Json → Option Text
from_cell h3 detail (str s) = used h3 (str s)
from_cell h3 detail (obj fs) = from_object h3 detail (obj fs)
from_cell h3 detail raw = direct h3 detail

-- `extractCellId` of the event's detail, and the test that follows it in `onAuditOpen`.
unfoldable pub extract_cell_id : Option H3 → Json → Option Text
extract_cell_id h3 detail =
    if is_truthy detail then from_cell h3 detail (get (codes "cell") (fields_of detail)) else none

-- The three quantities of `classifyCell`, computed on doubles: whether one is above a threshold, in
-- thousandths, is a parameter.
pub data Quantity : Type 0 where
  load_frac volt_dev temperature : Quantity

pub data Status : Type 0 where
  status_ok warning critical : Status

pub data Anomaly : Type 0 where
  no_anomaly : Anomaly
  anomaly : (severity : Text) → Anomaly

abbrev pub any_above : (Quantity → ℕ → Bool) → ℕ → ℕ → ℕ → Bool
any_above above load volt temp =
    above load_frac load || above volt_dev volt || above temperature temp

-- `classifyCell`.
unfoldable pub classify_cell : (Quantity → ℕ → Bool) → Anomaly → Status
classify_cell above (anomaly severity) = if severity === codes "critical" then critical else warning
classify_cell above no_anomaly =
    if any_above above 1150 60 60000
    then critical
    else if any_above above 1000 40 55000
    then warning
    else status_ok

-- The overlay: `overlayActive`, whether `refreshTimer` is set, the button, its count, and the layer on
-- the map; the replies that are awaited are the numbers of their calls.
pub record Overlay : Type 0 where
  pub overlay_active : Bool
  pub has_timer : Bool
  pub button_active : Bool
  pub count : Option Text
  pub layer : Option (List Json)
  pub pending : List ℕ
  pub next_call : ℕ

-- What `fetchAllLatest` resolves to, as far as `refreshOverlay` reads it.
pub record Latest : Type 0 where
  pub cells : Option (List Json)
  pub total : Option Text

pub data Event : Type 0 where
  -- The button, the timer, and `mobydbTwin.startOverlay`, `.stopOverlay`, `.refresh`.
  click tick api_start api_stop api_refresh : Event
  settled : (call : ℕ) → Result Latest → Event

-- `refreshOverlay` up to its `await`.
unfoldable pub refresh_overlay : Overlay → Overlay
refresh_overlay o =
    if o.overlay_active
    then record o { pending = o.pending ++ o.next_call ∷ []; next_call = suc o.next_call }
    else o

abbrev pub draw : Option (List Json) → Option Text → Overlay → Overlay
draw none total o = o
draw (some cells) total o = record o { layer = some cells; count = total }

-- `refreshOverlay` after it, on a page that has its map.
unfoldable pub refresh_done : Result Latest → Overlay → Overlay
refresh_done (throw e) o = o
refresh_done (ok data') o = draw data'.cells data'.total o

unfoldable pub start_overlay : Overlay → Overlay
start_overlay o = record (refresh_overlay (record o { overlay_active = true })) { has_timer = true }

unfoldable pub stop_overlay : Overlay → Overlay
stop_overlay o = record o { overlay_active = false; has_timer = false; layer = none; count = none }

abbrev pub is_pending : ℕ → Overlay → Bool
is_pending call o = not (every (λ x. not (x == call)) o.pending)

unfoldable pub handle : Event → Overlay → Overlay
handle click o =
    if o.button_active
    then stop_overlay (record o { button_active = false })
    else start_overlay (record o { button_active = true })
handle tick o = if o.has_timer then refresh_overlay o else o
handle api_start o = start_overlay o
handle api_stop o = stop_overlay o
handle api_refresh o = refresh_overlay o
handle (settled call r) o =
    if is_pending call o
    then refresh_done r (record o { pending = keep (λ x. not (x == call)) o.pending })
    else o

unfoldable pub run : List Event → Overlay → Overlay
run [] o = o
run (e ∷ es) o = run es (handle e o)

-- A feature of the overlay's layer.
pub record Feature : Type 0 where
  pub ring : List Json
  pub h3_cell : Json
  pub status : Status

-- The ring of `buildGeoJSON`: the flipped boundary, closed by its first point; a boundary is
-- not empty.
abbrev pub closed_ring : List Json → List Json
closed_ring [] = []
closed_ring (p ∷ ps) = p ∷ ps ++ p ∷ []

-- `buildGeoJSON`, with the flipped boundary and the thresholds of each cell; `none` is a page without
-- the library.
unfoldable pub build_geo_json :
    Option (Json → List Json)
    → (Json → Quantity → ℕ → Bool)
    → (Json → Anomaly)
    → List Json
    → List Feature
build_geo_json none above anomaly_of cells = []
build_geo_json (some boundary) above anomaly_of [] = []
build_geo_json (some boundary) above anomaly_of (c ∷ cs) =
    record {
      ring = closed_ring (boundary c);
      h3_cell = get (codes "h3_cell") (fields_of c);
      status = classify_cell (above c) (anomaly_of c);
    }
    ∷ build_geo_json (some boundary) above anomaly_of cs

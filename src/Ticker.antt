-- ===== src/Ticker.antt =====
-- demo/ai_observer_ticker.js: the pool of observations, its release one by one, the history, and the
-- typewriter. The delays of the timers, the colours and the markup are not modelled.
mod Tests
pub mod Releases
pub mod Typing
pub mod Page
pub mod Timeline
use mobydb_render_engine.Base.{
  ◌==◌, ℕ, suc, ◌+◌, ◌%◌, Bool, true, false, Option, none, some, List, [], ◌∷◌, ◌++◌, map, Result,
  ok, throw, Text, codes, length, get_elem?, take, drop, leb, is_empty, starts_with, if◌then◌else◌,
}
use mathlib.Core.Option

pub record Observation : Type 0 where
  pub observation_type : Text
  pub text : Text
  pub record_hash : Text
  pub signature : Text
  pub pubkey : Text
  pub chain : List Text
  pub timestamp : Text
  pub model : Text
  pub tokens_in : Text
  pub tokens_out : Text

-- The typewriter: what the node shows, the text it writes, the index `i`, and whether its interval is
-- set.
pub record Typewriter : Type 0 where
  pub shown : Text
  pub full_text : Text
  pub index : ℕ
  pub is_running : Bool

pub record Ticker : Type 0 where
  pub pool : List Observation
  pub cursor : ℕ
  pub history : List Observation
  pub current_obs : Option Observation
  pub typewriter : Typewriter
  pub is_scheduled : Bool

-- `typewriteInto`.
abbrev pub typewrite_into : Text → Typewriter
typewrite_into full_text = record {
  shown = [];
  full_text = full_text;
  index = 0;
  is_running = true;
}

abbrev pub write_unit : Option ℕ → Typewriter → Typewriter
write_unit none w = record w { is_running = false }
write_unit (some c) w = record w { shown = w.shown ++ c ∷ []; index = suc w.index }

-- One run of its interval; past the end it clears the interval.
unfoldable pub type_step : Typewriter → Typewriter
type_step w = if w.is_running then write_unit (get_elem? w.full_text w.index) w else w

-- `renderObservation`.
unfoldable pub render_observation : Observation → Ticker → Ticker
render_observation obs t = record t {
  typewriter = typewrite_into obs.text;
  current_obs = some obs;
  history = take 20 (obs ∷ t.history);
}

-- `state.pool[state.cursor % state.pool.length]`, or nothing for an empty pool.
abbrev pub at_cursor : Ticker → Option Observation
at_cursor t = if is_empty t.pool then none else get_elem? t.pool (t.cursor % length t.pool)

-- `pickNext`: the pick, and the state after it.
unfoldable pub pick_next : Ticker → Option Observation × Ticker
pick_next t = (at_cursor t, if is_empty t.pool then t else record t { cursor = suc t.cursor })

abbrev pub rendered : Option Observation × Ticker → Ticker
rendered (none, t) = t
rendered (some obs, t) = render_observation obs t

-- `releaseOne`, with `scheduleNextRelease`.
unfoldable pub release_one : Ticker → Ticker
release_one t = record (rendered (pick_next t)) { is_scheduled = true }

-- `refreshPool` on the list of observations of the reply; a failure keeps the pool and counts as 0.
unfoldable pub refresh_pool : Result (List Observation) → Ticker → ℕ × Ticker
refresh_pool (throw e) t = (0, t)
refresh_pool (ok fresh) t = (length fresh, record t { pool = fresh })

pub data TickerEvent : Type 0 where
  release type_tick : TickerEvent
  pool_reply : Result (List Observation) → TickerEvent

unfoldable pub handle : TickerEvent → Ticker → Ticker
handle release t = release_one t
handle type_tick t = record t { typewriter = type_step t.typewriter }
handle (pool_reply r) t = (refresh_pool r t).1

unfoldable pub run : List TickerEvent → Ticker → Ticker
run [] t = t
run (e ∷ es) t = run es (handle e t)

-- The entries that `openTimelineModal` lists.
abbrev pub timeline_entries : Ticker → List Observation
timeline_entries t = if is_empty t.history then take 5 t.pool else take 5 t.history

abbrev strip : Text → Text → Text
strip prefix s = if starts_with s prefix then drop (length prefix) s else s

-- The hash, the signature and the key that an entry shows, cut as the source cuts them.
unfoldable pub attested : Observation → Text × Text × Text
attested o = (
  take 24 (strip (codes "blake3:") o.record_hash),
  take 24 (strip (codes "ed25519:") o.signature),
  take 16 o.pubkey,
)

-- What `boot` leaves: the text of an empty pool and a retry, or the first release and the interval
-- that refreshes the pool.
pub record Boot : Type 0 where
  pub ticker : Ticker
  pub is_waiting : Bool
  pub has_retry : Bool
  pub has_refresh : Bool

-- `boot` after its `await`, on the reply of the first refresh.
unfoldable pub boot_ready : Result (List Observation) → Ticker → Boot
boot_ready reply t =
    let refreshed = refresh_pool reply t in
    if refreshed.0 == 0
    then record { ticker = refreshed.1; is_waiting = true; has_retry = true; has_refresh = false }
    else record {
      ticker = release_one refreshed.1;
      is_waiting = false;
      has_retry = false;
      has_refresh = true;
    }

-- ===== src/Ticker/Page.antt =====
-- The page side of demo/ai_observer_ticker.js: boot with its retry, the ticker's element, the timers of
-- the releases and of the border, and the interval that refreshes the pool. Delays are not modelled: a
-- timer that is set may run at any time.
pub mod Boots
use mobydb_render_engine.Base.{
  ℕ, suc, ◌+◌, ◌-◌, Bool, true, false, Option, none, some, List, [], ◌∷◌, Result, ltb, ◌==◌,
  if◌then◌else◌,
}
use mobydb_render_engine.Ticker.{
  Observation, Ticker, typewrite_into, type_step, at_cursor, release_one, refresh_pool, Boot,
  boot_ready,
}

pub record Page : Type 0 where
  pub ticker : Ticker
  pub styles : Bool
  pub elements : ℕ
  -- The border, and the timers that put it back.
  pub fresh : Bool
  pub fresh_timers : ℕ
  pub progress_starts : ℕ
  -- The calls of `boot` that await the pool, and the timers that call it again.
  pub booting : ℕ
  pub retries : ℕ
  pub is_waiting : Bool
  pub refresh_interval : Bool
  pub exposed : Bool

pub data PageEvent : Type 0 where
  -- The answers of `fetchRecent`: to a call of `boot`, and to the interval or `mobydbObserver.refresh`.
  boot_reply : Result (List Observation) → PageEvent
  refresh_reply : Result (List Observation) → PageEvent
  retry_timer release_timer type_timer fresh_timer : PageEvent
  -- `mobydbObserver.release`.
  manual_release : PageEvent

abbrev pub inject_ticker : ℕ → ℕ
inject_ticker n = if n == 0 then 1 else n

-- `boot` up to its `await`.
unfoldable pub boot : Page → Page
boot p = record p { styles = true; elements = inject_ticker p.elements; booting = suc p.booting }

-- What `renderObservation` does to the border.
abbrev pub freshened : Option Observation → Page → Page
freshened none p = p
freshened (some obs) p = record p { fresh = true; fresh_timers = suc p.fresh_timers }

-- `releaseOne`, which starts the progress bar again and sets the next timer.
unfoldable pub release : Page → Page
release p = record (freshened (at_cursor p.ticker) p) {
  ticker = release_one p.ticker;
  progress_starts = suc p.progress_starts;
}

-- What `boot` does after its `await`.
abbrev pub booted : Bool → Ticker → Page → Page
booted true t p = record p { ticker = t; is_waiting = true; retries = suc p.retries }
booted false t p =
    let released = release (record p { ticker = t }) in
    record released { refresh_interval = true; exposed = true }

abbrev pub boot_answered : Result (List Observation) → Page → Page
boot_answered r p = let (n, t) = refresh_pool r p.ticker in booted (n == 0) t p

unfoldable pub on_event : PageEvent → Page → Page
on_event (boot_reply r) p =
    if ltb 0 p.booting then boot_answered r (record p { booting = p.booting - 1 }) else p
on_event (refresh_reply r) p =
    if p.exposed then record p { ticker = (refresh_pool r p.ticker).1 } else p
on_event retry_timer p = if ltb 0 p.retries then boot (record p { retries = p.retries - 1 }) else p
on_event release_timer p = if p.ticker.is_scheduled then release p else p
on_event type_timer p =
    let t = p.ticker in record p { ticker = record t { typewriter = type_step t.typewriter } }
on_event fresh_timer p =
    if ltb 0 p.fresh_timers
    then record p { fresh = false; fresh_timers = p.fresh_timers - 1 }
    else p
on_event manual_release p = if p.exposed then release p else p

unfoldable pub run : List PageEvent → Page → Page
run [] p = p
run (e ∷ es) p = run es (on_event e p)

-- The page before the script.
abbrev pub blank : Page
blank = record {
  ticker = record {
    pool = [];
    cursor = 0;
    history = [];
    current_obs = none;
    typewriter = record { shown = []; full_text = []; index = 0; is_running = false };
    is_scheduled = false;
  };
  styles = false;
  elements = 0;
  fresh = false;
  fresh_timers = 0;
  progress_starts = 0;
  booting = 0;
  retries = 0;
  is_waiting = false;
  refresh_interval = false;
  exposed = false;
}

-- ===== src/Ticker/Tests.antt =====
-- Runs of demo/ai_observer_ticker.js on small inputs.
use mobydb_render_engine.Base.{
  ◌+◌, ◌≡◌, refl, false, none, some, List, [], ◌∷◌, ok, throw, Text, codes, get_elem?, arith,
}
use mobydb_render_engine.Ticker.{
  Observation, Ticker, typewrite_into, TickerEvent, release, type_tick, pool_reply,
}
use mobydb_render_engine.Ticker.Releases.{release_times, release_round}
use mobydb_render_engine.Ticker.Page
use mobydb_render_engine.Ticker.Page.{
  PageEvent, boot_reply, refresh_reply, retry_timer, release_timer, fresh_timer, boot, blank,
}
use mobydb_render_engine.Ticker.Page.Boots.{IsBooting, run-IsBooting}

abbrev saying : Text → Observation
saying s = record {
  observation_type = codes "pattern";
  text = s;
  record_hash = [];
  signature = [];
  pubkey = [];
  chain = [];
  timestamp = [];
  model = [];
  tokens_in = [];
  tokens_out = [];
}

abbrev started : Ticker
started = record {
  pool = saying (codes "one") ∷ saying (codes "two") ∷ saying (codes "three") ∷ [];
  cursor = 2;
  history = [];
  current_obs = none;
  typewriter = typewrite_into [];
  is_scheduled = false;
}

abbrev events : List TickerEvent
events =
    release
    ∷ type_tick
    ∷ pool_reply (throw (codes "HTTP 500"))
    ∷ release
    ∷ pool_reply (ok [])
    ∷ release
    ∷ []

release_round_example :
    let after = release_times 3 started in
    (after.current_obs ≡ some (saying (codes "two")))
    × (after.cursor ≡ 2 + 3)
    × (after.typewriter.full_text ≡ codes "two")
    × (get_elem? after.history 0 ≡ some (saying (codes "two")))
release_round_example = release_round 2 started refl refl

-- The first answer is an error, the second is the pool.
abbrev boots : List PageEvent
boots =
    boot_reply (throw (codes "HTTP 500"))
    ∷ release_timer
    ∷ retry_timer
    ∷ boot_reply (ok started.pool)
    ∷ fresh_timer
    ∷ release_timer
    ∷ refresh_reply (ok [])
    ∷ []

first_boot : IsBooting (boot blank)
unfolding boot
first_boot = record {
  phase = omega arith;
  shows = (refl, refl);
  exposes = refl;
  has_element = refl;
}

run-IsBooting_example : IsBooting (Page.run boots (boot blank))
run-IsBooting_example = run-IsBooting boots (boot blank) first_boot

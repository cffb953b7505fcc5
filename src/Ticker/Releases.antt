-- ===== src/Ticker/Releases.antt =====
-- The order in which demo/ai_observer_ticker.js releases its pool, and the length of its history.
use mobydb_render_engine.Base.{
  ℕ, suc, zero, ◌+◌, ◌%◌, ◌≤◌, ◌≡◌, refl, ap, ◌∙◌, inl, inr, Bool, true, false, Option, none, some,
  List, [], ◌∷◌, Result, ok, throw, length, get_elem?, is_empty, length-take, if◌then◌else◌, arith,
  Bool-cases,
}
use mobydb_render_engine.Ticker.{
  Observation, Ticker, render_observation, at_cursor, pick_next, rendered, release_one,
  refresh_pool, TickerEvent, release, type_tick, pool_reply, handle, run, timeline_entries,
}

-- The history is bounded.
abbrev pub IsBounded : Ticker → Type 0
IsBounded t = length t.history ≤ 20

rendered-IsBounded :
    (o : Option Observation) (t : Ticker) → IsBounded t → IsBounded (rendered (o, t))
unfolding render_observation
rendered-IsBounded none t h = h
rendered-IsBounded (some obs) t h = omega (arith, length-take 20 (obs ∷ t.history))

advance-IsBounded :
    (b : Bool) (t : Ticker)
    → IsBounded t
    → IsBounded (if b then t else record t { cursor = suc t.cursor })
advance-IsBounded true t h = h
advance-IsBounded false t h = h

refresh_pool-IsBounded :
    (r : Result (List Observation)) (t : Ticker) → IsBounded t → IsBounded (refresh_pool r t).1
unfolding refresh_pool
refresh_pool-IsBounded (throw e) t h = h
refresh_pool-IsBounded (ok fresh) t h = h

handle-IsBounded : (e : TickerEvent) (t : Ticker) → IsBounded t → IsBounded (handle e t)
unfolding handle release_one pick_next
handle-IsBounded release t h =
    rendered-IsBounded (at_cursor t) _ (advance-IsBounded (is_empty t.pool) t h)
handle-IsBounded type_tick t h = h
handle-IsBounded (pool_reply r) t h = refresh_pool-IsBounded r t h

timeline_bound : (t : Ticker) → length (timeline_entries t) ≤ 5
timeline_bound t = elim (Bool-cases (is_empty t.history)) [
  | inl e ↦ rw e (omega (arith, length-take 5 t.pool))
  | inr e ↦ rw e (omega (arith, length-take 5 t.history))
]

-- Over any sequence of releases, typewriter steps and pool replies, from a history of at most twenty
-- observations: it still has at most twenty, and the timeline lists at most five.
pub run-IsBounded :
    (es : List TickerEvent) (t : Ticker)
    → IsBounded t
    → IsBounded (run es t) × (length (timeline_entries (run es t)) ≤ 5)
unfolding run
run-IsBounded [] t h = (h, timeline_bound t)
run-IsBounded (e ∷ es) t h = run-IsBounded es (handle e t) (handle-IsBounded e t h)

abbrev pub release_times : ℕ → Ticker → Ticker
release_times zero t = t
release_times (suc k) t = release_one (release_times k t)

rendered-keeps :
    (o : Option Observation) (t : Ticker)
    → ((rendered (o, t)).pool ≡ t.pool) × ((rendered (o, t)).cursor ≡ t.cursor)
unfolding render_observation
rendered-keeps none t = (refl, refl)
rendered-keeps (some obs) t = (refl, refl)

release_one-keeps :
    (t : Ticker)
    → is_empty t.pool ≡ false
    → ((release_one t).pool ≡ t.pool) × ((release_one t).cursor ≡ suc t.cursor)
unfolding release_one pick_next
release_one-keeps t h = rw h (
    rendered-keeps (get_elem? t.pool (t.cursor % length t.pool))
      (record t { cursor = suc t.cursor }))

release_one-shows :
    (t : Ticker) {obs : Observation}
    → is_empty t.pool ≡ false
    → get_elem? t.pool (t.cursor % length t.pool) ≡ some obs
    → ((release_one t).current_obs ≡ some obs)
      × ((release_one t).typewriter.full_text ≡ obs.text)
      × (get_elem? (release_one t).history 0 ≡ some obs)
unfolding release_one pick_next render_observation
release_one-shows t h e = rw (h, e) (refl, refl, refl)

-- The pool stays, and the cursor advances with each release.
release_times-cursor :
    (k : ℕ) (t : Ticker)
    → is_empty t.pool ≡ false
    → ((release_times k t).pool ≡ t.pool) × ((release_times k t).cursor ≡ t.cursor + k)
release_times-cursor zero t h = (refl, omega arith)
release_times-cursor (suc k) t h =
    let (p, c) = release_times-cursor k t h in
    let (p', c') = release_one-keeps (release_times k t) (ap is_empty p ∙ h) in
    (p' ∙ p, omega (arith, c', c))

-- With a pool that is not empty, the release after k releases shows the observation that stands at the
-- initial cursor plus k, modulo the length of the pool: the releases go round the pool in its order.
pub release_round :
    (k : ℕ) (t : Ticker) {obs : Observation}
    → is_empty t.pool ≡ false
    → get_elem? t.pool ((t.cursor + k) % length t.pool) ≡ some obs
    → let after = release_times (suc k) t in
      (after.current_obs ≡ some obs)
      × (after.cursor ≡ t.cursor + suc k)
      × (after.typewriter.full_text ≡ obs.text)
      × (get_elem? after.history 0 ≡ some obs)
release_round k t h e =
    let (p, c) = release_times-cursor k t h in
    let (p', c') = release_times-cursor (suc k) t h in
    let here =
      ap (λ (q : List Observation). get_elem? q ((release_times k t).cursor % length q)) p
      ∙ ap (λ i. get_elem? t.pool (i % length t.pool)) c
      ∙ e in
    let (shown, text, first) = release_one-shows (release_times k t) (ap is_empty p ∙ h) here in
    (shown, c', text, first)

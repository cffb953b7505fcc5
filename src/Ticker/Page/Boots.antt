-- ===== src/Ticker/Page/Boots.antt =====
-- The boot of demo/ai_observer_ticker.js over sequences of events.
use mobydb_render_engine.Base.{
  ℕ, ◌+◌, ◌-◌, ◌≡◌, refl, sym, ◌∙◌, Bool, true, false, Option, none, some, List, [], ◌∷◌, Result,
  ok, throw, ltb, ◌==◌, if-cases, if◌then◌else◌, arith,
}
use mobydb_render_engine.Ticker.{Observation, Ticker, at_cursor, release_one, refresh_pool}
use mobydb_render_engine.Ticker.Page.{
  Page, PageEvent, boot_reply, refresh_reply, retry_timer, release_timer, type_timer, fresh_timer,
  manual_release, boot, freshened, release, booted, on_event, run,
}

-- How far the page is: it awaits the pool, waits to try again, or runs.
abbrev pub Phase : Bool → ℕ → ℕ → Type 0
Phase runs booting retries = booting + retries + (if runs then 1 else 0) ≡ 1

-- Before the page runs it has shown nothing and no release is set; when it runs, the next one is.
abbrev pub Shows : Bool → Ticker → Type 0
Shows true t = t.is_scheduled ≡ true
Shows false t = (t.is_scheduled ≡ false) × (t.history ≡ [])

pub record IsBooting (p : Page) : Type 0 where
  pub phase : Phase p.refresh_interval p.booting p.retries
  pub shows : Shows p.refresh_interval p.ticker
  pub exposes : p.exposed ≡ p.refresh_interval
  pub has_element : p.elements ≡ 1

release-keeps :
    (p : Page)
    → let q = release p in
      (q.refresh_interval ≡ p.refresh_interval)
      × (q.booting ≡ p.booting)
      × (q.retries ≡ p.retries)
      × (q.exposed ≡ p.exposed)
      × (q.elements ≡ p.elements)
      × (q.ticker.is_scheduled ≡ true)
unfolding release release_one
release-keeps p = by_pick (at_cursor p.ticker)
  where
    by_pick :
        (o : Option Observation)
        → let q = freshened o p in
          (q.refresh_interval ≡ p.refresh_interval)
          × (q.booting ≡ p.booting)
          × (q.retries ≡ p.retries)
          × (q.exposed ≡ p.exposed)
          × (q.elements ≡ p.elements)
          × (true ≡ true)
    by_pick none = (refl, refl, refl, refl, refl, refl)
    by_pick (some obs) = (refl, refl, refl, refl, refl, refl)

refresh_pool-keeps :
    (r : Result (List Observation)) (t : Ticker)
    → let u = (refresh_pool r t).1 in (u.is_scheduled ≡ t.is_scheduled) × (u.history ≡ t.history)
unfolding refresh_pool
refresh_pool-keeps (ok fresh) t = (refl, refl)
refresh_pool-keeps (throw e) t = (refl, refl)

-- A page that runs stays booted when it releases.
running-IsBooting : (p : Page) → IsBooting p → p.refresh_interval ≡ true → IsBooting (release p)
running-IsBooting p h r =
    let (a, b, c, d, e, f) = release-keeps p in
    record {
      phase = ground arith;
      shows = ground arith;
      exposes = d ∙ h.exposes ∙ sym a;
      has_element = e ∙ h.has_element;
    }

booted-IsBooting :
    (empty : Bool) (t : Ticker) (p : Page)
    → p.booting + p.retries ≡ 0
    → p.refresh_interval ≡ false
    → p.exposed ≡ false
    → p.elements ≡ 1
    → (t.is_scheduled ≡ false) × (t.history ≡ [])
    → IsBooting (booted empty t p)
booted-IsBooting true t p z i x n s = ground arith
booted-IsBooting false t p z i x n s = ground (arith, release-keeps (record p { ticker = t }))

boot-IsBooting :
    (p : Page)
    → p.booting + p.retries ≡ 0
    → p.refresh_interval ≡ false
    → p.exposed ≡ false
    → p.elements ≡ 1
    → Shows false p.ticker
    → IsBooting (boot p)
unfolding boot
boot-IsBooting p z i x n s = ground arith

-- A counter of the phase that is not 0 is all there is.
only_booting :
    (p : Page)
    → IsBooting p
    → ltb 0 p.booting ≡ true
    → (p.booting - 1 + p.retries ≡ 0) × (p.refresh_interval ≡ false) × (p.exposed ≡ false)
only_booting p h b = ground arith

only_retry :
    (p : Page)
    → IsBooting p
    → ltb 0 p.retries ≡ true
    → (p.booting + (p.retries - 1) ≡ 0) × (p.refresh_interval ≡ false) × (p.exposed ≡ false)
only_retry p h b = ground arith

on_event-IsBooting : (e : PageEvent) (p : Page) → IsBooting p → IsBooting (on_event e p)
unfolding on_event
on_event-IsBooting (boot_reply r) p h =
    if-cases IsBooting (ltb 0 p.booting)
      (λ b.
        let (z, i, x) = only_booting p h b in
        let keeps = refresh_pool-keeps r p.ticker in
        booted-IsBooting ((refresh_pool r p.ticker).0 == 0) (refresh_pool r p.ticker).1
          (record p { booting = p.booting - 1 }) z i x h.has_element
          (ground (arith, h.shows, keeps)))
      (λ b. h)
on_event-IsBooting (refresh_reply r) p h =
    if-cases IsBooting p.exposed (λ x. let keeps = refresh_pool-keeps r p.ticker in ground arith)
      (λ x. h)
on_event-IsBooting retry_timer p h =
    if-cases IsBooting (ltb 0 p.retries)
      (λ b.
        let (z, i, x) = only_retry p h b in
        boot-IsBooting (record p { retries = p.retries - 1 }) z i x h.has_element (ground arith))
      (λ b. h)
on_event-IsBooting release_timer p h =
    if-cases IsBooting p.ticker.is_scheduled (λ s. running-IsBooting p h (ground arith)) (λ s. h)
on_event-IsBooting type_timer p h = ground arith
on_event-IsBooting fresh_timer p h = ground arith
on_event-IsBooting manual_release p h =
    if-cases IsBooting p.exposed (λ x. running-IsBooting p h (ground arith)) (λ x. h)

-- In every order of answers, timers and calls of `mobydbObserver` after the first `boot`: exactly one of
-- a call of `boot` that awaits the pool, a timer that calls it again, and the interval that refreshes the
-- pool is there; with the interval, a next release is set, and before it nothing has been shown.
pub run-IsBooting : (es : List PageEvent) (p : Page) → IsBooting p → IsBooting (run es p)
unfolding run
run-IsBooting [] p h = h
run-IsBooting (e ∷ es) p h = run-IsBooting es (on_event e p) (on_event-IsBooting e p h)

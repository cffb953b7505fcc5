-- ===== src/Bench/Main/Reports.antt =====
-- That scripts/bench/p99.mjs reports, once its calls settle.
use mobydb_render_engine.Base.{
  ℕ, zero, suc, ◌+◌, ◌≤◌, ◌<◌, ◌≡◌, refl, ap, ◌∙◌, Bool, true, false, none, List, [], ◌∷◌, length,
  ltb, leb, ◌==◌, if◌then◌else◌, if-cases, arith,
}
use mobydb_render_engine.Bench.{CallResult, Pool, launch, resolve}
use mobydb_render_engine.Bench.Bounds.{has_room, launch_full}
use mobydb_render_engine.Bench.Report.{Report}
use mobydb_render_engine.Bench.Main.{
  MainEvent, settled, resumed, Outcome, reported, waiting, started, preflight, results, fill,
  on_event, run, is_finished, serial, proceed, main,
}
use mobydb_render_engine.Bench.Main.Ends.{
  count, count-add_result, IsCounted, on_event-IsCounted, run-IsCounted, started-IsCounted,
  IsComplete, main-IsCompleteIf,
}

-- The calls settle one by one, and after each the loop goes on.
abbrev pub paced : List CallResult → List MainEvent
paced [] = []
paced (r ∷ rs) = settled r ∷ resumed ∷ paced rs

results-paced : (rs : List CallResult) → results (paced rs) ≡ rs
results-paced [] = refl
results-paced (r ∷ rs) = ap (λ xs. r ∷ xs) (results-paced rs)

module _ (c i : ℕ) (c_pos : 0 < c) where
  launch-samples : (fuel : ℕ) (p : Pool) → (launch fuel c i p).samples ≡ p.samples
  unfolding launch
  launch-samples zero p = refl
  launch-samples (suc fuel) p =
      if-cases (λ (q : Pool). q.samples ≡ p.samples) (has_room c i p) (λ e. launch-samples fuel _)
        (λ e. refl)

  -- Nothing more can be launched.
  abbrev IsFull : Pool → Type 0
  IsFull p = has_room c i p ≡ false

  settled_count :
      (r : CallResult) (p : Pool) (k : ℕ)
      → IsCounted c i p
      → IsFull p
      → i ≤ count p.samples + suc k
      → i ≤ count (on_event c i (settled r) p).samples + k
  unfolding on_event resolve
  settled_count r p k (h, l) full enough =
      if-cases (λ (q : Pool). i ≤ count q.samples + k) (ltb 0 p.inflight)
        (λ e. omega (arith, count-add_result r p.samples)) (λ e. ground arith)

  resumed_count :
      (p : Pool) (k : ℕ) → i ≤ count p.samples + k → i ≤ count (on_event c i resumed p).samples + k
  unfolding on_event
  resumed_count p k h = rw (launch-samples i p) h

  resumed-IsFull : (p : Pool) → IsFull (on_event c i resumed p)
  unfolding on_event
  resumed-IsFull p = launch_full i c i p (omega arith)

  paced_count :
      (rs : List CallResult) (p : Pool)
      → IsCounted c i p
      → IsFull p
      → i ≤ count p.samples + length rs
      → i ≤ count (run c i (paced rs) p).samples
  unfolding run
  paced_count [] p counted full h = omega arith
  paced_count (r ∷ rs) p counted full h =
      let q = on_event c i (settled r) p in
      paced_count rs (on_event c i resumed q)
        (on_event-IsCounted c i resumed q (on_event-IsCounted c i (settled r) p counted))
        (resumed-IsFull q)
        (resumed_count q (length rs) (settled_count r p (length rs) counted full h))

  counted_finished : (p : Pool) → IsCounted c i p → i ≤ count p.samples → is_finished c i p ≡ true
  counted_finished p (h, l) enough = ground arith

  all_settled :
      (rs : List CallResult)
      → i ≤ length rs
      → is_finished c i (run c i (paced rs) (fill c i started)) ≡ true
  all_settled rs enough =
      counted_finished (run c i (paced rs) (fill c i started))
        (run-IsCounted c i (paced rs) _ (started-IsCounted c i))
        (paced_count rs (fill c i started) (started-IsCounted c i)
          (launch_full i c i started (omega arith)) (omega arith))

  -- The outcome is a report.
  abbrev Reports : Outcome → Type 0
  Reports o = (r : Report) × (o ≡ reported r)

  chosen-Reports : (b : Bool) (r : Report) → b ≡ true → Reports (if b then reported r else waiting)
  chosen-Reports true r h = (r, refl)
  chosen-Reports false r h = ground arith

  serial-Reports :
      (warmup : ℕ) (rs : List CallResult) → i ≤ length rs → Reports (serial c i warmup rs)
  serial-Reports warmup rs enough = chosen-Reports (leb i (length rs)) _ (ground arith)

  proceed-Reports :
      (warmup : ℕ) (rs : List CallResult)
      → i ≤ length rs
      → Reports (proceed c i none warmup (paced rs))
  proceed-Reports warmup rs enough =
      if-cases Reports (c == 1) (λ e. rw (results-paced rs) (serial-Reports warmup rs enough))
        (λ e. chosen-Reports _ _ (all_settled rs enough))

  -- With a concurrency of at least 1, when the first call succeeds and reports the server's time, and at
  -- least as many calls as there are iterations settle, whether they succeed or fail, one by one, with the
  -- loop going on after each: the benchmark reports; its table of the totals is there exactly when a total
  -- is left after the warm-up, its tables of the totals and of the server's times each ascend, and the
  -- kept, the discarded and the failed calls are together as many as the iterations.
  pub main_reports :
      (warmup : ℕ) (first : CallResult) (rs : List CallResult)
      → preflight first ≡ none
      → i ≤ length rs
      → (r : Report) × (main c i warmup first (paced rs) ≡ reported r) × IsComplete c i r
  unfolding main
  main_reports warmup first rs fine enough =
      let (r, e) = proceed-Reports warmup rs enough in
      let outcome : main c i warmup first (paced rs) ≡ reported r =
        ap (λ o. proceed c i o warmup (paced rs)) fine ∙ e in
      (r, outcome, rw outcome at (main-IsCompleteIf c i warmup first (paced rs)))

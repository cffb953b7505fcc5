-- ===== src/Bench/Main/Ends.antt =====
-- What scripts/bench/p99.mjs reports, over every order in which its calls settle, and that it does.
use mobydb_render_engine.Base.{
  ℕ, zero, suc, ◌+◌, ◌≤◌, ◌≡◌, ◌∙◌, Option, none, some, List, [], ◌∷◌, Text, length, take, ltb, leb,
  ◌==◌, Bool-cases, inl, inr, if-cases, and_left, and_right, ltb→lt, length-append, length-take,
  arith,
}
use mobydb_render_engine.Bench.{
  CallResult, called, call_failed, Samples, Pool, add_result, run_all, launch, resolve,
}
use mobydb_render_engine.Bench.Bounds.{has_room}
use mobydb_render_engine.Bench.Report.{Report, report_of}
use mobydb_render_engine.Bench.Report.Order.{IsReported, IsOrdered, report_lem}
use mobydb_render_engine.Bench.Main.{
  MainEvent, settled, resumed, Outcome, exited, waiting, reported, no_samples, started, preflight,
  results, fill, on_event, run, is_finished, serial, concurrent, proceed, main,
}

-- The calls that have settled.
abbrev pub count : Samples → ℕ
count s = length s.totals + length s.errors

pub count-add_result : (r : CallResult) (s : Samples) → count (add_result r s) ≡ suc (count s)
unfolding add_result
count-add_result (called total server) s = grind (arith, length-append s.totals (total ∷ []))
count-add_result (call_failed e) s = grind (arith, length-append s.errors (e ∷ []))

count-run_all : (rs : List CallResult) (s : Samples) → count (run_all rs s) ≡ length rs + count s
unfolding run_all
count-run_all [] s = omega arith
count-run_all (r ∷ rs) s = grind (arith, count-run_all rs (add_result r s), count-add_result r s)

module _ (c i : ℕ) where
  -- Every launched call is in flight or has settled.
  abbrev pub IsCounted : Pool → Type 0
  IsCounted p = (p.launched ≡ p.inflight + count p.samples) × (p.launched ≤ i)

  launch-IsCounted : (fuel : ℕ) (p : Pool) → IsCounted p → IsCounted (launch fuel c i p)
  unfolding launch
  launch-IsCounted zero p h = h
  launch-IsCounted (suc fuel) p (h, k) =
      if-cases IsCounted (has_room c i p)
        (λ e.
          let room = and_right (ltb p.inflight c) (ltb p.launched i) e in
          launch-IsCounted fuel _ (omega arith, ltb→lt p.launched i room))
        (λ e. (h, k))

  pub on_event-IsCounted : (e : MainEvent) (p : Pool) → IsCounted p → IsCounted (on_event c i e p)
  unfolding on_event resolve
  on_event-IsCounted resumed p h = launch-IsCounted i p h
  on_event-IsCounted (settled r) p (h, k) = elim (Bool-cases (ltb 0 p.inflight)) [
    | inl e ↦ rw e (ground (arith, count-add_result r p.samples), k)
    | inr e ↦ rw e (h, k)
  ]

  pub run-IsCounted : (es : List MainEvent) (p : Pool) → IsCounted p → IsCounted (run c i es p)
  unfolding run
  run-IsCounted [] p h = h
  run-IsCounted (e ∷ es) p h = run-IsCounted es (on_event c i e p) (on_event-IsCounted e p h)

  pub started-IsCounted : IsCounted (fill c i started)
  started-IsCounted = launch-IsCounted i started (omega arith, omega arith)

  -- The report has a table of the totals exactly when a total is left after the warm-up, its two tables are
  -- in ascending order, and the kept, the discarded and the failed calls are together the iterations.
  abbrev pub IsComplete : Report → Type 0
  IsComplete r =
      IsReported r.kept r.total × IsOrdered r.server × (r.kept + r.discarded + r.n_errors ≡ i)

  abbrev pub IsCompleteIf : Outcome → Type 0
  IsCompleteIf (exited message) = Unit
  IsCompleteIf waiting = Unit
  IsCompleteIf (reported r) = IsComplete r

  report-IsComplete : (warmup : ℕ) (s : Samples) → count s ≡ i → IsComplete (report_of warmup s)
  report-IsComplete warmup s h =
      let (table, ordered, sum) = report_lem warmup s in (table, ordered, sum ∙ h)

  concurrent-IsCompleteIf :
      (warmup : ℕ) (p : Pool) → IsCounted p → IsCompleteIf (concurrent c i warmup p)
  concurrent-IsCompleteIf warmup p (h, k) =
      if-cases IsCompleteIf (is_finished c i p)
        (λ e.
          let all = and_left (leb i p.launched) (p.inflight == 0) e in
          let idle = and_right (leb i p.launched) (p.inflight == 0) e in
          report-IsComplete warmup p.samples (ground arith))
        (λ e. tt)

  serial-IsCompleteIf : (warmup : ℕ) (rs : List CallResult) → IsCompleteIf (serial c i warmup rs)
  serial-IsCompleteIf warmup rs =
      if-cases IsCompleteIf (leb i (length rs))
        (λ e.
          report-IsComplete warmup _
            (ground (arith, count-run_all (take i rs) no_samples, length-take i rs)))
        (λ e. tt)

  proceed-IsCompleteIf :
      (o : Option Text) (warmup : ℕ) (es : List MainEvent) → IsCompleteIf (proceed c i o warmup es)
  proceed-IsCompleteIf (some message) warmup es = tt
  proceed-IsCompleteIf none warmup es =
      if-cases IsCompleteIf (c == 1) (λ e. serial-IsCompleteIf warmup (results es))
        (λ e. concurrent-IsCompleteIf warmup _ (run-IsCounted es _ started-IsCounted))

  -- Whatever the first call gives, and in whatever order the others settle: if the benchmark reports at
  -- all, its table of the totals is there exactly when a total is left after the warm-up, its tables of the
  -- totals and of the server's times each ascend from the minimum over the percentiles to the maximum, and
  -- the kept, the discarded and the failed
  -- calls are together as many as the iterations.
  pub main-IsCompleteIf :
      (warmup : ℕ) (first : CallResult) (es : List MainEvent)
      → IsCompleteIf (main c i warmup first es)
  unfolding main
  main-IsCompleteIf warmup first es = proceed-IsCompleteIf (preflight first) warmup es

-- ===== src/Bench/Main.antt =====
-- `main` of scripts/bench/p99.mjs: the first call, the serial loop or the pool of calls, and the report.
-- The calls settle in the order of the events; the progress that is printed is not modelled.
pub mod Ends
pub mod Reports
use mobydb_render_engine.Base.{
  ℕ, Bool, ◌&&◌, Option, none, some, List, [], ◌∷◌, ◌++◌, Text, codes, length, take, ltb, leb, ◌==◌,
  if◌then◌else◌,
}
use mobydb_render_engine.Bench.{
  CallResult, called, call_failed, Samples, Pool, run_all, launch, resolve,
}
use mobydb_render_engine.Bench.Report.{Report, report_of}

pub data MainEvent : Type 0 where
  -- A call in flight settles.
  settled : CallResult → MainEvent
  -- The loop goes on after its race.
  resumed : MainEvent

pub data Outcome : Type 0 where
  exited : (message : Text) → Outcome
  waiting : Outcome
  reported : Report → Outcome

abbrev pub no_samples : Samples
no_samples = record { totals = []; servers = []; errors = [] }

abbrev pub started : Pool
started = record { launched = 0; inflight = 0; samples = no_samples }

-- Why the first call ends the program, if it does: it prints the server's time without a test.
unfoldable pub preflight : CallResult → Option Text
preflight (call_failed error) = some (codes "preflight failed: " ++ error)
preflight (called total_ms none) = some (codes "TypeError")
preflight (called total_ms (some server_ms)) = none

-- The results of the calls, in their order.
abbrev pub results : List MainEvent → List CallResult
results [] = []
results (settled r ∷ es) = r ∷ results es
results (resumed ∷ es) = results es

module _ (concurrency iterations : ℕ) where
  abbrev pub fill : Pool → Pool
  fill p = launch iterations concurrency iterations p

  unfoldable pub on_event : MainEvent → Pool → Pool
  on_event (settled r) p = if ltb 0 p.inflight then resolve r p else p
  on_event resumed p = fill p

  unfoldable pub run : List MainEvent → Pool → Pool
  run [] p = p
  run (e ∷ es) p = run es (on_event e p)

  abbrev pub is_finished : Pool → Bool
  is_finished p = leb iterations p.launched && (p.inflight == 0)

  -- The branch for a concurrency of 1.
  abbrev pub serial : ℕ → List CallResult → Outcome
  serial warmup rs =
      if leb iterations (length rs)
      then reported (report_of warmup (run_all (take iterations rs) no_samples))
      else waiting

  -- The other branch.
  abbrev pub concurrent : ℕ → Pool → Outcome
  concurrent warmup p = if is_finished p then reported (report_of warmup p.samples) else waiting

  -- After the first call.
  abbrev pub proceed : Option Text → ℕ → List MainEvent → Outcome
  proceed (some message) warmup es = exited message
  proceed none warmup es =
      if concurrency == 1
      then serial warmup (results es)
      else concurrent warmup (run es (fill started))

  unfoldable pub main : (warmup : ℕ) → (first : CallResult) → List MainEvent → Outcome
  main warmup first es = proceed (preflight first) warmup es

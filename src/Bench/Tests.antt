-- ===== src/Bench/Tests.antt =====
-- Runs of scripts/bench/p99.mjs on small inputs.
use mobydb_render_engine.Base.{List, none, arith, ◌≡◌, refl, some, [], ◌∷◌, pos, codes}
use mobydb_render_engine.Bench.{Samples, percentile}
use mobydb_render_engine.Bench.Report.{Network, Report, report_of}
use mobydb_render_engine.Bench.{CallResult, called, call_failed}
use mobydb_render_engine.Bench.Main.{MainEvent, settled, resumed, reported, main, preflight}
use mobydb_render_engine.Bench.Main.Ends.{IsComplete, IsCompleteIf, main-IsCompleteIf}
use mobydb_render_engine.Bench.Main.Reports.{paced, main_reports}

abbrev samples : Samples
samples = record {
  totals = 90 ∷ 30 ∷ 20 ∷ 50 ∷ [];
  servers = 80 ∷ 10 ∷ 5 ∷ [];
  errors = codes "HTTP 500" ∷ [];
}

abbrev network : Network
network = record { p50 = some (pos 25); p95 = some (pos 40); p99 = some (pos 40) }

reported_network : (report_of 1 samples).network ≡ some network
unfolding report_of percentile
reported_network = refl

abbrev replies : List CallResult
replies = called 30 (some 20) ∷ call_failed (codes "HTTP 500") ∷ called 25 none ∷ []

-- Two calls settle before the loop goes on.
abbrev burst : List MainEvent
burst =
    settled (called 30 (some 20))
    ∷ settled (call_failed (codes "HTTP 500"))
    ∷ resumed
    ∷ settled (called 25 none)
    ∷ []

main-IsCompleteIf_example : IsCompleteIf 2 3 (main 2 3 1 (called 40 (some 9)) burst)
main-IsCompleteIf_example = main-IsCompleteIf 2 3 1 (called 40 (some 9)) burst

answers : preflight (called 40 (some 9)) ≡ none
unfolding preflight
answers = refl

main_reports_example :
    (r : Report) × (main 2 3 1 (called 40 (some 9)) (paced replies) ≡ reported r) × IsComplete 2 3 r
main_reports_example =
    main_reports 2 3 (omega arith) 1 (called 40 (some 9)) replies answers (omega arith)

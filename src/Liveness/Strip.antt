-- ===== src/Liveness/Strip.antt =====
-- The strip of demo/liveness_indicators.js: its state by the age of the last fetch, and `fmtAgo`.
use mobydb_render_engine.Base.{
  ℕ, ◌+◌, ◌-◌, ◌*◌, ◌/◌, ◌≤◌, ◌<◌, ◌≡◌, refl, ◌↔◌, Bool, true, false, some, ltb, ◌==◌, arith,
  Bool-cases, ltb→lt, inl, inr,
}
use mobydb_render_engine.Liveness.{
  live, stale, state_label, Ago, dash, just_now, seconds_ago, minutes_ago, hours_ago, ago_of,
  fmt_ago,
}

-- The strip says live exactly when the backend answered and the last fetch is under half a minute
-- old, and stale exactly when the backend answered and it is two minutes old or more.
pub state_label_lem :
    (now last : ℕ) (backend_ok : Bool)
    → 1 ≤ last
    → ((state_label now backend_ok (some last) ≡ live)
        ↔ ((backend_ok ≡ true) × (now < last + 30000)))
      × ((state_label now backend_ok (some last) ≡ stale)
          ↔ ((backend_ok ≡ true) × (last + 120000 ≤ now)))
unfolding state_label
state_label_lem now last backend_ok h = (ground arith, ground arith)

-- What each form of the text says of the number of seconds.
abbrev pub Says : Ago → ℕ → Type 0
Says dash d = d < 0
Says just_now d = d < 2
Says (seconds_ago s) d = (d ≡ s) × (s < 60)
Says (minutes_ago m s) d = (d ≡ m * 60 + s) × (s < 60) × (1 ≤ m) × (m < 60)
Says (hours_ago h m) d = (h * 3600 + m * 60 ≤ d) × (d < h * 3600 + m * 60 + 60) × (m < 60) × (1 ≤ h)

ago_of-Says : (d : ℕ) → Says (ago_of d) d
ago_of-Says d = elim (Bool-cases (ltb d 2)) [
  | inl a ↦ rw a (ltb→lt d 2 a)
  | inr a ↦ elim (Bool-cases (ltb d 60)) [
    | inl b ↦ rw (a, b) (refl, ltb→lt d 60 b)
    | inr b ↦ elim (Bool-cases (ltb d 3600)) [
      | inl c ↦
          let lt = ltb→lt d 3600 c in
          let ge : 60 ≤ d = ground arith in
          rw (a, b, c) (omega arith, omega arith, omega arith, omega arith)
      | inr c ↦
          let ge : 3600 ≤ d = ground arith in
          rw (a, b, c) (omega arith, omega arith, omega arith, omega arith)
    ]
  ]
]

-- For a time stamp that is not 0, the text gives the elapsed time rounded to seconds: exactly below
-- an hour, and to the whole minutes below from there on.
pub fmt_ago_lem : (now ts : ℕ) → 1 ≤ ts → Says (fmt_ago now (some ts)) ((now - ts + 500) / 1000)
unfolding fmt_ago
fmt_ago_lem now ts h =
    let nonzero : (ts == 0) ≡ false = ground arith in
    rw nonzero (ago_of-Says ((now - ts + 500) / 1000))

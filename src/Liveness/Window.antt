-- ===== src/Liveness/Window.antt =====
-- The window of demo/liveness_indicators.js: what `onCellsEvent` keeps, and what the rate counts.
use mobydb_render_engine.Base.{
  ℕ, ◌+◌, ◌-◌, ◌≤◌, ◌≡◌, refl, sym, ap, ◌∙◌, inl, inr, Bool, true, false, List, [], ◌∷◌, ◌++◌, leb,
  ltb, if◌then◌else◌, keep, keep-append, append_nil, All, All-append, arith, Bool-cases,
}
use mobydb_render_engine.Liveness.{Entry, Log, window_ms, trim, on_cells_event}

-- The entry is no older than the window.
abbrev pub is_recent : ℕ → Entry → Bool
is_recent now e = leb now (e.ts + window_ms)

-- The time stamps do not decrease, and none is later than `now`.
abbrev pub IsOrdered : ℕ → List Entry → Type 0
IsOrdered now [] = Unit
IsOrdered now (e ∷ es) = (e.ts ≤ now) × All (λ f. e.ts ≤ f.ts) es × IsOrdered now es

keep-All_recent :
    (now : ℕ) (es : List Entry)
    → All (λ f. is_recent now f ≡ true) es
    → keep (is_recent now) es ≡ es
keep-All_recent now [] h = refl
keep-All_recent now (e ∷ es) (p, h) = rw (p, keep-All_recent now es h) refl

later_recent :
    (now t : ℕ) (es : List Entry)
    → now ≤ t + window_ms
    → All (λ f. t ≤ f.ts) es
    → All (λ f. is_recent now f ≡ true) es
later_recent now t [] h k = tt
later_recent now t (e ∷ es) h (p, k) = (ground arith, later_recent now t es h k)

trim-keep : (now : ℕ) (es : List Entry) → IsOrdered now es → trim now es ≡ keep (is_recent now) es
unfolding trim
trim-keep now [] h = refl
trim-keep now (e ∷ es) (b, l, h) = elim (Bool-cases (ltb (e.ts + window_ms) now)) [
  | inl old ↦
      let gone : is_recent now e ≡ false = ground arith in rw (old, gone) (trim-keep now es h)
  | inr new ↦
      let kept : is_recent now e ≡ true = ground arith in
      let rest = keep-All_recent now es (later_recent now e.ts es (ground arith) l) in
      rw (new, kept, rest) refl
]

keep-keep :
    (t now : ℕ) (es : List Entry)
    → t ≤ now
    → keep (is_recent now) (keep (is_recent t) es) ≡ keep (is_recent now) es
keep-keep t now [] h = refl
keep-keep t now (e ∷ es) h = elim (Bool-cases (is_recent t e)) [
  | inl k ↦ rw (k, keep-keep t now es h) refl
  | inr k ↦ let gone : is_recent now e ≡ false = ground arith in rw (k, gone) (keep-keep t now es h)
]

IsOrdered-later : (t now : ℕ) (es : List Entry) → t ≤ now → IsOrdered t es → IsOrdered now es
IsOrdered-later t now [] h k = tt
IsOrdered-later t now (e ∷ es) h (b, l, k) = (omega arith, l, IsOrdered-later t now es h k)

All-keep : (P : Entry → Type 0) (p : Entry → Bool) (es : List Entry) → All P es → All P (keep p es)
All-keep P p [] h = tt
All-keep P p (e ∷ es) (q, h) = elim (Bool-cases (p e)) [
  | inl k ↦ rw k (q, All-keep P p es h)
  | inr k ↦ rw k (All-keep P p es h)
]

IsOrdered-keep :
    (now : ℕ) (p : Entry → Bool) (es : List Entry) → IsOrdered now es → IsOrdered now (keep p es)
IsOrdered-keep now p [] h = tt
IsOrdered-keep now p (e ∷ es) (b, l, h) = elim (Bool-cases (p e)) [
  | inl k ↦ rw k (b, All-keep (λ f. e.ts ≤ f.ts) p es l, IsOrdered-keep now p es h)
  | inr k ↦ rw k (IsOrdered-keep now p es h)
]

IsOrdered-push :
    (now delta : ℕ) (es : List Entry)
    → IsOrdered now es
    → IsOrdered now (es ++ record { ts = now; delta = delta } ∷ [])
IsOrdered-push now delta [] h = (omega arith, tt, tt)
IsOrdered-push now delta (e ∷ es) (b, l, h) =
    (b, All-append (λ f. e.ts ≤ f.ts) es _ l (b, tt), IsOrdered-push now delta es h)

-- The entry that an event adds to the history, whatever the window.
abbrev pub pushed : ℕ → ℕ → List Entry
pushed now delta = if ltb 0 delta then record { ts = now; delta = delta } ∷ [] else []

-- The increases of the count over a sequence of events.
abbrev pub increases : ℕ → List (ℕ × ℕ) → List Entry
increases prev [] = []
increases prev ((now, count) ∷ es) = pushed now (count - prev) ++ increases count es

abbrev pub run_events : List (ℕ × ℕ) → Log → Log
run_events [] log = log
run_events ((now, count) ∷ es) log = run_events es (on_cells_event now count log)

-- The clock of the events does not run backwards.
abbrev pub IsMonotone : ℕ → List (ℕ × ℕ) → Type 0
IsMonotone t [] = Unit
IsMonotone t ((now, count) ∷ es) = (t ≤ now) × IsMonotone now es

abbrev pub last_time : ℕ → List (ℕ × ℕ) → ℕ
last_time t [] = t
last_time t ((now, count) ∷ es) = last_time now es

IsOrdered-pushed :
    (now delta : ℕ) (es : List Entry) → IsOrdered now es → IsOrdered now (es ++ pushed now delta)
IsOrdered-pushed now delta es h = elim (Bool-cases (ltb 0 delta)) [
  | inl k ↦ rw k (IsOrdered-push now delta es h)
  | inr k ↦ rw (k, append_nil es) h
]

event_entries :
    (now count : ℕ) (log : Log)
    → (on_cells_event now count log).entries
      ≡ trim now (log.entries ++ pushed now (count - log.prev_cell_count))
unfolding on_cells_event
event_entries now count log = elim (Bool-cases (ltb 0 (count - log.prev_cell_count))) [
  | inl k ↦ rw k refl
  | inr k ↦ rw (k, append_nil log.entries) refl
]

append_assoc : (s t u : List Entry) → (s ++ t) ++ u ≡ s ++ (t ++ u)
append_assoc [] t u = refl
append_assoc (c ∷ s) t u = ap (λ r. c ∷ r) (append_assoc s t u)

event_keeps :
    (t now count : ℕ) (log : Log) (hist : List Entry)
    → t ≤ now
    → IsOrdered t hist
    → log.entries ≡ keep (is_recent t) hist
    → (on_cells_event now count log).entries
      ≡ keep (is_recent now) (hist ++ pushed now (count - log.prev_cell_count))
event_keeps t now count log hist le ordered e =
    let new = pushed now (count - log.prev_cell_count) in
    let before = IsOrdered-keep now (is_recent t) hist (IsOrdered-later t now hist le ordered) in
    event_entries now count log
    ∙ ap (λ es. trim now (es ++ new)) e
    ∙ trim-keep now (keep (is_recent t) hist ++ new)
        (IsOrdered-pushed now (count - log.prev_cell_count) (keep (is_recent t) hist) before)
    ∙ keep-append (is_recent now) (keep (is_recent t) hist) new
    ∙ ap (λ es. es ++ keep (is_recent now) new) (keep-keep t now hist le)
    ∙ sym (keep-append (is_recent now) hist new)

pub event_count :
    (now count : ℕ) (log : Log) → (on_cells_event now count log).prev_cell_count ≡ count
unfolding on_cells_event
event_count now count log = refl

run_keeps :
    (t : ℕ) (es : List (ℕ × ℕ)) (log : Log) (hist : List Entry)
    → IsMonotone t es
    → IsOrdered t hist
    → log.entries ≡ keep (is_recent t) hist
    → (run_events es log).entries
      ≡ keep (is_recent (last_time t es)) (hist ++ increases log.prev_cell_count es)
run_keeps t [] log hist m o e = rw (append_nil hist) e
run_keeps t ((now, count) ∷ es) log hist (le, m) o e =
    let new = pushed now (count - log.prev_cell_count) in
    let later = IsOrdered-later t now hist le o in
    let ih =
      run_keeps now es (on_cells_event now count log) (hist ++ new) m
        (IsOrdered-pushed now (count - log.prev_cell_count) hist later)
        (event_keeps t now count log hist le o e) in
    ih
    ∙ ap (λ c. keep (is_recent (last_time now es)) ((hist ++ new) ++ increases c es))
        (event_count now count log)
    ∙ ap (keep (is_recent (last_time now es))) (append_assoc hist new (increases count es))

-- After any sequence of `cells` events under a clock that does not run backwards, from an empty log:
-- the log holds exactly the increases of the count, with their times, that are no older than the
-- window at the last event.
pub run_events_window :
    (es : List (ℕ × ℕ)) (log : Log)
    → IsMonotone 0 es
    → log.entries ≡ []
    → (run_events es log).entries
      ≡ keep (is_recent (last_time 0 es)) (increases log.prev_cell_count es)
run_events_window es log m e = run_keeps 0 es log [] m tt e

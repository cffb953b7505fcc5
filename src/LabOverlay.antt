-- ===== src/LabOverlay.antt =====
-- demo/lab_overlay.js: the lab section of the audit panel as a transition. A click, the reply of
-- `query_predictions` and the end of `verifyLabRecord` are events; `window.h3`, `localeCompare` and the
-- verifier's answers are parameters or data of the events; markup is not modelled.
pub mod Panel
pub mod Verdict
pub mod Query
mod Tests
use mobydb_render_engine.Base.{
  ℕ, suc, Bool, true, false, not, Option, none, some, List, [], ◌∷◌, ◌++◌, Result, ok, throw, Text,
  codes, ◌===◌, ◌==◌, keep, length, ltb, take, if◌then◌else◌,
}

-- A record of a response, by what the overlay reads before it verifies it.
pub record LabRecord : Type 0 where
  pub signed_at : Text
  pub signer_public_key : Text

-- What the section holds, with the lab cell that it is about.
pub data Section : Type 0 where
  no_section : Section
  loading empty_cell : (cell : Text) → Section
  failed : (cell message : Text) → Section
  verdict : (cell : Text) → LabRecord → (is_ok : Bool) → Section

-- `shortB64u` of a text.
abbrev pub short_b64u : Text → ℕ → Text
short_b64u s n = if ltb n (length s) then take n s ++ codes "…" else s

-- `cost-counter`: its `style.display`, and `costCounterRestoreDisplay`.
pub record Counter : Type 0 where
  pub display : Text
  pub restore : Option Text

-- `toggleCostCounter`.
unfoldable pub toggle_cost_counter : Bool → Counter → Counter
toggle_cost_counter true c = elim c.restore [
  | none ↦ c
  | some display ↦ record { display = display; restore = none }
]
toggle_cost_counter false c = elim c.restore [
  | none ↦ record { display = codes "none"; restore = some c.display }
  | some display ↦ record c { display = codes "none" }
]

abbrev pub Cache : Type 0
Cache = List (Text × List LabRecord)

abbrev pub lookup : Text → Cache → Option (List LabRecord)
lookup k [] = none
lookup k ((j, records) ∷ cache) = if j === k then some records else lookup k cache

pub record Overlay : Type 0 where
  pub next_click : ℕ
  -- The fetches and the verifications that are awaited: the click, and its lab cell.
  pub fetching : List (ℕ × Text)
  pub verifying : List (ℕ × Text × LabRecord)
  pub inflight : Option ℕ
  pub cache : Cache
  pub section : Section
  pub counter : Counter

pub data LabEvent : Type 0 where
  -- `audit-open` with the cell, on a page that has the panel.
  audit_open : Text → LabEvent
  -- A fetch settles, or a verification.
  predictions : (click : ℕ) → Result (List LabRecord) → LabEvent
  verified : (click : ℕ) → Result Bool → LabEvent

-- `attach`.
unfoldable pub attach : Section → Overlay → Overlay
attach section o = record o { section = section; counter = toggle_cost_counter false o.counter }

-- The entry of a click.
abbrev pub find_fetch : ℕ → List (ℕ × Text) → Option Text
find_fetch q [] = none
find_fetch q ((p, cell) ∷ rest) = if p == q then some cell else find_fetch q rest

abbrev pub find_verify : ℕ → List (ℕ × Text × LabRecord) → Option (Text × LabRecord)
find_verify q [] = none
find_verify q ((p, cell, r) ∷ rest) = if p == q then some (cell, r) else find_verify q rest

-- The ancestor that `cellToParent(_, 8)` finds, or the clicked cell.
abbrev walked : Text → Result Text → Text
walked clicked (ok []) = clicked
walked clicked (ok (c ∷ s)) = c ∷ s
walked clicked (throw message) = clicked

abbrev pub lab_cell : Option (Text → Result Text) → Text → Text
lab_cell none clicked = clicked
lab_cell (some cell_to_parent) clicked = walked clicked (cell_to_parent clicked)

-- `is_after`: whether the first of two texts stands after the second for `localeCompare`.
module _ (h3 : Option (Text → Result Text)) (is_after : Text → Text → Bool) where
  -- The first element of the stable sort by `signed_at`, latest first.
  abbrev pub latest : LabRecord → List LabRecord → LabRecord
  latest r [] = r
  latest r (s ∷ rest) = if is_after s.signed_at r.signed_at then latest s rest else latest r rest

  -- From the response on, up to the `await` of the verifier.
  unfoldable pub show_records : ℕ → Text → List LabRecord → Overlay → Overlay
  show_records click cell [] o = attach (empty_cell cell) o
  show_records click cell (r ∷ rest) o = record o {
    verifying = (click, cell, latest r rest) ∷ o.verifying;
  }

  abbrev pub from_cache : Option (List LabRecord) → ℕ → Text → Overlay → Overlay
  from_cache (some records) click cell o = show_records click cell records o
  from_cache none click cell o = attach (loading cell) (record o { fetching = (click, cell) ∷ [] })

  abbrev pub on_predictions : Option Text → ℕ → Result (List LabRecord) → Overlay → Overlay
  on_predictions none click r o = o
  on_predictions (some cell) click (throw message) o =
      attach (failed cell message) (record o { fetching = [] })
  on_predictions (some cell) click (ok records) o =
      show_records click cell records
        (record o { fetching = []; cache = (cell, records) ∷ o.cache })

  abbrev pub on_verified : Option (Text × LabRecord) → ℕ → Result Bool → Overlay → Overlay
  on_verified none click r o = o
  on_verified (some (cell, r)) click (ok is_ok) o = attach (verdict cell r is_ok) o
  on_verified (some (cell, r)) click (throw message) o = attach (failed cell message) o

  -- A click aborts the fetch of the one before; a verification is not aborted.
  unfoldable pub on_event : LabEvent → Overlay → Overlay
  on_event (audit_open clicked) o =
      let cell = lab_cell h3 clicked in
      from_cache (lookup cell o.cache) o.next_click cell
        (record o { next_click = suc o.next_click; inflight = some o.next_click; fetching = [] })
  on_event (predictions click r) o = on_predictions (find_fetch click o.fetching) click r o
  on_event (verified click r) o =
      on_verified (find_verify click o.verifying) click r
        (record o { verifying = keep (λ v. not (v.0 == click)) o.verifying })

  unfoldable pub run : List LabEvent → Overlay → Overlay
  run [] o = o
  run (e ∷ es) o = run es (on_event e o)

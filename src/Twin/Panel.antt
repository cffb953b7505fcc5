-- ===== src/Twin/Panel.antt =====
-- `onAuditOpen` of demo/twin_overlay.js: the section of the audit panel, over every order of replies, on a page that
-- has the panel.
use mobydb_render_engine.Base.{
  ℕ, zero, suc, ◌>>=◌, ◌>>◌, if-both, ◌≡◌, refl, sym, ap, ◌∙◌, inl, inr, Bool, true, false, ◌||◌,
  Option, none, some, List, [], ◌∷◌, ◌++◌, Result, ok, throw, Text, codes, ◌===◌, ===_sound,
  starts_with, if◌then◌else◌, arith, Bool-cases,
}
use mobydb_render_engine.LabVerify.Json.{
  Json, str, arr, obj, Items, nil, cons, Fields, end, get, prop, is_truthy, to_primitive,
}

-- What the section holds; each form carries the cell that it is about.
pub data Section : Type 0 where
  no_section : Section
  loading empty_detail no_twin_data : (cell : Text) → Section
  detail : (cell : Text) → (record' : Json) → Section
  failed : (cell message : Text) → Section

pub record Panel : Type 0 where
  pub inflight_cell : Option Text
  -- The cells of the fetches that have not settled.
  pub fetching : List Text
  pub section : Section

pub data PanelEvent : Type 0 where
  -- `audit-open`, with the cell that `extractCellId` found.
  audit_open : Option Text → PanelEvent
  twin_state : (cell : Text) → Result Json → PanelEvent

-- `s.includes(p)`.
abbrev pub includes : Text → Text → Bool
includes [] p = starts_with [] p
includes (c ∷ s) p = starts_with (c ∷ s) p || includes s p

abbrev fields_of : Json → Fields
fields_of (obj fs) = fs
fields_of _ = end

-- The conversions of properties of the payload.
abbrev pub converted : List Text → Json → Result (Unit {0})
converted [] p = ok tt
converted (k ∷ ks) p = do v ← prop p k; to_primitive v; converted ks p

-- `(v || '').replace(…)`: only a text has the method.
abbrev pub replaced : Json → Result (Unit {0})
replaced (str s) = ok tt
replaced v = if is_truthy v then throw (codes "TypeError") else ok tt

abbrev first_items : ℕ → Items → Items
first_items zero vs = nil
first_items (suc n) nil = nil
first_items (suc n) (cons v vs) = cons v (first_items n vs)

-- `(v || '').slice(0, 12)` in a template: an array has the method too.
abbrev pub sliced : Json → Result (Unit {0})
sliced (arr vs) = to_primitive (arr (first_items 12 vs))
sliced v = replaced v

-- Where `renderTwinDetail` throws; Twin/Detail has the texts that it makes.
unfoldable pub read_detail : Json → Result (Unit {0})
read_detail record' = do
  p ← prop record' (codes "payload")
  anomaly ← prop p (codes "anomaly_active")
  converted
      (if is_truthy anomaly
        then codes "anomaly_severity" ∷ codes "anomaly_type" ∷ codes "anomaly_description" ∷ []
        else codes "load_mw"
          ∷ codes "nominal_load_mw"
          ∷ codes "voltage_kv"
          ∷ codes "voltage_class"
          ∷ [])
      p
  hash ← prop record' (codes "record_hash")
  replaced hash
  signature ← prop record' (codes "signature")
  replaced signature
  pubkey ← prop record' (codes "pubkey")
  sliced pubkey
  converted
      (codes "voltage_kv"
        ∷ codes "current_a"
        ∷ codes "load_mw"
        ∷ codes "nominal_load_mw"
        ∷ codes "temperature_celsius"
        ∷ [])
      p
  h3_cell ← prop record' (codes "h3_cell")
  to_primitive h3_cell

-- The `catch`.
abbrev pub refused : Text → Text → Section
refused cell message =
    if includes message (codes "404") then no_twin_data cell else failed cell message

abbrev pub rendered : Text → Json → Result (Unit {0}) → Section
rendered cell record' (ok u) = detail cell record'
rendered cell record' (throw message) = refused cell message

-- The section that a reply makes.
abbrev pub section_of : Text → Result Json → Section
section_of cell (ok record') =
    if is_truthy (get (codes "h3_cell") (fields_of record'))
    then rendered cell record' (read_detail record')
    else empty_detail cell
section_of cell (throw message) = refused cell message

abbrev pub is_inflight : Option Text → Text → Bool
is_inflight none cell = false
is_inflight (some c) cell = c === cell

-- One fetch of the cell settles.
abbrev pub remove_one : Text → List Text → List Text
remove_one cell [] = []
remove_one cell (c ∷ cs) = if c === cell then cs else c ∷ remove_one cell cs

unfoldable pub on_event : PanelEvent → Panel → Panel
on_event (audit_open none) p = p
on_event (audit_open (some cell)) p = record {
  inflight_cell = some cell;
  fetching = p.fetching ++ cell ∷ [];
  section = loading cell;
}
on_event (twin_state cell r) p =
    let settled = record p { fetching = remove_one cell p.fetching } in
    if is_inflight p.inflight_cell cell
    then record settled { section = section_of cell r }
    else settled

unfoldable pub run_panel : List PanelEvent → Panel → Panel
run_panel [] p = p
run_panel (e ∷ es) p = run_panel es (on_event e p)

abbrev pub cell_of : Section → Option Text
cell_of no_section = none
cell_of (loading cell) = some cell
cell_of (empty_detail cell) = some cell
cell_of (no_twin_data cell) = some cell
cell_of (detail cell record') = some cell
cell_of (failed cell message) = some cell

either_cell :
    (b : Bool) (x y : Section) {cell : Text}
    → cell_of x ≡ some cell
    → cell_of y ≡ some cell
    → cell_of (if b then x else y) ≡ some cell
either_cell true x y h k = h
either_cell false x y h k = k

refused-cell : (cell message : Text) → cell_of (refused cell message) ≡ some cell
refused-cell cell message = either_cell (includes message (codes "404")) _ _ refl refl

rendered-cell :
    (cell : Text) (v : Json) (r : Result (Unit {0})) → cell_of (rendered cell v r) ≡ some cell
rendered-cell cell v (ok u) = refl
rendered-cell cell v (throw message) = refused-cell cell message

pub section_of-cell : (cell : Text) (r : Result Json) → cell_of (section_of cell r) ≡ some cell
section_of-cell cell (ok record') =
    either_cell (is_truthy (get (codes "h3_cell") (fields_of record'))) _ _
      (rendered-cell cell record' (read_detail record')) refl
section_of-cell cell (throw message) = refused-cell cell message

is_inflight_sound : (o : Option Text) (cell : Text) → is_inflight o cell ≡ true → o ≡ some cell
is_inflight_sound none cell h = ground arith
is_inflight_sound (some c) cell h = ap some (===_sound c cell h)

pub on_event-cell :
    (e : PanelEvent) (p : Panel)
    → cell_of p.section ≡ p.inflight_cell
    → cell_of (on_event e p).section ≡ (on_event e p).inflight_cell
unfolding on_event
on_event-cell (audit_open none) p h = h
on_event-cell (audit_open (some cell)) p h = refl
on_event-cell (twin_state cell r) p h = elim (Bool-cases (is_inflight p.inflight_cell cell)) [
  | inl e ↦ rw e (section_of-cell cell r ∙ sym (is_inflight_sound p.inflight_cell cell e))
  | inr e ↦ rw e h
]

-- The cell that was opened last, or the given one.
abbrev pub last_opened : List PanelEvent → Option Text → Option Text
last_opened [] cell = cell
last_opened (audit_open none ∷ es) cell = last_opened es cell
last_opened (audit_open (some c) ∷ es) cell = last_opened es (some c)
last_opened (twin_state c r ∷ es) cell = last_opened es cell

settled_inflight :
    (cell : Text) (r : Result Json) (p : Panel)
    → (on_event (twin_state cell r) p).inflight_cell ≡ p.inflight_cell
unfolding on_event
settled_inflight cell r p =
    if-both (λ (q : Panel). q.inflight_cell ≡ p.inflight_cell) (is_inflight p.inflight_cell cell)
      refl refl

run_panel-inflight :
    (es : List PanelEvent) (p : Panel)
    → (run_panel es p).inflight_cell ≡ last_opened es p.inflight_cell
unfolding run_panel on_event
run_panel-inflight [] p = refl
run_panel-inflight (audit_open none ∷ es) p = run_panel-inflight es p
run_panel-inflight (audit_open (some c) ∷ es) p = run_panel-inflight es _
run_panel-inflight (twin_state c r ∷ es) p =
    run_panel-inflight es (on_event (twin_state c r) p)
    ∙ ap (last_opened es) (settled_inflight c r p)

run_panel-kept :
    (es : List PanelEvent) (p : Panel)
    → cell_of p.section ≡ p.inflight_cell
    → cell_of (run_panel es p).section ≡ (run_panel es p).inflight_cell
unfolding run_panel
run_panel-kept [] p h = h
run_panel-kept (e ∷ es) p h = run_panel-kept es (on_event e p) (on_event-cell e p h)

-- Over any sequence of audit openings and replies, in any order, from a panel whose section is about
-- the cell in flight: the section is about the cell of the last opening that names one, and, if there is
-- none, about the cell that it was about.
pub run_panel-cell :
    (es : List PanelEvent) (p : Panel)
    → cell_of p.section ≡ p.inflight_cell
    → cell_of (run_panel es p).section ≡ last_opened es (cell_of p.section)
run_panel-cell es p h =
    run_panel-kept es p h ∙ run_panel-inflight es p ∙ ap (last_opened es) (sym h)

-- A reply for another cell than the one in flight leaves the section as it is.
pub stale_reply_ignored :
    (cell other : Text) (r : Result Json) (p : Panel)
    → p.inflight_cell ≡ some other
    → (other === cell) ≡ false
    → (on_event (twin_state cell r) p).section ≡ p.section
unfolding on_event
stale_reply_ignored cell other r p h k = rw (h, k) refl

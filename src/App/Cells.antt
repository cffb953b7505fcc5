-- ===== src/App/Cells.antt =====
-- `refreshCells` of demo/app.js as a transition of the page: one event refreshes, one settles a query.
-- The h3 library is a parameter. The times that the server reports are taken to be numbers, so that
-- `updateCostCounter` prints their sum.
pub mod Race
pub mod Typed
use mobydb_render_engine.Base.{
  ℕ, suc, ◌+◌, Bool, true, false, not, Option, none, some, List, [], ◌∷◌, ◌++◌, Result, ok, throw,
  ◌>>=◌, ◌>>◌, ◌&&◌, Text, codes, leb, ◌==◌, keep, every, length, if◌then◌else◌,
}
use mobydb_render_engine.LabVerify.Json.{
  Json, undefined, null, str, num, arr, obj, Items, nil, cons, get, prop, is_truthy, is_undefined,
  to_primitive,
}
use mobydb_render_engine.App.{id_from_h3}
use mobydb_render_engine.App.Mcp.{Script, HttpReply, Answer, read_reply, reply_bytes, or_default}

pub record Feature : Type 0 where
  pub id : ℕ
  pub boundary : Json
  pub h3_cell : Json
  pub epoch_id : Json
  pub load : Json
  pub operator : Json

pub data Hint : Type 0 where
  hidden zoom_in too_large : Hint
  server : Text → Hint

-- The map's source, the shared state and the counters.
pub record Page : Type 0 where
  pub next_query : ℕ
  -- `lastFetchAbort`, and the queries that are neither settled nor aborted.
  pub last_fetch_abort : Option ℕ
  pub pending : List ℕ
  pub current_epoch : ℕ
  pub shown : List Feature
  pub bus_cells : List Json
  pub bus_epoch : ℕ
  pub seen_epochs : List ℕ
  pub cells_fetched : ℕ
  pub bytes_received : ℕ
  pub epochs_touched : List ℕ
  pub hint : Hint
  pub server_error : Option Text

pub data Event : Type 0 where
  -- `moveend`, or the end of a slide, at the zoom of the map.
  refresh : (zoom : ℕ) → Event
  reply : (query : ℕ) → HttpReply → Event
  -- `fetch` rejected, other than by an abort.
  failed : (query : ℕ) → Text → Event
  slide : (epoch : ℕ) → Event

-- `new Set([...set, e])`.
abbrev pub add_to_set : ℕ → List ℕ → List ℕ
add_to_set e es = if every (λ x. not (x == e)) es then es ++ e ∷ [] else es

abbrev pub elements : Items → List Json
elements nil = []
elements (cons r rs) = r ∷ elements rs

-- `inner.cells`; what is not an array throws no later than at `map`.
abbrev pub cells_of : Json → Result (List Json)
cells_of (arr items) = ok (elements items)
cells_of _ = throw (codes "TypeError")

-- `__syncCellsToBus`.
abbrev pub sync_cells_to_bus : List Json → Page → Page
sync_cells_to_bus cells page = record page {
  bus_cells = cells;
  bus_epoch = page.current_epoch;
  seen_epochs = add_to_set page.current_epoch page.seen_epochs;
}

-- `abort()` on the controller of a query that is still pending makes its `await` throw, and the
-- handler of that error returns.
abbrev pub abort : Option ℕ → List ℕ → List ℕ
abort none queries = queries
abort (some q) queries = keep (λ x. not (x == q)) queries

module _ (script : Script) (cell_to_boundary : Json → Result Json) (cell_min_zoom : ℕ)
    (is_viewport_error : Text → Bool) where
  abbrev pub should_query_cells : ℕ → Bool
  should_query_cells zoom = leb cell_min_zoom zoom

  -- `idFromH3` of a value that h3 took for a cell: a value without a length has no units. An element of
  -- an array, or an object with a length, has no `charCodeAt`.
  abbrev pub feature_id : Json → Result ℕ
  feature_id (str s) = ok (id_from_h3 s)
  feature_id undefined = throw (codes "TypeError")
  feature_id null = throw (codes "TypeError")
  feature_id (arr (cons v vs)) = throw (codes "TypeError")
  feature_id (obj fs) = do
    let length' = get (codes "length") fs
    to_primitive length'
    (if not (is_undefined length') && script.above_zero length'
        then throw (codes "TypeError")
        else ok 0)
  feature_id _ = ok 0

  abbrev pub payload_of : Json → Result Json
  payload_of (str s) = script.json_parse (str s)
  payload_of v = ok v

  unfoldable pub feature_of : Json → Result Feature
  feature_of c = do
    h3_cell ← prop c (codes "h3_cell")
    boundary ← cell_to_boundary h3_cell
    raw ← prop c (codes "payload")
    payload ← payload_of raw
    id ← feature_id h3_cell
    epoch_id ← prop c (codes "epoch_id")
    value ← prop payload (codes "value")
    operator ← prop payload (codes "operator")
    ok (record {
      id = id;
      boundary = boundary;
      h3_cell = h3_cell;
      epoch_id = epoch_id;
      load = or_default value (num (codes "0.5"));
      operator = if is_truthy operator then operator else str [];
    })

  -- `inner.cells.map(…)`.
  unfoldable pub features_of : List Json → Result (List Feature)
  features_of [] = ok []
  features_of (c ∷ cs) = do f ← feature_of c; fs ← features_of cs; ok (f ∷ fs)

  -- The part of `refreshCells` before its `await`.
  unfoldable pub refresh_cells : ℕ → Page → Page
  refresh_cells zoom page =
      if should_query_cells zoom
      then record page {
        next_query = suc page.next_query;
        last_fetch_abort = some page.next_query;
        pending = abort page.last_fetch_abort page.pending ++ page.next_query ∷ [];
        hint = hidden;
      }
      else record (sync_cells_to_bus [] page) { shown = []; hint = zoom_in }

  -- The `catch`.
  unfoldable pub refresh_failed : Text → Page → Page
  refresh_failed message page =
      let cleared = record (sync_cells_to_bus [] page) { shown = [] } in
      if is_viewport_error message
      then record cleared { hint = too_large }
      else record cleared { hint = server message; server_error = some message }

  abbrev pub draw : List Json → Result (List Feature) → Page → Page
  draw cells (throw message) page = refresh_failed message page
  draw cells (ok features) page = record (sync_cells_to_bus cells page) { shown = features }

  -- The rest of the `try`, from the cells of the answer on.
  unfoldable pub show_cells : Result (List Json) → Page → Page
  show_cells (throw message) page = refresh_failed message page
  show_cells (ok cells) page = draw cells (features_of cells) (record page {
    cells_fetched = page.cells_fetched + length cells;
    epochs_touched = add_to_set page.current_epoch page.epochs_touched;
  })

  abbrev pub answered_cells : Result Answer → Result (List Json)
  answered_cells answer = do a ← answer; cells ← prop a.inner (codes "cells"); cells_of cells

  unfoldable pub receive : HttpReply → Page → Page
  receive r page =
      show_cells (answered_cells (read_reply script r))
        (record page { bytes_received = page.bytes_received + reply_bytes r })

  abbrev pub is_pending : ℕ → Page → Bool
  is_pending q page = not (every (λ x. not (x == q)) page.pending)

  abbrev pub settle : ℕ → Page → Page
  settle q page = record page { pending = keep (λ x. not (x == q)) page.pending }

  unfoldable pub handle : Event → Page → Page
  handle (refresh zoom) page = refresh_cells zoom page
  handle (reply q r) page = if is_pending q page then receive r (settle q page) else page
  handle (failed q message) page =
      if is_pending q page then refresh_failed message (settle q page) else page
  handle (slide epoch) page = record page { current_epoch = epoch }

  unfoldable pub run : List Event → Page → Page
  run [] page = page
  run (e ∷ es) page = run es (handle e page)

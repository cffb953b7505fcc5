-- ===== src/Tile/Modal.antt =====
-- The modal of demo/lab_tile_preview.js: buildModal, its loading pipeline, closeModal and the cache of
-- catalogue items, as a function of what the user does and of the replies.
pub mod Closing
use mobydb_render_engine.Base.{
  ℕ, suc, Bool, true, false, not, ◌&&◌, Option, none, some, List, [], ◌∷◌, map, Result, ok, throw,
  Text, codes, ◌===◌, ◌==◌, keep, take, if◌then◌else◌,
}
use mobydb_render_engine.App.{escape_html}

-- What a catalogue item says: the thumbnail, and the ring of the scene.
pub record StacItem : Type 0 where
  pub thumb_href : Option Text
  pub ring : List (Text × Text)

-- What the modal reads of a record; an absent field is none.
pub record LabRecord : Type 0 where
  pub stac_item_id : Option Text
  pub h3_cell : Option Text

-- Where the pipeline of a modal stands.
pub data Stage : Type 0 where
  fetching_stac : (stac_id cell : Text) → Stage
  loading_thumbnail : (corners : List (Text × Text)) → (cell : Text) → Stage
  drawn : (corners : List (Text × Text)) → (cell : Text) → Stage
  failed : (message : Text) → Stage
  -- An AbortError: the pipeline ends silently.
  aborted : Stage

pub record Preview : Type 0 where
  pub id : ℕ
  pub stage : Stage

pub record Page : Type 0 where
  -- `openModal`.
  pub open_modal : Option ℕ
  -- The modals in the document.
  pub roots : List ℕ
  -- `onKey` is one function, so the document has it once or not at all.
  pub key_listener : Bool
  pub previews : List Preview
  pub item_cache : List (Text × StacItem)
  pub next_id : ℕ

pub data TileEvent : Type 0 where
  -- A click on the button of a record.
  build_modal : LabRecord → TileEvent
  -- The button CLOSE, a click outside the card, or Escape.
  close_click escape : TileEvent
  -- `fetch` of the item settles; so does the image.
  stac_reply : (id : ℕ) → Result StacItem → TileEvent
  image_reply : (id : ℕ) → Result (Unit {0}) → TileEvent

abbrev pub lookup : Text → List (Text × StacItem) → Option StacItem
lookup key [] = none
lookup key ((k, item) ∷ rest) = if k === key then some item else lookup key rest

abbrev is_missing : Option Text → Bool
is_missing none = true
is_missing (some []) = true
is_missing (some (c ∷ s)) = false

-- The pipeline after the item is there. A thumbnail that is empty is missing.
abbrev pub with_item : StacItem → Text → Stage
with_item item cell =
    if is_missing item.thumb_href
    then failed (codes "no thumbnail asset on item")
    else loading_thumbnail (take 4 item.ring) cell

abbrev from_cache : Option StacItem → Text → Text → Stage
from_cache none stac_id cell = fetching_stac stac_id cell
from_cache (some item) stac_id cell = with_item item cell

abbrev text_or_empty : Option Text → Text
text_or_empty none = []
text_or_empty (some s) = s

-- The pipeline up to its first real wait.
abbrev pub first_stage : List (Text × StacItem) → LabRecord → Stage
first_stage cache r =
    let stac_id = text_or_empty r.stac_item_id in
    if is_missing r.stac_item_id
    then failed (codes "no stac_item_id on record")
    else if is_missing r.h3_cell
    then failed (codes "no h3_cell on record")
    else from_cache (lookup stac_id cache) stac_id (text_or_empty r.h3_cell)

-- What an abort makes of a pipeline: `fetch` throws an AbortError, which is passed over; the image
-- throws another error, whose message is shown.
abbrev pub abort_stage : Stage → Stage
abort_stage (fetching_stac stac_id cell) = aborted
abort_stage (loading_thumbnail corners cell) = failed (codes "aborted")
abort_stage s = s

abbrev pub change : ℕ → (Stage → Stage) → List Preview → List Preview
change id f = map (λ p. if p.id == id then record p { stage = f p.stage } else p)

abbrev pub closed_modal : Option ℕ → Page → Page
closed_modal none p = p
closed_modal (some id) p = record p {
  open_modal = none;
  roots = keep (λ root. not (root == id)) p.roots;
  key_listener = false;
  previews = change id abort_stage p.previews;
}

unfoldable pub close_modal : Page → Page
close_modal p = closed_modal p.open_modal p

abbrev pub answered : Result StacItem → Stage → Stage
answered (ok item) (fetching_stac stac_id cell) = with_item item cell
answered (throw message) (fetching_stac stac_id cell) = failed (escape_html message)
answered r s = s

abbrev pub loaded : Result (Unit {0}) → Stage → Stage
loaded (ok image) (loading_thumbnail corners cell) = drawn corners cell
loaded (throw message) (loading_thumbnail corners cell) = failed (escape_html message)
loaded r s = s

-- The id that a modal fetches.
abbrev fetched_id : Stage → Option Text
fetched_id (fetching_stac stac_id cell) = some stac_id
fetched_id s = none

abbrev pub stage_of : ℕ → List Preview → Stage
stage_of id [] = aborted
stage_of id (p ∷ ps) = if p.id == id then p.stage else stage_of id ps

-- `itemCache.set`.
abbrev cached : Option Text → Result StacItem → List (Text × StacItem) → List (Text × StacItem)
cached (some stac_id) (ok item) cache = (stac_id, item) ∷ cache
cached o r cache = cache

unfoldable pub on_event : TileEvent → Page → Page
on_event (build_modal r) p =
    let q = close_modal p in
    record q {
      open_modal = some q.next_id;
      roots = q.next_id ∷ q.roots;
      key_listener = true;
      previews = record { id = q.next_id; stage = first_stage q.item_cache r } ∷ q.previews;
      next_id = suc q.next_id;
    }
on_event close_click p = close_modal p
on_event escape p = if p.key_listener then close_modal p else p
on_event (stac_reply id r) p = record p {
  previews = change id (answered r) p.previews;
  item_cache = cached (fetched_id (stage_of id p.previews)) r p.item_cache;
}
on_event (image_reply id r) p = record p { previews = change id (loaded r) p.previews }

unfoldable pub run : List TileEvent → Page → Page
run [] p = p
run (e ∷ es) p = run es (on_event e p)

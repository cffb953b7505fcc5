-- ===== src/Tile/Modal/Closing.antt =====
-- The modal of demo/lab_tile_preview.js over sequences of events: there is at most one, and only the
-- open one waits for a reply.
use mobydb_render_engine.Base.{
  ℕ, ◌≡◌, refl, ap, inl, inr, Bool, true, false, not, ◌||◌, Option, none, some, List, [], ◌∷◌,
  Result, ok, throw, ◌==◌, ==_iff, All, if-both, if-cases, Bool-cases, if◌then◌else◌, arith,
}
use mobydb_render_engine.Tile.Modal.{
  StacItem, Stage, fetching_stac, loading_thumbnail, drawn, failed, aborted, Preview, Page,
  TileEvent, build_modal, close_click, escape, stac_reply, image_reply, abort_stage, change,
  closed_modal, close_modal, answered, loaded, first_stage, on_event, run,
}

-- The document has the open modal and its key listener, or neither.
abbrev pub IsShown : Option ℕ → List ℕ → Bool → Type 0
IsShown none roots listener = (roots ≡ []) × (listener ≡ false)
IsShown (some id) roots listener = (roots ≡ id ∷ []) × (listener ≡ true)

abbrev pub IsOneModal : Page → Type 0
IsOneModal p = IsShown p.open_modal p.roots p.key_listener

-- A pipeline that a reply would change.
abbrev pub is_waiting : Stage → Bool
is_waiting (fetching_stac stac_id cell) = true
is_waiting (loading_thumbnail corners cell) = true
is_waiting (drawn corners cell) = false
is_waiting (failed message) = false
is_waiting aborted = false

abbrev pub is_open : Option ℕ → ℕ → Bool
is_open none id = false
is_open (some o) id = id == o

abbrev pub IsSettled : Option ℕ → Preview → Type 0
IsSettled o q = (not (is_waiting q.stage) || is_open o q.id) ≡ true

abbrev pub OnlyOpenWaits : Page → Type 0
OnlyOpenWaits p = All (IsSettled p.open_modal) p.previews

-- Nothing is open.
abbrev pub IsClosed : Page → Type 0
IsClosed p = (p.open_modal ≡ none) × (p.roots ≡ []) × (p.key_listener ≡ false)

closed_modal-IsClosed :
    (o : Option ℕ) (p : Page)
    → p.open_modal ≡ o
    → IsShown o p.roots p.key_listener
    → IsClosed (closed_modal o p)
closed_modal-IsClosed none p e h = (e, h.0, h.1)
closed_modal-IsClosed (some id) p e h =
    let same : (id == id) ≡ true = (==_iff id id).1 refl in rw (h.0, same) (refl, refl, refl)

close_modal-IsClosed : (p : Page) → IsOneModal p → IsClosed (close_modal p)
unfolding close_modal
close_modal-IsClosed p h = closed_modal-IsClosed p.open_modal p refl h

IsClosed-IsOneModal : (p : Page) → IsClosed p → IsOneModal p
IsClosed-IsOneModal p (e, roots, listener) = rw e (roots, listener)

on_event-IsOneModal : (e : TileEvent) (p : Page) → IsOneModal p → IsOneModal (on_event e p)
unfolding on_event
on_event-IsOneModal (build_modal r) p h =
    let (e, roots, listener) = close_modal-IsClosed p h in
    (ap (λ r. (close_modal p).next_id ∷ r) roots, refl)
on_event-IsOneModal close_click p h = IsClosed-IsOneModal (close_modal p) (close_modal-IsClosed p h)
on_event-IsOneModal escape p h =
    if-both IsOneModal p.key_listener
      (IsClosed-IsOneModal (close_modal p) (close_modal-IsClosed p h)) h
on_event-IsOneModal (stac_reply id r) p h = h
on_event-IsOneModal (image_reply id r) p h = h

run-IsOneModal : (es : List TileEvent) (p : Page) → IsOneModal p → IsOneModal (run es p)
unfolding run
run-IsOneModal [] p h = h
run-IsOneModal (e ∷ es) p h = run-IsOneModal es (on_event e p) (on_event-IsOneModal e p h)

escape_cases :
    (o : Option ℕ) (p : Page)
    → p.open_modal ≡ o
    → IsShown o p.roots p.key_listener
    → IsClosed (on_event escape p)
unfolding on_event close_modal
escape_cases none p e h = rw h.1 (e, h.0, refl)
escape_cases (some id) p e h = rw (h.1, e) (closed_modal-IsClosed (some id) p e h)

-- An abort ends a pipeline.
abort_settled : (s : Stage) → is_waiting (abort_stage s) ≡ false
abort_settled (fetching_stac stac_id cell) = refl
abort_settled (loading_thumbnail corners cell) = refl
abort_settled (drawn corners cell) = refl
abort_settled (failed message) = refl
abort_settled aborted = refl

abort_one :
    (id : ℕ) (q : Preview)
    → IsSettled (some id) q
    → IsSettled none (if q.id == id then record q { stage = abort_stage q.stage } else q)
abort_one id q h =
    if-cases (IsSettled none) (q.id == id) (λ e. rw (abort_settled q.stage) refl)
      (λ e. ground arith)

abort-All :
    (id : ℕ) (qs : List Preview)
    → All (IsSettled (some id)) qs
    → All (IsSettled none) (change id abort_stage qs)
abort-All id [] h = tt
abort-All id (q ∷ qs) (h, hs) = (abort_one id q h, abort-All id qs hs)

closed_modal-IsSettled :
    (o : Option ℕ) (p : Page)
    → All (IsSettled o) p.previews
    → All (IsSettled none) (closed_modal o p).previews
closed_modal-IsSettled none p h = h
closed_modal-IsSettled (some id) p h = abort-All id p.previews h

-- What has ended does not wait, whatever is open.
IsSettled-weaken :
    (o : Option ℕ) (qs : List Preview) → All (IsSettled none) qs → All (IsSettled o) qs
IsSettled-weaken o [] h = tt
IsSettled-weaken o (q ∷ qs) (h, hs) = (ground arith, IsSettled-weaken o qs hs)

-- A reply makes nothing wait that did not.
abbrev Settles : (Stage → Stage) → Type 0
Settles f = (s : Stage) → is_waiting s ≡ false → is_waiting (f s) ≡ false

answered-Settles : (r : Result StacItem) → Settles (answered r)
answered-Settles (ok item) (drawn corners cell) h = refl
answered-Settles (ok item) (failed message) h = refl
answered-Settles (ok item) aborted h = refl
answered-Settles (throw m) (drawn corners cell) h = refl
answered-Settles (throw m) (failed message) h = refl
answered-Settles (throw m) aborted h = refl
answered-Settles r (fetching_stac stac_id cell) h = ground arith
answered-Settles r (loading_thumbnail corners cell) h = ground arith

loaded-Settles : (r : Result (Unit {0})) → Settles (loaded r)
loaded-Settles (ok u) (drawn corners cell) h = refl
loaded-Settles (ok u) (failed message) h = refl
loaded-Settles (ok u) aborted h = refl
loaded-Settles (throw m) (drawn corners cell) h = refl
loaded-Settles (throw m) (failed message) h = refl
loaded-Settles (throw m) aborted h = refl
loaded-Settles r (fetching_stac stac_id cell) h = ground arith
loaded-Settles r (loading_thumbnail corners cell) h = ground arith

change-IsSettled :
    (o : Option ℕ) (id : ℕ) (f : Stage → Stage) (qs : List Preview)
    → Settles f
    → All (IsSettled o) qs
    → All (IsSettled o) (change id f qs)
change-IsSettled o id f [] k h = tt
change-IsSettled o id f (q ∷ qs) k (h, hs) = (
  if-both (IsSettled o) (q.id == id)
      (elim (Bool-cases (is_waiting q.stage)) [
        | inl e ↦ ground arith
        | inr e ↦ rw (k q.stage e) refl
      ])
      h,
  change-IsSettled o id f qs k hs,
)

or_true : (b : Bool) → (b || true) ≡ true
or_true true = refl
or_true false = refl

closes_settled :
    (o : Option ℕ) (p : Page)
    → p.open_modal ≡ o
    → All (IsSettled o) p.previews
    → OnlyOpenWaits (closed_modal o p)
closes_settled none p e h = rw e h
closes_settled (some id) p e h = abort-All id p.previews h

close_modal-OnlyOpenWaits : (p : Page) → OnlyOpenWaits p → OnlyOpenWaits (close_modal p)
unfolding close_modal
close_modal-OnlyOpenWaits p h = closes_settled p.open_modal p refl h

on_event-OnlyOpenWaits : (e : TileEvent) (p : Page) → OnlyOpenWaits p → OnlyOpenWaits (on_event e p)
unfolding on_event close_modal
on_event-OnlyOpenWaits (build_modal r) p h =
    let q = close_modal p in
    let same : (q.next_id == q.next_id) ≡ true = (==_iff q.next_id q.next_id).1 refl in
    let new : IsSettled (some q.next_id)
        (record { id = q.next_id; stage = first_stage q.item_cache r }) =
      rw same (or_true (not (is_waiting (first_stage q.item_cache r)))) in
    (new, IsSettled-weaken (some q.next_id) q.previews (closed_modal-IsSettled p.open_modal p h))
on_event-OnlyOpenWaits close_click p h = close_modal-OnlyOpenWaits p h
on_event-OnlyOpenWaits escape p h =
    if-both OnlyOpenWaits p.key_listener (close_modal-OnlyOpenWaits p h) h
on_event-OnlyOpenWaits (stac_reply id r) p h =
    change-IsSettled p.open_modal id (answered r) p.previews (answered-Settles r) h
on_event-OnlyOpenWaits (image_reply id r) p h =
    change-IsSettled p.open_modal id (loaded r) p.previews (loaded-Settles r) h

run-OnlyOpenWaits : (es : List TileEvent) (p : Page) → OnlyOpenWaits p → OnlyOpenWaits (run es p)
unfolding run
run-OnlyOpenWaits [] p h = h
run-OnlyOpenWaits (e ∷ es) p h = run-OnlyOpenWaits es (on_event e p) (on_event-OnlyOpenWaits e p h)

-- Over any sequence of clicks, keys and replies, from a page that holds the open modal and its key
-- listener or neither, and where no closed preview waits: so it stays, only the open preview waits for
-- a catalogue item or an image, so that no reply changes a closed one, and Escape leaves nothing open.
pub one_open_preview :
    (es : List TileEvent) (p : Page)
    → IsOneModal p
    → OnlyOpenWaits p
    → IsOneModal (run es p) × OnlyOpenWaits (run es p) × IsClosed (on_event escape (run es p))
one_open_preview es p h k =
    let one = run-IsOneModal es p h in
    (one, run-OnlyOpenWaits es p k, escape_cases (run es p).open_modal (run es p) refl one)

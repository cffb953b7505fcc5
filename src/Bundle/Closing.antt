-- ===== src/Bundle/Closing.antt =====
-- The modals of demo/compliance_button.js over sequences of events: at most one is on the page, the key
-- Escape closes it, and what keeps listening.
use mobydb_render_engine.Backdrops.{
  IsListening, is_listening_last, without-IsListening, without_both-IsListening, kept_none,
  length-IsListening,
}
use mobydb_render_engine.Base.{
  ℕ, zero, suc, ◌+◌, ◌≤◌, ◌≡◌, refl, List, [], ◌∷◌, Text, length, length-append, if-both, arith,
}
use mobydb_render_engine.Bundle.Modal.{
  Page, ModalEvent, open_modal, escape, bundle_reply, backdrop_click, close_click, download_click,
  pdf_reply, reset_timer, on_event, run, shows_dashboard,
}

abbrev pub IsClosable : Page → Type 0
IsClosable p = IsListening p.backdrops p.listeners

-- The user opens a modal and closes it by a click outside, n times.
abbrev pub opened_and_left : ℕ → ℕ → List ModalEvent
opened_and_left zero id = []
opened_and_left (suc n) id = open_modal ∷ backdrop_click id ∷ opened_and_left n (suc id)

module _ (to_fixed to_locale fmt_iso_short : Text → Text) where
  on_event-IsClosable :
      (e : ModalEvent) (p : Page)
      → IsClosable p
      → IsClosable (on_event to_fixed to_locale fmt_iso_short e p)
  unfolding on_event
  on_event-IsClosable open_modal p h = is_listening_last p.next_id p.listeners
  on_event-IsClosable escape p h = rw (kept_none p.backdrops p.listeners h) tt
  on_event-IsClosable (bundle_reply id r) p h = h
  on_event-IsClosable (backdrop_click id) p h = without-IsListening id p.backdrops p.listeners h
  on_event-IsClosable (close_click id) p h =
      if-both IsClosable (shows_dashboard id p.modals)
        (without_both-IsListening id p.backdrops p.listeners h)
        (without-IsListening id p.backdrops p.listeners h)
  on_event-IsClosable (download_click id) p h = h
  on_event-IsClosable (pdf_reply id r) p h = h
  on_event-IsClosable (reset_timer id) p h = h

  pub run-IsClosable :
      (es : List ModalEvent) (p : Page)
      → IsClosable p
      → IsClosable (run to_fixed to_locale fmt_iso_short es p)
  unfolding run
  run-IsClosable [] p h = h
  run-IsClosable (e ∷ es) p h = run-IsClosable es _ (on_event-IsClosable e p h)

  -- Whatever the number formats print: over any sequence of openings, replies, clicks and timers, from
  -- a page with no backdrop or with one whose key listener is there: at most one backdrop is on the
  -- page, and Escape then leaves no backdrop and no key listener.
  pub escape_closes :
      (es : List ModalEvent) (p : Page)
      → IsClosable p
      → let after = run to_fixed to_locale fmt_iso_short es p in
        let closed = on_event to_fixed to_locale fmt_iso_short escape after in
        (length after.backdrops ≤ 1) × (closed.backdrops ≡ []) × (closed.listeners ≡ [])
  unfolding on_event
  escape_closes es p h =
      let after = run to_fixed to_locale fmt_iso_short es p in
      let k = run-IsClosable es p h in
      (
        length-IsListening after.backdrops after.listeners k,
        kept_none after.backdrops after.listeners k,
        refl,
      )

  -- Whatever the number formats print: n modals opened and closed one after the other by a click
  -- outside leave n more key listeners on the document.
  pub opened_and_left_lem :
      (n : ℕ) (p : Page)
      → length (run to_fixed to_locale fmt_iso_short (opened_and_left n p.next_id) p).listeners
        ≡ length p.listeners + n
  unfolding run on_event
  opened_and_left_lem zero p = omega arith
  opened_and_left_lem (suc n) p =
      let next =
        on_event to_fixed to_locale fmt_iso_short (backdrop_click p.next_id)
          (on_event to_fixed to_locale fmt_iso_short open_modal p) in
      omega (arith, opened_and_left_lem n next, length-append p.listeners (p.next_id ∷ []))

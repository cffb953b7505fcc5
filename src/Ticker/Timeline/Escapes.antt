-- ===== src/Ticker/Timeline/Escapes.antt =====
-- The timeline of demo/ai_observer_ticker.js over sequences of events.
use mobydb_render_engine.Base.{◌≤◌, ◌≡◌, refl, List, [], ◌∷◌, Text, length}
use mobydb_render_engine.Backdrops.{
  IsListening, is_listening_last, without-IsListening, kept_none, length-IsListening,
}
use mobydb_render_engine.Ticker.Timeline.{
  Timeline, TimelineEvent, click_ticker, close_click, backdrop_click, escape, open_timeline_modal,
  on_event, run,
}

abbrev pub IsClosable : Timeline → Type 0
IsClosable m = IsListening m.backdrops m.listeners

module _ (fmt_time : Text → Text) where
  on_event-IsClosable :
      (e : TimelineEvent) (m : Timeline) → IsClosable m → IsClosable (on_event fmt_time e m)
  unfolding on_event open_timeline_modal
  on_event-IsClosable (click_ticker t) m h = is_listening_last m.next_id m.listeners
  on_event-IsClosable (close_click id) m h = without-IsListening id m.backdrops m.listeners h
  on_event-IsClosable (backdrop_click id) m h = without-IsListening id m.backdrops m.listeners h
  on_event-IsClosable escape m h = rw (kept_none m.backdrops m.listeners h) tt

  run-IsClosable :
      (es : List TimelineEvent) (m : Timeline) → IsClosable m → IsClosable (run fmt_time es m)
  unfolding run
  run-IsClosable [] m h = h
  run-IsClosable (e ∷ es) m h = run-IsClosable es _ (on_event-IsClosable e m h)

  -- Over any sequence of clicks and keys, from a page without a timeline or with one whose key listener
  -- is there: at most one timeline is on the page, and Escape then leaves none and no key listener.
  pub escape_closes_timeline :
      (es : List TimelineEvent) (m : Timeline)
      → IsClosable m
      → let after = run fmt_time es m in
        let closed = on_event fmt_time escape after in
        (length after.backdrops ≤ 1) × (closed.backdrops ≡ []) × (closed.listeners ≡ [])
  unfolding on_event
  escape_closes_timeline es m h =
      let after = run fmt_time es m in
      let k = run-IsClosable es m h in
      (
        length-IsListening after.backdrops after.listeners k,
        kept_none after.backdrops after.listeners k,
        refl,
      )

-- ===== src/Compliance/Switch.antt =====
-- The overlay of demo/compliance_overlay.js over sequences of events: its switch and what the page shows of it.
use mobydb_render_engine.Base.{
  ◌≡◌, refl, sym, ◌∙◌, Bool, true, false, not, ◌&&◌, Option, none, some, List, [], ◌∷◌, codes,
  ◌===◌, ◌==◌, Text, if-cases, if-both,
}
use mobydb_render_engine.LabVerify.Json.{Json, is_truthy}
use mobydb_render_engine.Compliance.{BaseCellOf}
use mobydb_render_engine.Compliance.Controller.{
  Controller, ControllerEvent, toggle_click, cells_event, epoch_event, audit_open, map_click,
  map_load, source_data, Layer, MapView, layer_of, initial_on, stored_flag, paint, repaint,
  on_event, run, start, fresh, overlaid, shown_as, annotate,
}

-- The attributes of the toggle and of the legend say what `on` is, and so would a reload of the page.
abbrev pub IsSwitched : Controller → Type 0
IsSwitched c =
    (c.toggle_on ≡ c.on)
    × (c.aria_pressed ≡ c.on)
    × (c.legend_on ≡ c.on)
    × (initial_on c.stored ≡ c.on)

overlaid-IsSwitched : (l : Option Layer) (c : Controller) → IsSwitched c → IsSwitched (overlaid l c)
overlaid-IsSwitched none c h = h
overlaid-IsSwitched (some l) c h = h

initial_on_stored : (b : Bool) → initial_on (some (stored_flag b)) ≡ b
initial_on_stored true = refl
initial_on_stored false = refl

module _ (lib : BaseCellOf) where
  -- A paint of the state of `on` puts the attributes in step.
  paint-IsSwitched :
      (state : Bool) (c : Controller)
      → c.on ≡ state
      → initial_on c.stored ≡ state
      → IsSwitched (paint lib state c)
  unfolding paint
  paint-IsSwitched true c h k =
      let s = shown_as lib true c in
      overlaid-IsSwitched (layer_of (annotate lib s s.map_view))
        (record s { map_view = annotate lib s s.map_view }) (sym h, sym h, sym h, k ∙ sym h)
  paint-IsSwitched false c h k = (sym h, sym h, sym h, k ∙ sym h)

  repaint-IsSwitched : (c : Controller) → IsSwitched c → IsSwitched (repaint lib c)
  repaint-IsSwitched c h =
      if-cases IsSwitched c.on (λ e. paint-IsSwitched true c e (h.3 ∙ e)) (λ e. h)

  on_event-IsSwitched :
      (e : ControllerEvent) (c : Controller) → IsSwitched c → IsSwitched (on_event lib e c)
  unfolding on_event
  on_event-IsSwitched toggle_click c h =
      paint-IsSwitched (not c.on) _ refl (initial_on_stored (not c.on))
  on_event-IsSwitched (cells_event cs now) c h = repaint-IsSwitched _ h
  on_event-IsSwitched epoch_event c h = repaint-IsSwitched _ h
  on_event-IsSwitched (audit_open cell) c h =
      if-both IsSwitched (is_truthy cell) (if-both IsSwitched c.has_audit_host h h) h
  on_event-IsSwitched (map_click feats) c h = if-both IsSwitched ((feats == 0) && c.on) h h
  on_event-IsSwitched map_load c h =
      if-both IsSwitched c.waits_for_load (paint-IsSwitched c.on _ refl h.3) h
  on_event-IsSwitched (source_data id is_loaded) c h =
      if-both IsSwitched ((id === codes "cells") && is_loaded) (repaint-IsSwitched c h) h

  run_keeps :
      (es : List ControllerEvent) (c : Controller) → IsSwitched c → IsSwitched (run lib es c)
  unfolding run
  run_keeps [] c h = h
  run_keeps (e ∷ es) c h = run_keeps es (on_event lib e c) (on_event-IsSwitched e c h)

  -- From any page, whatever `localStorage` held and over any sequence of events: the toggle, its
  -- pressed state and the legend say whether the overlay is on, and a reload of the page would start
  -- with the overlay as it is.
  pub run-IsSwitched :
      (stored : Option Text) (view : Option MapView) (is_loaded host : Bool) (cells : List Json)
      (now : Json) (es : List ControllerEvent)
      → IsSwitched
          (run lib es (start lib is_loaded (fresh lib stored view is_loaded host cells now)))
  run-IsSwitched stored view is_loaded host cells now es =
      let c = fresh lib stored view is_loaded host cells now in
      run_keeps es _ (
        if-both IsSwitched is_loaded {y = c} (paint-IsSwitched (initial_on stored) c refl refl)
          (refl, refl, refl, refl))

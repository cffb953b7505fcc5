-- ===== src/Compliance/Paint.antt =====
-- The overlay of demo/compliance_overlay.js over sequences of events: the paint of the map.
use mobydb_render_engine.Base.{
  ◌≡◌, refl, ap, ◌∙◌, Bool, true, false, not, ◌&&◌, Option, none, some, map_option, List, [], ◌∷◌,
  codes, ◌===◌, ◌==◌, if◌then◌else◌, if-both, arith,
}
use mobydb_render_engine.LabVerify.Json.{Json, is_truthy}
use mobydb_render_engine.Compliance.{BaseCellOf}
use mobydb_render_engine.Compliance.Controller.{
  Controller, ControllerEvent, toggle_click, cells_event, epoch_event, audit_open, map_click,
  map_load, source_data, Layer, MapView, layer_of, compliance_paint_expression, paint, repaint,
  on_event, run, overlaid, shown_as, annotate, with_layer, switched, painted, unpainted,
}

-- The fill colour of the layer, where there is one.
abbrev pub colour : Option Layer → Option Json
colour none = none
colour (some l) = some l.fill_color

abbrev pub colour_of : Option MapView → Option Json
colour_of view = colour (layer_of view)

colour_inv :
    (o : Option Layer) {k : Json}
    → colour o ≡ some k
    → (l : Layer) × (o ≡ some l) × (l.fill_color ≡ k)
colour_inv none h = ground arith
colour_inv (some l) h = (l, refl, ground arith)

layer_of-annotate :
    (lib : BaseCellOf) (c : Controller) (v : Option MapView)
    → layer_of (annotate lib c v) ≡ layer_of v
layer_of-annotate lib c none = refl
layer_of-annotate lib c (some m) = refl

layer_of-with_layer :
    (v : Option MapView) (f : Layer → Layer) → layer_of (with_layer v f) ≡ map_option f (layer_of v)
layer_of-with_layer none f = refl
layer_of-with_layer (some m) f = refl

overlaid-on : (l : Option Layer) (c : Controller) → (overlaid l c).on ≡ c.on
overlaid-on none c = refl
overlaid-on (some l) c = refl

module _ (lib : BaseCellOf) where
  -- The paint of a map whose layer has that colour.
  paint_true_lem :
      (c : Controller) {l : Layer}
      → layer_of c.map_view ≡ some l
      → (colour_of (paint lib true c).map_view ≡ some compliance_paint_expression)
        × ((paint lib true c).saved_paint ≡ some l.fill_color)
  unfolding paint
  paint_true_lem c {l = l} h =
      let s = shown_as lib true c in
      let view = layer_of-annotate lib s c.map_view in
      rw (view, h)
        (
          ap colour (
              layer_of-with_layer (annotate lib s c.map_view) painted
              ∙ ap (map_option painted) (view ∙ h)),
          refl,
        )

  paint_false_lem :
      (c : Controller) {saved : Json} {l : Layer}
      → layer_of c.map_view ≡ some l
      → c.saved_paint ≡ some saved
      → (colour_of (paint lib false c).map_view ≡ some saved)
        × ((paint lib false c).saved_paint ≡ some saved)
  unfolding paint
  paint_false_lem c h k =
      (ap colour (layer_of-with_layer c.map_view (unpainted c.saved_paint)) ∙ rw (h, k) refl, k)

  -- The colour of the layer and the remembered one are both the overlay's own expression.
  abbrev pub IsStuck : Controller → Type 0
  IsStuck c =
      (colour_of c.map_view ≡ some compliance_paint_expression)
      × (c.saved_paint ≡ some compliance_paint_expression)

  paint-IsStuck : (state : Bool) (c : Controller) → IsStuck c → IsStuck (paint lib state c)
  paint-IsStuck true c (h, k) =
      let (l, e, own) = colour_inv (layer_of c.map_view) h in
      let (painted_now, saved_now) = paint_true_lem c e in (painted_now, saved_now ∙ ap some own)
  paint-IsStuck false c (h, k) =
      let (l, e, own) = colour_inv (layer_of c.map_view) h in paint_false_lem c e k

  repaint-IsStuck : (c : Controller) → IsStuck c → IsStuck (repaint lib c)
  repaint-IsStuck c h = if-both IsStuck c.on (paint-IsStuck true c h) h

  on_event-IsStuck : (e : ControllerEvent) (c : Controller) → IsStuck c → IsStuck (on_event lib e c)
  unfolding on_event
  on_event-IsStuck toggle_click c h = paint-IsStuck (not c.on) _ h
  on_event-IsStuck (cells_event cs now) c h = repaint-IsStuck _ h
  on_event-IsStuck epoch_event c h = repaint-IsStuck _ h
  on_event-IsStuck (audit_open cell) c h =
      if-both IsStuck (is_truthy cell) (if-both IsStuck c.has_audit_host h h) h
  on_event-IsStuck (map_click feats) c h = if-both IsStuck ((feats == 0) && c.on) h h
  on_event-IsStuck map_load c h = if-both IsStuck c.waits_for_load (paint-IsStuck c.on _ h) h
  on_event-IsStuck (source_data id is_loaded) c h =
      if-both IsStuck ((id === codes "cells") && is_loaded) (repaint-IsStuck c h) h

  run-IsStuck : (es : List ControllerEvent) (c : Controller) → IsStuck c → IsStuck (run lib es c)
  unfolding run
  run-IsStuck [] c h = h
  run-IsStuck (e ∷ es) c h = run-IsStuck es (on_event lib e c) (on_event-IsStuck e c h)

  -- Two paints in a row forget the colour that the layer had.
  paint_twice-IsStuck :
      (c c' : Controller) {l : Layer}
      → layer_of c.map_view ≡ some l
      → c'.map_view ≡ (paint lib true c).map_view
      → IsStuck (paint lib true c')
  paint_twice-IsStuck c c' h same =
      let (l', e, own) =
        colour_inv (layer_of c'.map_view) (ap colour_of same ∙ (paint_true_lem c h).0) in
      let (painted_now, saved_now) = paint_true_lem c' e in (painted_now, saved_now ∙ ap some own)

  paint-on : (state : Bool) (c : Controller) → (paint lib state c).on ≡ c.on
  unfolding paint
  paint-on true c =
      let s = shown_as lib true c in
      overlaid-on (layer_of (annotate lib s s.map_view))
        (record s { map_view = annotate lib s s.map_view })
  paint-on false c = refl

  restores :
      (c : Controller) {l : Layer}
      → layer_of c.map_view ≡ some l
      → (c' : Controller) → c'.map_view ≡ (paint lib true c).map_view
      → c'.saved_paint ≡ (paint lib true c).saved_paint
      → colour_of (paint lib false c').map_view ≡ some l.fill_color
  restores c h c' same saved =
      let (painted_now, saved_now) = paint_true_lem c h in
      let (l', e, own) = colour_inv (layer_of c'.map_view) (ap colour_of same ∙ painted_now) in
      (paint_false_lem c' e (saved ∙ saved_now)).0

  toggle_lem :
      (state : Bool) (c : Controller)
      → c.on ≡ not state
      → on_event lib toggle_click c ≡ paint lib state (switched lib state c)
  unfolding on_event
  toggle_lem true c h = ap (λ b. paint lib (not b) (switched lib (not b) c)) h
  toggle_lem false c h = ap (λ b. paint lib (not b) (switched lib (not b) c)) h

  cells_lem :
      (cs : List Json) (now : Json) (c : Controller)
      → c.on ≡ true
      → on_event lib (cells_event cs now) c
        ≡ paint lib true (record c { cells = cs; current_epoch = now })
  unfolding on_event
  cells_lem cs now c h =
      let c' : Controller = record c { cells = cs; current_epoch = now } in
      ap (λ b. if b then paint lib true c' else c') h

  -- On a page whose overlay is off and whose layer `cells-fill` has some fill colour: switched on and
  -- off, the overlay restores that colour. When the page says that its cells changed while the overlay
  -- is on, the layer keeps the overlay's own colours whatever happens afterwards, being switched off
  -- included.
  pub repainted_for_ever :
      (c : Controller) {l : Layer} (cs : List Json) (now : Json) (es : List ControllerEvent)
      → c.on ≡ false
      → layer_of c.map_view ≡ some l
      → (colour_of (run lib (toggle_click ∷ toggle_click ∷ []) c).map_view ≡ some l.fill_color)
        × (colour_of (run lib (toggle_click ∷ cells_event cs now ∷ es) c).map_view
            ≡ some compliance_paint_expression)
  unfolding run
  repainted_for_ever c {l = l} cs now es h k =
      let start_on = switched lib true c in
      let first = paint lib true start_on in
      let second : Controller = record first { cells = cs; current_epoch = now } in
      let is_on = paint-on true start_on in
      let stuck = paint_twice-IsStuck start_on second k refl in
      let once = toggle_lem true c h in
      (
        ap (λ x. colour_of (on_event lib toggle_click x).map_view) once
            ∙ ap (λ x. colour_of x.map_view) (toggle_lem false first is_on)
            ∙ restores start_on k (switched lib false first) refl refl,
        ap (λ x. colour_of (run lib es (on_event lib (cells_event cs now) x)).map_view) once
            ∙ ap (λ x. colour_of (run lib es x).map_view) (cells_lem cs now first is_on)
            ∙ (run-IsStuck es (paint lib true second) stuck).0,
      )

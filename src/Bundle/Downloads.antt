-- ===== src/Bundle/Downloads.antt =====
-- The download button of demo/compliance_button.js over sequences of events.
use mobydb_render_engine.Base.{
  ℕ, ◌≡◌, refl, sym, ap, ◌∙◌, Bool, true, false, inl, inr, some, map_option, List, [], ◌∷◌, Text,
  Result, ok, throw, ◌==◌, All, Bool-cases, if-both, if◌then◌else◌, arith,
}
use mobydb_render_engine.Bundle.{Bundle, Dashboard, Headers}
use mobydb_render_engine.Bundle.Modal.{
  Page, Modal, Content, loading, failed, dashboard, Download, Label, Wait, idle, pdf, timer,
  download_pdf, ready, click_download, pdf_ready, timer_ready, ModalEvent, open_modal, escape,
  bundle_reply, backdrop_click, close_click, download_click, pdf_reply, reset_timer, on_event, run,
  content_of, change, download_in, rendered, shows_dashboard,
}
use mathlib.Core.Path.{subst}
use mathlib.Core.Option.{some_inj}

-- The button can be clicked exactly when nothing is awaited, and what it then shows is the invitation, which is also what a wait puts back.
abbrev IsWaiting : Wait → Download → Type 0
IsWaiting idle d = (d.disabled ≡ false) × (d.label ≡ download_pdf)
IsWaiting (pdf original) d = (original ≡ download_pdf) × (d.disabled ≡ true)
IsWaiting (timer original) d = (original ≡ download_pdf) × (d.disabled ≡ true)

abbrev pub IsReadyOrWaiting : Content → Type 0
IsReadyOrWaiting loading = Unit
IsReadyOrWaiting (failed message) = Unit
IsReadyOrWaiting (dashboard b d) = IsWaiting d.wait d

content_of-change :
    (id : ℕ) (f : Content → Content) (ms : List Modal)
    → content_of id (change id f ms) ≡ map_option f (content_of id ms)
content_of-change id f [] = refl
content_of-change id f (m ∷ ms) = elim (Bool-cases (m.id == id)) [
  | inl e ↦ rw e (rw e refl)
  | inr e ↦ rw e (rw e (content_of-change id f ms))
]

change-All :
    {P : Content → Type 0} (id : ℕ) (f : Content → Content) (ms : List Modal)
    → ((c : Content) → P c → P (f c))
    → All (λ m. P m.content) ms
    → All (λ m. P m.content) (change id f ms)
change-All id f [] step h = tt
change-All {P = P} id f (m ∷ ms) step (h, hs) = (
  if-both (λ (m : Modal). P m.content) (m.id == id) (step m.content h) h,
  change-All id f ms step hs,
)

abbrev download : Bool → Label → Wait → Download
download b l w = record { disabled = b; label = l; wait = w }

-- A step of the button, by what it waits for.
abbrev Keeps : (Download → Download) → Type 0
Keeps f =
    (b : Bool) (l : Label) (w : Wait)
    → IsWaiting w (download b l w)
    → IsWaiting (f (download b l w)).wait (f (download b l w))

click-Keeps : Keeps click_download
click-Keeps false l idle h = (h.1, refl)
click-Keeps true l idle h = ground arith
click-Keeps true l (pdf original) h = h
click-Keeps false l (pdf original) h = ground arith
click-Keeps true l (timer original) h = h
click-Keeps false l (timer original) h = ground arith

pdf-Keeps : (r : Result Headers) → Keeps (pdf_ready r)
pdf-Keeps r b l idle h = h
pdf-Keeps (ok headers) b l (pdf original) h = (h.0, refl)
pdf-Keeps (throw message) b l (pdf original) h = (h.0, refl)
pdf-Keeps r b l (timer original) h = h

timer-Keeps : Keeps timer_ready
timer-Keeps b l idle h = h
timer-Keeps b l (pdf original) h = h
timer-Keeps b l (timer original) h = (refl, h.0)

download_in-IsReadyOrWaiting :
    (f : Download → Download) (c : Content)
    → Keeps f
    → IsReadyOrWaiting c
    → IsReadyOrWaiting (download_in f c)
download_in-IsReadyOrWaiting f loading k h = h
download_in-IsReadyOrWaiting f (failed message) k h = h
download_in-IsReadyOrWaiting f (dashboard b d) k h = k d.disabled d.label d.wait h

abbrev pub WaitsWell : Page → Type 0
WaitsWell p = All (λ m. IsReadyOrWaiting m.content) p.modals

-- Whatever the button waits for: clicked, answered and left to its timer, it is ready again.
ends_ready :
    (r : Result Headers) (b : Bool) (l : Label) (w : Wait)
    → IsWaiting w (download b l w)
    → timer_ready (pdf_ready r (click_download (download b l w))) ≡ ready
ends_ready (ok headers) false l idle h = ap (λ o. download false o idle) h.1
ends_ready (throw message) false l idle h = ap (λ o. download false o idle) h.1
ends_ready r true l idle h = ground arith
ends_ready (ok headers) true l (pdf original) h = ap (λ o. download false o idle) h.0
ends_ready (throw message) true l (pdf original) h = ap (λ o. download false o idle) h.0
ends_ready r false l (pdf original) h = ground arith
ends_ready r true l (timer original) h = ap (λ o. download false o idle) h.0
ends_ready r false l (timer original) h = ground arith

content_waits :
    (id : ℕ) (ms : List Modal) {c : Content}
    → All (λ m. IsReadyOrWaiting m.content) ms
    → content_of id ms ≡ some c
    → IsReadyOrWaiting c
content_waits id [] h e = ground arith
content_waits id (m ∷ ms) {c = c} (h, hs) e = elim (Bool-cases (m.id == id)) [
  | inl t ↦
      let found : some m.content ≡ some c =
        ap (λ b. if b then some m.content else content_of id ms) (sym t) ∙ e in
      subst IsReadyOrWaiting (some_inj.0 found) h
  | inr t ↦
      content_waits id ms hs (ap (λ b. if b then some m.content else content_of id ms) (sym t) ∙ e)
]

module _ (to_fixed to_locale fmt_iso_short : Text → Text) where
  rendered-IsReadyOrWaiting :
      (r : Result Bundle) (c : Content)
      → IsReadyOrWaiting c
      → IsReadyOrWaiting (rendered to_fixed to_locale fmt_iso_short r c)
  rendered-IsReadyOrWaiting (ok bundle) loading h = (refl, refl)
  rendered-IsReadyOrWaiting (throw message) loading h = tt
  rendered-IsReadyOrWaiting (ok bundle) (failed message) h = h
  rendered-IsReadyOrWaiting (throw other) (failed message) h = h
  rendered-IsReadyOrWaiting (ok bundle) (dashboard b d) h = h
  rendered-IsReadyOrWaiting (throw message) (dashboard b d) h = h

  on_event-WaitsWell :
      (e : ModalEvent) (p : Page)
      → WaitsWell p
      → WaitsWell (on_event to_fixed to_locale fmt_iso_short e p)
  unfolding on_event
  on_event-WaitsWell open_modal p h = (tt, h)
  on_event-WaitsWell escape p h = h
  on_event-WaitsWell (bundle_reply id r) p h =
      change-All id (rendered to_fixed to_locale fmt_iso_short r) p.modals
        (rendered-IsReadyOrWaiting r) h
  on_event-WaitsWell (backdrop_click id) p h = h
  on_event-WaitsWell (close_click id) p h = if-both WaitsWell (shows_dashboard id p.modals) h h
  on_event-WaitsWell (download_click id) p h =
      change-All id (download_in click_download) p.modals
        (λ c. download_in-IsReadyOrWaiting click_download c click-Keeps) h
  on_event-WaitsWell (pdf_reply id r) p h =
      change-All id (download_in (pdf_ready r)) p.modals
        (λ c. download_in-IsReadyOrWaiting (pdf_ready r) c (pdf-Keeps r)) h
  on_event-WaitsWell (reset_timer id) p h =
      change-All id (download_in timer_ready) p.modals
        (λ c. download_in-IsReadyOrWaiting timer_ready c timer-Keeps) h

  pub run-WaitsWell :
      (es : List ModalEvent) (p : Page)
      → WaitsWell p
      → WaitsWell (run to_fixed to_locale fmt_iso_short es p)
  unfolding run
  run-WaitsWell [] p h = h
  run-WaitsWell (e ∷ es) p h = run-WaitsWell es _ (on_event-WaitsWell e p h)

  -- Whatever the number formats print and whatever the reply is: in any state that the page reaches
  -- from one without modals, a modal that shows a dashboard has its download button ready again, with
  -- its first text, after a click, the reply and the timer.
  pub download_ends_ready :
      (es : List ModalEvent) (p : Page) (id : ℕ) (r : Result Headers) {b : Dashboard} {d : Download}
      → p.modals ≡ []
      → content_of id (run to_fixed to_locale fmt_iso_short es p).modals ≡ some (dashboard b d)
      → content_of id
          (run to_fixed to_locale fmt_iso_short
            (download_click id ∷ pdf_reply id r ∷ reset_timer id ∷ [])
            (run to_fixed to_locale fmt_iso_short es p)).modals
        ≡ some (dashboard b ready)
  unfolding run on_event
  download_ends_ready es p id r {b = b} {d = d} empty h =
      let ms = (run to_fixed to_locale fmt_iso_short es p).modals in
      let waits = content_waits id ms (run-WaitsWell es p (rw empty tt)) h in
      let clicked = change id (download_in click_download) ms in
      let answered = change id (download_in (pdf_ready r)) clicked in
      content_of-change id (download_in timer_ready) answered
      ∙ ap (map_option (download_in timer_ready)) (
          content_of-change id (download_in (pdf_ready r)) clicked
          ∙ ap (map_option (download_in (pdf_ready r))) (
              content_of-change id (download_in click_download) ms
              ∙ ap (map_option (download_in click_download)) h))
      ∙ ap (λ x. some (dashboard b x)) (ends_ready r d.disabled d.label d.wait waits)

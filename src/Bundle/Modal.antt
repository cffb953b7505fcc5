-- ===== src/Bundle/Modal.antt =====
-- `openModal` of demo/compliance_button.js: the backdrops, the key listeners and the download button,
-- as a function of what the user does and of the replies. Any number of modals can be waiting.
use mobydb_render_engine.Backdrops.{without, is_listening}
use mobydb_render_engine.Base.{
  ℕ, suc, Bool, true, false, Option, none, some, not, ◌&&◌, ◌||◌, List, [], ◌∷◌, ◌++◌, map, Result,
  ok, throw, Text, ◌==◌, keep, if◌then◌else◌,
}
use mobydb_render_engine.App.{escape_html}
use mobydb_render_engine.Bundle.{Bundle, Dashboard, Headers, Toast, build_dashboard, toast_of}

-- The markup of the download button.
pub data Label : Type 0 where
  download_pdf generating downloaded : Label
  error_label : (message : Text) → Label

-- What the click handler of the button waits for.
pub data Wait : Type 0 where
  idle : Wait
  pdf : (original : Label) → Wait
  timer : (original : Label) → Wait

pub record Download : Type 0 where
  pub disabled : Bool
  pub label : Label
  pub wait : Wait

pub data Content : Type 0 where
  loading : Content
  failed : (message : Text) → Content
  dashboard : Dashboard → Download → Content

pub record Modal : Type 0 where
  pub id : ℕ
  pub content : Content

pub record Page : Type 0 where
  -- The backdrops of the document.
  pub backdrops : List ℕ
  -- The modals whose `onKey` listens.
  pub listeners : List ℕ
  -- Every modal that was opened, in the document or not.
  pub modals : List Modal
  pub toasts : List Toast
  pub next_id : ℕ

pub data ModalEvent : Type 0 where
  open_modal escape : ModalEvent
  bundle_reply : (id : ℕ) → Result Bundle → ModalEvent
  -- A click on the backdrop, outside the modal, and one on the button `×`.
  backdrop_click close_click download_click : (id : ℕ) → ModalEvent
  pdf_reply : (id : ℕ) → Result Headers → ModalEvent
  reset_timer : (id : ℕ) → ModalEvent

abbrev pub ready : Download
ready = record { disabled = false; label = download_pdf; wait = idle }

-- The click on the button; a disabled one fires no event.
abbrev pub click_download : Download → Download
click_download d =
    if d.disabled then d else record { disabled = true; label = generating; wait = pdf d.label }

abbrev settled : Label → Result Headers → Download
settled original (ok headers) = record {
  disabled = true;
  label = downloaded;
  wait = timer original;
}
settled original (throw message) = record {
  disabled = true;
  label = error_label message;
  wait = timer original;
}

abbrev on_pdf : Wait → Result Headers → Download → Download
on_pdf (pdf original) r d = settled original r
on_pdf idle r d = d
on_pdf (timer original) r d = d

abbrev pub pdf_ready : Result Headers → Download → Download
pdf_ready r d = on_pdf d.wait r d

abbrev on_timer : Wait → Download → Download
on_timer (timer original) d = record { disabled = false; label = original; wait = idle }
on_timer idle d = d
on_timer (pdf original) d = d

abbrev pub timer_ready : Download → Download
timer_ready d = on_timer d.wait d

abbrev pub download_in : (Download → Download) → Content → Content
download_in f (dashboard b d) = dashboard b (f d)
download_in f loading = loading
download_in f (failed message) = failed message

-- The change of one modal's content.
abbrev pub change : ℕ → (Content → Content) → List Modal → List Modal
change id f = map (λ m. if m.id == id then record m { content = f m.content } else m)

abbrev is_dashboard : Content → Bool
is_dashboard (dashboard b d) = true
is_dashboard loading = false
is_dashboard (failed message) = false

abbrev pub shows_dashboard : ℕ → List Modal → Bool
shows_dashboard id [] = false
shows_dashboard id (m ∷ ms) = ((m.id == id) && is_dashboard m.content) || shows_dashboard id ms

abbrev is_pdf : Wait → Bool
is_pdf (pdf original) = true
is_pdf idle = false
is_pdf (timer original) = false

abbrev waits_for_pdf : Option Content → Bool
waits_for_pdf (some (dashboard b d)) = is_pdf d.wait
waits_for_pdf (some loading) = false
waits_for_pdf (some (failed message)) = false
waits_for_pdf none = false

-- The content of a modal.
abbrev pub content_of : ℕ → List Modal → Option Content
content_of id [] = none
content_of id (m ∷ ms) = if m.id == id then some m.content else content_of id ms

-- The toast of a download that ends.
abbrev toasts_after : Result Headers → List Toast → List Toast
toasts_after (ok headers) toasts = toast_of headers ∷ []
toasts_after (throw message) toasts = toasts

module _ (to_fixed to_locale fmt_iso_short : Text → Text) where
  -- A reply renders once: the modal that has its content no longer waits.
  abbrev pub rendered : Result Bundle → Content → Content
  rendered (ok bundle) loading =
      dashboard (build_dashboard to_fixed to_locale fmt_iso_short bundle) ready
  rendered (throw message) loading = failed (escape_html message)
  rendered r content = content

  unfoldable pub on_event : ModalEvent → Page → Page
  on_event open_modal p = record p {
    backdrops = p.next_id ∷ [];
    listeners = p.listeners ++ p.next_id ∷ [];
    modals = record { id = p.next_id; content = loading } ∷ p.modals;
    next_id = suc p.next_id;
  }
  -- Each listening `onKey` removes its backdrop and itself.
  on_event escape p = record p {
    backdrops = keep (λ id. not (is_listening id p.listeners)) p.backdrops;
    listeners = [];
  }
  on_event (bundle_reply id r) p = record p { modals = change id (rendered r) p.modals }
  on_event (backdrop_click id) p = record p { backdrops = without id p.backdrops }
  -- The button of a dashboard stops listening; the one of an error does not.
  on_event (close_click id) p =
      let closed = record p { backdrops = without id p.backdrops } in
      if shows_dashboard id p.modals
      then record closed { listeners = without id p.listeners }
      else closed
  on_event (download_click id) p = record p {
    modals = change id (download_in click_download) p.modals;
  }
  on_event (pdf_reply id r) p = record p {
    modals = change id (download_in (pdf_ready r)) p.modals;
    toasts = if waits_for_pdf (content_of id p.modals) then toasts_after r p.toasts else p.toasts;
  }
  on_event (reset_timer id) p = record p { modals = change id (download_in timer_ready) p.modals }

  unfoldable pub run : List ModalEvent → Page → Page
  run [] p = p
  run (e ∷ es) p = run es (on_event e p)

-- ===== src/Bundle/Tests.antt =====
-- Runs of demo/compliance_button.js on small inputs.
use mobydb_render_engine.Base.{
  ◌≤◌, ◌≡◌, refl, some, none, [], ◌∷◌, Text, codes, ok, throw, length, take, All,
}
use mobydb_render_engine.App.{escape_html}
use mobydb_render_engine.Bundle.{Bundle, Headers, trunc, build_dashboard, toast_of}
use mobydb_render_engine.Bundle.Modal.{
  Page, open_modal, escape, bundle_reply, backdrop_click, dashboard, download_click, pdf_reply,
  reset_timer, ready, on_event, run, content_of,
}
use mobydb_render_engine.Bundle.Closing.{escape_closes}
use mobydb_render_engine.Bundle.Texts.{IsPlain, texts, trunc_lem, build_dashboard-IsPlain}
use mobydb_render_engine.Bundle.Downloads.{download_ends_ready}

-- A page that has just been loaded, and number formats that print a number as it is.
abbrev page : Page
page = record { backdrops = []; listeners = []; modals = []; toasts = []; next_id = 7 }

abbrev plain_number : Text → Text
plain_number s = s

abbrev bundle : Bundle
bundle = record {
  summary = none;
  chain = none;
  bundle_id = some (codes "<b>");
  bundle_hash = some (codes "ab");
  bundle_signature = none;
  generated_at = codes "2026-05-01";
}

abbrev headers : Headers
headers = record {
  id = some (codes "bundle-20260501-0001");
  hash = none;
  signature = some (codes "ed25519:ab&cd");
}

escape_closes_example :
    let after =
      run plain_number plain_number plain_number
        (open_modal ∷ backdrop_click 7 ∷ open_modal ∷ bundle_reply 8 (ok bundle) ∷ [])
        page in
    let closed = on_event plain_number plain_number plain_number escape after in
    (length after.backdrops ≤ 1) × (closed.backdrops ≡ []) × (closed.listeners ≡ [])
escape_closes_example =
    escape_closes plain_number plain_number plain_number
      (open_modal ∷ backdrop_click 7 ∷ open_modal ∷ bundle_reply 8 (ok bundle) ∷ []) page tt

trunc_lem_example :
    (length (trunc (codes "abcd") 2) ≤ 3) × (take 2 (trunc (codes "abcd") 2) ≡ codes "ab")
trunc_lem_example = trunc_lem (codes "abcd") 2

build_dashboard-IsPlain_example :
    All IsPlain (texts (build_dashboard plain_number plain_number plain_number bundle))
build_dashboard-IsPlain_example =
    build_dashboard-IsPlain plain_number plain_number plain_number bundle

download_ends_ready_example :
    content_of 7
      (run plain_number plain_number plain_number
        (download_click 7 ∷ pdf_reply 7 (throw (codes "HTTP 500")) ∷ reset_timer 7 ∷ [])
        (run plain_number plain_number plain_number
          (open_modal ∷ bundle_reply 7 (ok bundle) ∷ [])
          page)).modals
    ≡ some (dashboard (build_dashboard plain_number plain_number plain_number bundle) ready)
unfolding run on_event
download_ends_ready_example =
    download_ends_ready plain_number plain_number plain_number
      (open_modal ∷ bundle_reply 7 (ok bundle) ∷ []) page 7 (throw (codes "HTTP 500")) refl refl

-- The toast leaves out the prefix of the signature and cuts the id.
toast_of-headers :
    toast_of headers ≡ record { toast_id = codes "bundle-20260501-…"; signed = codes "ab&amp;cd" }
unfolding toast_of trunc escape_html
toast_of-headers = refl

-- ===== src/Fetches.antt =====
-- The fetch helpers of the overlays: demo/twin_overlay.js, demo/ai_observer_ticker.js,
-- demo/compliance_button.js and demo/cuneo_overlay.js. The addresses and the bytes of a file are not
-- modelled; `JSON.parse` is a parameter.
pub mod Missing
mod Tests
use mobydb_render_engine.Base.{
  ℕ, Option, none, some, List, [], ◌∷◌, ◌++◌, Result, ok, throw, ◌>>=◌, Text, codes, take,
  if◌then◌else◌,
}
use mobydb_render_engine.LabVerify.Json.{Json, null, str}
use mobydb_render_engine.App.Mcp.{HttpReply}

-- `r.headers.get(…)` of the three headers of a bundle.
pub record BundleHeaders : Type 0 where
  pub id : Option Text
  pub hash : Option Text
  pub signature : Option Text

module _ (json_parse : Json → Result Json) where
  -- `r.json()`, after the test of `r.ok` with the prefix of its message.
  abbrev pub json_or : Text → HttpReply → Result Json
  json_or message r = if r.is_ok then json_parse (str r.text) else throw (message ++ r.status)

  -- Each is what its promise does once `fetch` gives a reply, or rejects.
  unfoldable pub fetch_twin_state : Result HttpReply → Result Json
  fetch_twin_state fetched = fetched >>= json_or (codes "twin/state HTTP ")

  unfoldable pub fetch_all_latest : Result HttpReply → Result Json
  fetch_all_latest fetched = fetched >>= json_or (codes "twin/all_latest HTTP ")

  unfoldable pub post_ai_inspect : Result HttpReply → Result Json
  post_ai_inspect fetched = do
    r ← fetched
    (if r.is_ok
        then json_parse (str r.text)
        else throw (codes "ai-inspect HTTP " ++ r.status ++ codes ": " ++ take 200 r.text))

  unfoldable pub fetch_recent : Result HttpReply → Result Json
  fetch_recent fetched = fetched >>= json_or (codes "HTTP ")

  unfoldable pub fetch_bundle_json : Result HttpReply → Result Json
  fetch_bundle_json fetched = fetched >>= json_or (codes "bundle.json HTTP ")

  -- `fetchJSON` of a path.
  unfoldable pub fetch_json : Text → Result HttpReply → Result Json
  fetch_json path fetched = fetched >>= json_or (path ++ codes " → HTTP ")

  abbrev pub or_null : Result Json → Json
  or_null (ok v) = v
  or_null (throw message) = null

  -- `loadDeviceDetail`.
  unfoldable pub load_device_detail : (device_id : Text) → Result HttpReply → Json
  load_device_detail device_id fetched =
      or_null (fetch_json (codes "/v1/cuneo/device/" ++ device_id) fetched)

-- `fetchBundlePdf`: the headers of the reply beside its body.
unfoldable pub fetch_bundle_pdf : Result (HttpReply × BundleHeaders) → Result (Text × BundleHeaders)
fetch_bundle_pdf fetched = do
  (r, headers) ← fetched
  (if r.is_ok then ok (r.text, headers) else throw (codes "bundle.pdf HTTP " ++ r.status))

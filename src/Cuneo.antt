-- ===== src/Cuneo.antt =====
-- demo/cuneo_overlay.js: stations, the cache of devices, the activation of the overlay, and the check
-- of a device's signature. The replies of `fetch` are data of the events and the Ed25519 library is a
-- parameter; markup is not modelled.
mod Tests
pub mod Activation
pub mod Devices
pub mod Listing
pub mod Detail
pub mod Session
use mobydb_render_engine.Base.{
  ℕ, zero, suc, keep, ◌==◌, join, Bool, true, false, not, ◌&&◌, ◌||◌, Option, none, some, List, [],
  ◌∷◌, ◌++◌, map, Result, ok, throw, ◌>>=◌, Text, codes, ◌===◌, length, is_empty, starts_with, drop,
  if◌then◌else◌,
}
use mobydb_render_engine.Base.Int.{parse_int, to_uint8}
use mobydb_render_engine.LabVerify.Json.{
  Json, undefined, null, bool, num, non_finite, other, str, arr, obj, Items, nil, cons, Fields, end,
  field, get, without, prop, is_truthy,
}
use mobydb_render_engine.LabVerify.Jcs.{stringify, sort, utf8}

pub record Station : Type 0 where
  pub id : Text
  pub name : Text

-- `state.devicesByStation`.
abbrev pub Cache : Type 0
Cache = List (Text × List Json)

abbrev pub lookup : Text → Cache → Option (List Json)
lookup k [] = none
lookup k ((j, v) ∷ c) = if j === k then some v else lookup k c

-- What `loadDevices` answers, with the cache after it; the reply is used only on a miss.
abbrev pub fetched : Text → Result (List Json) → Cache → List Json × Cache
fetched k (ok devices) cache = (devices, (k, devices) ∷ cache)
fetched k (throw e) cache = ([], cache)

abbrev pub load_from : Text → Option (List Json) → Result (List Json) → Cache → List Json × Cache
load_from k (some devices) reply cache = (devices, cache)
load_from k none reply cache = fetched k reply cache

unfoldable pub load_devices : Text → Result (List Json) → Cache → List Json × Cache
load_devices k reply cache = load_from k (lookup k cache) reply cache

-- `state.active`, the stored flag, the toggle's `data-active`, the locate button, the stations and the
-- names on the map; `loading` counts the activations that wait for the stations.
pub record Cuneo : Type 0 where
  pub active : Bool
  pub stored : Bool
  pub toggle_active : Bool
  pub locate_hidden : Bool
  pub stations : List Station
  pub markers : List Text
  pub counter : Option ℕ
  pub loading : ℕ
  -- The backdrops in the document, by number, and `modalEl`.
  pub backdrops : List ℕ
  pub modal_el : Option ℕ
  pub next_modal : ℕ

pub data CuneoEvent : Type 0 where
  activate deactivate : CuneoEvent
  -- The stations of an activation arrive, or their fetch fails.
  stations_reply : Result (List Station) → CuneoEvent
  -- A click on a station, and the rest of `openStationModal` once its devices are there.
  open_station devices_ready close_modal : CuneoEvent

-- `renderStationMarkers` on a page that has its map: the old markers go first.
abbrev pub render_station_markers : Cuneo → Cuneo
render_station_markers c = record c { markers = map (λ s. s.name) c.stations }

-- `closeStationModal`.
abbrev pub close_from : Option ℕ → Cuneo → Cuneo
close_from none c = c
close_from (some m) c = record c {
  backdrops = keep (λ x. not (x == m)) c.backdrops;
  modal_el = none;
}

unfoldable pub close_station_modal : Cuneo → Cuneo
close_station_modal c = close_from c.modal_el c

-- `deactivate`.
unfoldable pub deactivated : Cuneo → Cuneo
deactivated c = close_station_modal (record c {
  active = false;
  stored = false;
  toggle_active = false;
  locate_hidden = true;
  markers = [];
})

module _ (fallback : List Station) where
  -- `loadStations`.
  abbrev pub load_stations : Result (List Station) → List Station
  load_stations (ok stations) = stations
  load_stations (throw e) = fallback

  -- The rest of `activate`, for one that waits.
  abbrev pub arrived : ℕ → List Station → Cuneo → Cuneo
  arrived zero stations c = c
  arrived (suc n) stations c =
      render_station_markers
        (record c { stations = stations; counter = some (length stations); loading = n })

  unfoldable pub on_event : CuneoEvent → Cuneo → Cuneo
  on_event activate c = record c {
    active = true;
    stored = true;
    toggle_active = true;
    locate_hidden = false;
    loading = suc c.loading;
  }
  on_event deactivate c = deactivated c
  on_event (stations_reply r) c = arrived c.loading (load_stations r) c
  on_event open_station c = close_station_modal c
  on_event devices_ready c = record c {
    backdrops = c.next_modal ∷ c.backdrops;
    modal_el = some c.next_modal;
    next_modal = suc c.next_modal;
  }
  on_event close_modal c = close_station_modal c

  unfoldable pub run : List CuneoEvent → Cuneo → Cuneo
  run [] c = c
  run (e ∷ es) c = run es (on_event e c)

-- `hexToBytes`: no prefix, and an odd last digit is left out.
unfoldable pub hex_to_bytes : Text → List ℕ
hex_to_bytes (a ∷ (b ∷ s)) = to_uint8 (parse_int 16 (a ∷ b ∷ [])) ∷ hex_to_bytes s
hex_to_bytes _ = []

-- The fields that `runEd25519Verify` reads of a device.
pub record Device : Type 0 where
  pub provisioning_mode : Text
  pub pubkey : Text
  pub sou_signature : Option Text
  pub sou_identity : Fields

pub data Button : Type 0 where
  native_valid chain_validated invalid verify_error : Button

-- `canonicalJSON`; `none` is the value `undefined`, which `JSON.stringify` returns for itself and for
-- a function. `join` writes it as the empty text, and `+` as its name.
abbrev joined : Option Text → Text
joined none = []
joined (some t) = t

abbrev added : Option Text → Text
added none = codes "undefined"
added (some t) = t

abbrev pub entry_text : Text × Option Text → Text
entry_text (k, v) = stringify k ++ b':' ∷ added v

unfoldable mutual
  pub canonical_json : Json → Option Text
  canonical_json undefined = none
  canonical_json null = some (codes "null")
  canonical_json (bool b) = some (if b then codes "true" else codes "false")
  canonical_json (num t) = some t
  canonical_json non_finite = some (codes "null")
  canonical_json (str s) = some (stringify s)
  canonical_json (arr xs) = some (b'[' ∷ join (codes ",") (canonical_items xs) ++ b']' ∷ [])
  canonical_json (obj fs) =
      some (b'{' ∷ join (codes ",") (map entry_text (sort (canonical_fields fs))) ++ b'}' ∷ [])
  canonical_json (other t) = none

  pub canonical_items : Items → List Text
  canonical_items nil = []
  canonical_items (cons x xs) = joined (canonical_json x) ∷ canonical_items xs

  pub canonical_fields : Fields → List (Text × Option Text)
  canonical_fields end = []
  canonical_fields (field k v fs) = (k, canonical_json v) ∷ canonical_fields fs

module _ (verify : List ℕ → List ℕ → List ℕ → Result Bool) where
  abbrev pub strip_prefix : Text → Text
  strip_prefix s = if starts_with s (codes "ed25519:") then drop 8 s else s

  -- `device.sou_signature || sou.signature`; `replace` of what is not a text throws.
  abbrev pub signature_of : Device → Result Text
  signature_of d = elim d.sou_signature [
    | some (c ∷ s) ↦ ok (c ∷ s)
    | _ ↦ elim (get (codes "signature") d.sou_identity) [
      | str s ↦ ok s
      | _ ↦ throw (codes "TypeError")
    ]
  ]

  unfoldable pub run_ed25519_verify : Device → Result Bool
  run_ed25519_verify d = do
    signature ← signature_of d
    let sig_hex = strip_prefix signature
    (if not (d.provisioning_mode === codes "A")
        then ok true
        else let canonical =
            added (canonical_json (obj (without (codes "signature") d.sou_identity))) in
          verify (hex_to_bytes sig_hex) (utf8 canonical) (hex_to_bytes d.pubkey))

  abbrev pub button_of : Text → Result Bool → Button
  button_of mode (ok true) = if mode === codes "A" then native_valid else chain_validated
  button_of mode (ok false) = invalid
  button_of mode (throw e) = verify_error

  -- `verifyDevice`: what the button says in the end.
  unfoldable pub verify_device : Device → Button
  verify_device d = button_of d.provisioning_mode (run_ed25519_verify d)

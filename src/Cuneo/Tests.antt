-- ===== src/Cuneo/Tests.antt =====
-- Runs of demo/cuneo_overlay.js on small inputs.
use mobydb_render_engine.Base.{
  ℕ, ◌≡◌, Bool, true, false, none, some, List, [], ◌∷◌, Result, ok, throw, Text, codes, All,
}
use mobydb_render_engine.LabVerify.Json.{null, end}
use mobydb_render_engine.Cuneo.{
  Station, Cache, Cuneo, CuneoEvent, activate, deactivate, stations_reply, open_station,
  devices_ready, close_modal, Device,
}
use mobydb_render_engine.Cuneo.Session
use mobydb_render_engine.Cuneo.Session.{
  SessionEvent, init, toggle_click, locate_click, stations_come, escape, fresh,
}
use mobydb_render_engine.Cuneo.Session.Restore.{reload_restores}
use mobydb_render_engine.Cuneo.Detail.{DeviceDetail, DetailStation, render_device_detail}
use mobydb_render_engine.Cuneo.Detail.Quotes.{IsInert, detail_texts, render_device_detail-IsInert}

abbrev stations : List Station
stations = record { id = codes "s1"; name = codes "Cuneo" } ∷ []

abbrev waiting : Cuneo
waiting = record {
  active = true;
  stored = true;
  toggle_active = true;
  locate_hidden = false;
  stations = [];
  markers = [];
  counter = none;
  loading = 1;
  backdrops = [];
  modal_el = none;
  next_modal = 4;
}

abbrev events : List CuneoEvent
events =
    stations_reply (throw (codes "HTTP 500"))
    ∷ open_station
    ∷ devices_ready
    ∷ deactivate
    ∷ activate
    ∷ close_modal
    ∷ []

abbrev cache : Cache
cache = (codes "s1", null ∷ []) ∷ []

abbrev categories : List Text
categories = codes "ups" ∷ codes "rtu" ∷ codes "ups" ∷ []

abbrev device : Device
device = record {
  provisioning_mode = codes "B";
  pubkey = codes "00";
  sou_signature = some (codes "ed25519:00");
  sou_identity = end;
}

abbrev never : List ℕ → List ℕ → List ℕ → Result Bool
never sig msg key = ok false

abbrev detail : DeviceDetail
detail = record {
  asset_tag = codes "<T1>";
  vendor = codes "ABB";
  model = codes "REL670";
  firmware = none;
  role = none;
  provisioning_mode = codes "A";
  status = none;
  serial = none;
  category = none;
  pubkey = some (codes "00");
  h3_res15 = none;
  content_hash = none;
  sou_signature = none;
  parent_chain = some (codes "L1:root:ab'cd" ∷ []);
}

abbrev magliano : DetailStation
magliano = record { name = codes "Magliano"; voltage_levels = none }

render_device_detail-IsInert_example :
    All IsInert (detail_texts (render_device_detail detail magliano))
render_device_detail-IsInert_example = render_device_detail-IsInert detail magliano

-- A session that was active and whose map comes late, is switched off, and on again.
abbrev session_events : List SessionEvent
session_events =
    stations_come true (ok stations) ∷ toggle_click ∷ locate_click true ∷ toggle_click ∷ escape ∷ []

reload_restores_example :
    let before =
      Session.run stations session_events (Session.on_event stations (init true) (fresh true)) in
    (Session.on_event stations (init true) (fresh before.cuneo.stored)).cuneo.active
    ≡ before.cuneo.active
reload_restores_example = reload_restores stations true session_events

-- ===== src/Cuneo/Detail.antt =====
-- The device detail inside the station modal of demo/cuneo_overlay.js: openDeviceAudit and
-- renderDeviceDetailInModal, as far as their texts. An absent text is none.
pub mod Quotes
use mobydb_render_engine.Base.{
  or_text, Bool, true, false, not, Option, none, some, List, [], ◌∷◌, ◌++◌, map, join, take, Text,
  codes, ◌===◌, if◌then◌else◌, every, All, arith, ◌≡◌, refl, sym, ap, ◌∙◌, ◌==◌, ◌&&◌, ◌||◌, ℕ,
}
use mobydb_render_engine.App.{split_on, replace_all}
use mobydb_render_engine.App.Escape.{is_markup, escape_html_lem}
use mobydb_render_engine.Cuneo.Listing.{escape_html}

-- The station that the modal is about.
pub record DetailStation : Type 0 where
  pub name : Text
  pub voltage_levels : Option (List Text)

pub record DeviceDetail : Type 0 where
  pub asset_tag : Text
  pub vendor : Text
  pub model : Text
  pub firmware : Option Text
  pub role : Option Text
  pub provisioning_mode : Text
  pub status : Option Text
  pub serial : Option Text
  pub category : Option Text
  pub pubkey : Option Text
  pub h3_res15 : Option Text
  pub content_hash : Option Text
  pub sou_signature : Option Text
  pub parent_chain : Option (List Text)

-- A link of the trust chain: its level, and what follows.
pub record Link : Type 0 where
  pub level : Text
  pub rest : Text

pub record Detail : Type 0 where
  pub back_to : Text
  pub title : Text
  pub meta : Text
  pub station : Text
  pub voltages : Text
  pub mode : Text
  pub mode_text : Text
  pub status : Text
  pub serial : Text
  pub category : Text
  pub pubkey : Text
  pub h3_res15 : Text
  pub content_hash : Text
  pub signature : Text
  pub chain : List Link

-- The parts of a template, one after the other.
abbrev pub template : List Text → Text
template [] = []
template (p ∷ ps) = p ++ template ps

-- `parts[i] || ''`.
abbrev first_or_empty : List Text → Text
first_or_empty [] = []
first_or_empty (p ∷ ps) = p

abbrev second_or_empty : List Text → Text
second_or_empty [] = []
second_or_empty (p ∷ ps) = first_or_empty ps

abbrev pub link_of : Text → Link
link_of c =
    let (level, rest) = split_on b':' c in
    record {
      level = escape_html level;
      rest =
          codes ":"
          ++ escape_html (first_or_empty rest ++ codes ":" ++ take 16 (second_or_empty rest))
          ++ codes "…";
    }

abbrev chain_of : Option (List Text) → List Text
chain_of none = []
chain_of (some cs) = cs

abbrev voltages_of : Option (List Text) → List Text
voltages_of none = [] ∷ []
voltages_of (some vs) = vs

abbrev mode_text_of : Text → Text
mode_text_of mode =
    if mode === codes "A"
    then codes "Native — device firma con TPM proprio"
    else if mode === codes "B"
    then codes "Delegated — sidecar firma per delega"
    else codes "Co-signed — device + sidecar firmano insieme"

abbrev pub meta_parts : DeviceDetail → List Text
meta_parts d =
    escape_html d.vendor
    ∷ codes " "
    ∷ escape_html d.model
    ∷ codes " · fw "
    ∷ escape_html (or_text d.firmware (codes "n/a"))
    ∷ codes " · role "
    ∷ escape_html (or_text d.role (codes "—"))
    ∷ []

unfoldable pub render_device_detail : DeviceDetail → DetailStation → Detail
render_device_detail d station = record {
  back_to = codes "← Back to " ++ escape_html station.name;
  title = escape_html d.asset_tag;
  meta = template (meta_parts d);
  station = escape_html station.name;
  voltages = escape_html (join (codes " / ") (voltages_of station.voltage_levels));
  mode = escape_html d.provisioning_mode;
  mode_text = mode_text_of d.provisioning_mode;
  status = escape_html (or_text d.status (codes "AUDIT-READY"));
  serial = escape_html (or_text d.serial (codes "—"));
  category = escape_html (or_text d.category []);
  pubkey = codes "ed25519:" ++ escape_html (or_text d.pubkey []);
  h3_res15 = escape_html (or_text d.h3_res15 []);
  content_hash = escape_html (or_text d.content_hash []);
  signature = escape_html (take 80 (or_text d.sou_signature [])) ++ codes "…";
  chain = map link_of (chain_of d.parent_chain);
}

-- What the open modal shows.
pub data View : Type 0 where
  device_list : DetailStation → View
  device_detail : Detail → View

abbrev shown_in : Option View → Detail → Option View
shown_in none detail = none
shown_in (some view) detail = some (device_detail detail)

-- The rest of `openDeviceAudit` after its `await`, for the station of the row that was clicked: null is
-- a device that was not loaded.
unfoldable pub detail_ready : DetailStation → Option DeviceDetail → Option View → Option View
detail_ready station none view = view
detail_ready station (some d) view = shown_in view (render_device_detail d station)

-- ===== src/Cuneo/Listing.antt =====
-- The station modal of demo/cuneo_overlay.js: the rows of the devices and the summary. A device is held by the texts that the source prints; an absent one is none.
use mobydb_render_engine.Base.{
  or_text, ℕ, Bool, false, Option, none, some, List, [], ◌∷◌, ◌++◌, map, Text, codes, ◌===◌, length,
  keep, if◌then◌else◌,
}
use mobydb_render_engine.App
use mobydb_render_engine.App.{replace_all}

-- `escapeHtml`: after the four replacements of demo/app.js the single quote.
unfoldable pub escape_html : Text → Text
escape_html s = replace_all b'\'' (codes "&#39;") (App.escape_html s)

pub record ListedDevice : Type 0 where
  pub id : Text
  pub asset_tag : Text
  pub vendor : Text
  pub model : Text
  pub role : Option Text
  pub provisioning_mode : Text
  pub status : Option Text

pub record DeviceRow : Type 0 where
  pub device_id : Text
  pub tag : Text
  pub name : Text
  pub mode : Text
  pub dot : Text
  pub title : Text

abbrev is_audit_ready : Option Text → Bool
is_audit_ready none = false
is_audit_ready (some s) = s === codes "AUDIT-READY"

abbrev pub device_row : ListedDevice → DeviceRow
device_row d = record {
  device_id = escape_html d.id;
  tag = escape_html d.asset_tag;
  name =
      escape_html d.vendor
      ++ codes " "
      ++ escape_html d.model
      ++ codes " · "
      ++ escape_html (or_text d.role []);
  mode = escape_html d.provisioning_mode;
  dot = escape_html (if is_audit_ready d.status then codes "ok" else codes "warning");
  title = escape_html (or_text d.status (codes "AUDIT-READY"));
}

-- The list, or the sentence that it is empty.
pub data Rows : Type 0 where
  list_empty : Rows
  device_rows : List DeviceRow → Rows

unfoldable pub render_device_rows : List ListedDevice → Rows
render_device_rows [] = list_empty
render_device_rows (d ∷ ds) = device_rows (map device_row (d ∷ ds))

-- The summary: all devices, and those of each mode.
pub record Summary : Type 0 where
  pub total : ℕ
  pub mode_a : ℕ
  pub mode_b : ℕ
  pub mode_c : ℕ

abbrev pub of_mode : Text → List ListedDevice → ℕ
of_mode mode devices = length (keep (λ d. d.provisioning_mode === mode) devices)

unfoldable pub summary_of : List ListedDevice → Summary
summary_of devices = record {
  total = length devices;
  mode_a = of_mode (codes "A") devices;
  mode_b = of_mode (codes "B") devices;
  mode_c = of_mode (codes "C") devices;
}

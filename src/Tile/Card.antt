-- ===== src/Tile/Card.antt =====
-- The texts of the card that `buildModal` of demo/lab_tile_preview.js puts into its markup. `toFixed` and
-- `encodeURIComponent` are parameters.
use mobydb_render_engine.Base.{Option, [], ◌∷◌, ◌++◌, Text, codes, or_text, All, if◌then◌else◌}
use mobydb_render_engine.LabVerify.Json.{Json}
use mobydb_render_engine.App.{escape_html}
use mobydb_render_engine.LabOverlay.Query.{is_number}
use mobydb_render_engine.Bundle.Texts.{IsPlain, plain}

-- What the card reads of a record.
pub record CardRecord : Type 0 where
  pub stac_item_id : Option Text
  pub h3_cell : Option Text
  pub cloud_cover_percent : Json
  pub acquisition_timestamp : Option Text

pub record Card : Type 0 where
  pub title : Text
  pub cell : Text
  pub acquisition : Text
  pub cloud_cover : Text
  pub item_url : Text

abbrev pub item_base : Text
item_base = codes "https://earth-search.aws.element84.com/v1/collections/sentinel-2-l2a/items/"

module _ (to_fixed : Json → Text) (encode_uri_component : Text → Text) where
  unfoldable pub card_of : CardRecord → Card
  card_of r = record {
    title = escape_html (or_text r.stac_item_id (codes "—"));
    cell = escape_html (or_text r.h3_cell (codes "—"));
    acquisition = escape_html (or_text r.acquisition_timestamp (codes "—"));
    cloud_cover =
        if is_number r.cloud_cover_percent
        then to_fixed r.cloud_cover_percent ++ codes "%"
        else codes "—";
    item_url = item_base ++ encode_uri_component (or_text r.stac_item_id []);
  }

  -- Whatever the record holds: the three texts that it gives hold no angle bracket and no double quote.
  pub card_of-IsPlain :
      (r : CardRecord)
      → let card = card_of r in All IsPlain (card.title ∷ card.cell ∷ card.acquisition ∷ [])
  unfolding card_of
  card_of-IsPlain r = search (plain)

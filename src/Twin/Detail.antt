-- ===== src/Twin/Detail.antt =====
-- renderTwinDetail of demo/twin_overlay.js: the texts of a cell's telemetry. The printed numbers of `fmt`
-- are a parameter; the texts of the record go into the markup as they are.
use mobydb_render_engine.Base.{
  or_text, without_prefix, ℕ, Bool, Option, none, some, [], ◌++◌, Text, codes, take, if◌then◌else◌,
}
use mobydb_render_engine.Twin.{Status, status_ok, warning, critical}

-- The numbers of the payload, by their text; null is none.
pub record Payload : Type 0 where
  pub voltage_kv : Option Text
  pub current_a : Option Text
  pub load_mw : Option Text
  pub nominal_load_mw : Option Text
  pub temperature_celsius : Option Text
  pub anomaly_active : Bool
  pub anomaly_type : Option Text
  pub anomaly_severity : Option Text
  pub anomaly_description : Option Text

pub record TwinRecord : Type 0 where
  pub payload : Payload
  pub record_hash : Option Text
  pub signature : Option Text
  pub pubkey : Option Text

pub record AnomalyText : Type 0 where
  pub severity : Text
  pub head : Text
  pub description : Text

pub record TwinDetail : Type 0 where
  pub status_text : Text
  pub voltage : Text
  pub current : Text
  pub load : Text
  pub transformer : Text
  pub anomaly : Option AnomalyText
  pub pubkey : Text
  pub hash : Text
  pub signature : Text

abbrev status_text_of : Status → Text
status_text_of status_ok = codes "nominal"
status_text_of warning = codes "warning"
status_text_of critical = codes "critical"

abbrev anomaly_text : Payload → Option AnomalyText
anomaly_text p =
    if p.anomaly_active
    then some (record {
      severity = or_text p.anomaly_severity (codes "warning");
      head =
          or_text p.anomaly_type (codes "anomaly") ++ codes " · " ++ or_text p.anomaly_severity [];
      description = or_text p.anomaly_description [];
    })
    else none

module _ (to_fixed : ℕ → Text → Text) where
  -- `fmt` of a number; NaN does not occur.
  abbrev fmt : Option Text → ℕ → Text
  fmt none digits = codes "—"
  fmt (some v) digits = to_fixed digits v

  unfoldable pub render_twin_detail : Status → TwinRecord → TwinDetail
  render_twin_detail status r =
      let p = r.payload in
      record {
        status_text = status_text_of status;
        voltage = fmt p.voltage_kv 2 ++ codes " kV";
        current = fmt p.current_a 1 ++ codes " A";
        load = fmt p.load_mw 1 ++ codes " MW · " ++ fmt p.nominal_load_mw 0 ++ codes " nom";
        transformer = fmt p.temperature_celsius 1 ++ codes " °C";
        anomaly = anomaly_text p;
        pubkey = take 12 (or_text r.pubkey []) ++ codes "…";
        hash = take 16 (without_prefix (codes "blake3:") (or_text r.record_hash [])) ++ codes "…";
        signature =
            take 16 (without_prefix (codes "ed25519:") (or_text r.signature [])) ++ codes "…";
      }

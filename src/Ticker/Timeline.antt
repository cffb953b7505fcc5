-- ===== src/Ticker/Timeline.antt =====
-- `openTimelineModal` of demo/ai_observer_ticker.js: the entries with the texts that they put into the
-- markup, and the modal with its listeners. The printed time is a parameter; the fixed markup is not
-- modelled.
pub mod Escapes
use mobydb_render_engine.Base.{
  ℕ, suc, Bool, not, List, [], ◌∷◌, ◌++◌, map, Text, codes, ◌===◌, take, length, digits, keep, join,
  if◌then◌else◌,
}
use mobydb_render_engine.App.{escape_html}
use mobydb_render_engine.Backdrops.{without, is_listening}
use mobydb_render_engine.Ticker.{Observation, Ticker, timeline_entries, attested}

pub record Tag : Type 0 where
  pub label : Text
  pub color : Text

-- `TYPE_LABELS[type] || TYPE_LABELS.unknown`.
unfoldable pub tag_of : Text → Tag
tag_of type =
    if type === codes "anomaly_detection"
    then record { label = codes "ANOMALIA"; color = codes "#ef4444" }
    else if type === codes "aggregate_trend"
    then record { label = codes "TREND RETE"; color = codes "#0099cc" }
    else if type === codes "comparative"
    then record { label = codes "CONFRONTO"; color = codes "#ffab00" }
    else if type === codes "prevision"
    then record { label = codes "PREVISIONE"; color = codes "#00c853" }
    else record { label = codes "OSSERV."; color = codes "#94a3b8" }

pub record Entry : Type 0 where
  pub tag : Tag
  pub time : Text
  pub text : Text
  pub model : Text
  pub pubkey : Text
  pub hash : Text
  pub signature : Text
  pub chain : Text

abbrev pub arrow : Text
arrow = codes " <span class=\"chain-arrow\">→</span> "

pub record Timeline : Type 0 where
  pub next_id : ℕ
  pub backdrops : List ℕ
  -- The modals whose `onKey` still listens, and what each modal was built with.
  pub listeners : List ℕ
  pub meta : Text
  pub entries : List Entry

pub data TimelineEvent : Type 0 where
  click_ticker : Ticker → TimelineEvent
  close_click backdrop_click : (id : ℕ) → TimelineEvent
  escape : TimelineEvent

module _ (fmt_time : Text → Text) where
  unfoldable pub entry_of : Observation → Entry
  entry_of o =
      let (hash, signature, pubkey) = attested o in
      record {
        tag = tag_of o.observation_type;
        time =
            fmt_time o.timestamp
            ++ codes " · "
            ++ o.tokens_in
            ++ codes "↓ "
            ++ o.tokens_out
            ++ codes "↑ tokens";
        text = escape_html o.text;
        model = o.model;
        pubkey = pubkey ++ codes "…";
        hash = hash ++ codes "…";
        signature = signature ++ codes "…";
        chain = join arrow o.chain;
      }

  unfoldable pub open_timeline_modal : Ticker → Timeline → Timeline
  open_timeline_modal t m =
      let entries = timeline_entries t in
      record {
        next_id = suc m.next_id;
        backdrops = m.next_id ∷ [];
        listeners = m.listeners ++ m.next_id ∷ [];
        meta =
            codes "ultime "
            ++ digits (length entries)
            ++ codes " osservazioni · ogni record firmato Ed25519 · gpt-4o · azure Sweden";
        entries = map entry_of entries;
      }

  -- Escape runs every listener: each removes its backdrop and itself.
  unfoldable pub on_event : TimelineEvent → Timeline → Timeline
  on_event (click_ticker t) m = open_timeline_modal t m
  on_event (close_click id) m = record m { backdrops = without id m.backdrops }
  on_event (backdrop_click id) m = record m { backdrops = without id m.backdrops }
  on_event escape m = record m {
    backdrops = keep (λ id. not (is_listening id m.listeners)) m.backdrops;
    listeners = [];
  }

  unfoldable pub run : List TimelineEvent → Timeline → Timeline
  run [] m = m
  run (e ∷ es) m = run es (on_event e m)

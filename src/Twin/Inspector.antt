-- ===== src/Twin/Inspector.antt =====
-- The AI inspector of demo/twin_overlay.js: openAiModal and renderAiResult. The elapsed time is a
-- parameter of the reply.
use mobydb_render_engine.Base.{
  without_prefix, ◌≤◌, ◌≡◌, refl, Bool, true, false, Option, none, some, List, [], ◌∷◌, ◌++◌,
  Result, ok, throw, Text, codes, take, join, length, ltb, if◌then◌else◌, if-cases, if-both, arith,
}
use mobydb_render_engine.App.Operator.{trim}

-- What `postAiInspect` answers; an absent text is none.
pub record AiReply : Type 0 where
  pub response : Text
  pub record_hash : Option Text
  pub signature : Option Text
  pub pubkey : Option Text
  pub chain : List Text
  pub model : Text
  pub provider : Text
  pub tokens_in : Text
  pub tokens_out : Text
  pub sim_disclaimer : Option Text

pub record AiResult : Type 0 where
  pub response : Text
  pub attested : Text
  pub model : Text
  pub pubkey : Text
  pub hash : Text
  pub signature : Text
  pub chain : Text
  pub disclaimer : Text

abbrev text_or_empty : Option Text → Text
text_or_empty none = []
text_or_empty (some s) = s

unfoldable pub render_ai_result : AiReply → Text → AiResult
render_ai_result r elapsed = record {
  response = r.response;
  attested =
      codes "✓ Risposta firmata Ed25519 · "
      ++ elapsed
      ++ codes "s · "
      ++ r.tokens_in
      ++ codes "↓ "
      ++ r.tokens_out
      ++ codes "↑ tokens";
  model = r.model ++ codes " · " ++ r.provider;
  pubkey = take 16 (text_or_empty r.pubkey) ++ codes "…";
  hash = take 24 (without_prefix (codes "blake3:") (text_or_empty r.record_hash)) ++ codes "…";
  signature = take 24 (without_prefix (codes "ed25519:") (text_or_empty r.signature)) ++ codes "…";
  chain = join (codes " <span class=\"chain-arrow\">→</span> ") r.chain;
  disclaimer = text_or_empty r.sim_disclaimer;
}

-- What stands under the button.
pub data Shown : Type 0 where
  nothing loading : Shown
  answer : AiResult → Shown
  error_text : (message : Text) → Shown

pub record Inspector : Type 0 where
  pub textarea : Text
  pub disabled : Bool
  pub shown : Shown
  -- The question that waits for its answer.
  pub asked : Option Text
  pub in_document : Bool
  pub key_listener : Bool

pub data InspectorEvent : Type 0 where
  -- The user types, or takes a suggestion.
  input : Text → InspectorEvent
  suggestion : Text → InspectorEvent
  submit close_click escape : InspectorEvent
  reply : Result AiReply → (elapsed : Text) → InspectorEvent

abbrev pub asked_with : Text → Inspector → Inspector
asked_with q i =
    if ltb (length q) 3 then i else record i { disabled = true; shown = loading; asked = some q }

abbrev pub shown_for : Result AiReply → Text → Shown
shown_for (ok r) elapsed = answer (render_ai_result r elapsed)
shown_for (throw message) elapsed = error_text message

abbrev pub answered : Option Text → Result AiReply → Text → Inspector → Inspector
answered none r elapsed i = i
answered (some q) r elapsed i = record i {
  disabled = false;
  shown = shown_for r elapsed;
  asked = none;
}

unfoldable pub on_event : InspectorEvent → Inspector → Inspector
on_event (input s) i = record i { textarea = s }
on_event (suggestion s) i = record i { textarea = trim s }
on_event submit i = if i.disabled then i else asked_with (trim i.textarea) i
on_event close_click i = record i { in_document = false }
on_event escape i =
    if i.key_listener then record i { in_document = false; key_listener = false } else i
on_event (reply r elapsed) i = answered i.asked r elapsed i

unfoldable pub run : List InspectorEvent → Inspector → Inspector
run [] i = i
run (e ∷ es) i = run es (on_event e i)

abbrev pub is_loading : Shown → Bool
is_loading loading = true
is_loading nothing = false
is_loading (answer r) = false
is_loading (error_text message) = false

abbrev AsksWell : Option Text → Bool → Shown → Type 0
AsksWell none disabled shown = (disabled ≡ false) × (is_loading shown ≡ false)
AsksWell (some q) disabled shown = (disabled ≡ true) × (is_loading shown ≡ true) × (3 ≤ length q)

-- The button is disabled and the page says that it is loading exactly while a question of three units
-- or more waits.
abbrev pub IsAsking : Inspector → Type 0
IsAsking i = AsksWell i.asked i.disabled i.shown

asked_with-IsAsking : (q : Text) (i : Inspector) → IsAsking i → IsAsking (asked_with q i)
asked_with-IsAsking q i h =
    if-cases IsAsking (ltb (length q) 3) (λ e. h) (λ e. (refl, refl, ground arith))

shown_for_done : (r : Result AiReply) (elapsed : Text) → is_loading (shown_for r elapsed) ≡ false
shown_for_done (ok r) elapsed = refl
shown_for_done (throw message) elapsed = refl

answered-IsAsking :
    (o : Option Text) (r : Result AiReply) (elapsed : Text) (i : Inspector)
    → IsAsking i
    → IsAsking (answered o r elapsed i)
answered-IsAsking none r elapsed i h = h
answered-IsAsking (some q) r elapsed i h = (refl, shown_for_done r elapsed)

on_event-IsAsking : (e : InspectorEvent) (i : Inspector) → IsAsking i → IsAsking (on_event e i)
unfolding on_event
on_event-IsAsking (input s) i h = h
on_event-IsAsking (suggestion s) i h = h
on_event-IsAsking submit i h =
    if-both IsAsking i.disabled h (asked_with-IsAsking (trim i.textarea) i h)
on_event-IsAsking close_click i h = h
on_event-IsAsking escape i h = if-both IsAsking i.key_listener h h
on_event-IsAsking (reply r elapsed) i h = answered-IsAsking i.asked r elapsed i h

-- Over any sequence of input, clicks, keys and replies of either kind, from an inspector for which it
-- holds: the button is disabled and the page says that it is loading exactly while a question waits,
-- and a question that waits has at least three units.
pub run-IsAsking : (es : List InspectorEvent) (i : Inspector) → IsAsking i → IsAsking (run es i)
unfolding run
run-IsAsking [] i h = h
run-IsAsking (e ∷ es) i h = run-IsAsking es (on_event e i) (on_event-IsAsking e i h)

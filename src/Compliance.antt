-- ===== src/Compliance.antt =====
-- demo/compliance_overlay.js: how a cell is scored. `window.h3` is a parameter. Epochs are whole
-- numbers, as the server sends them; a colour or a label of the page is not modelled.
mod Tests
pub mod Grades
pub mod Controller
pub mod Switch
pub mod Paint
use Prim.Native.Nat.{ℕ, ◌*◌}
use mobydb_render_engine.Base.{
  ℕ, suc, ◌+◌, ◌-◌, ◌/◌, ◌%◌, ◌^◌, Bool, true, false, not, ◌&&◌, ◌||◌, Option, none, some, List, [],
  ◌∷◌, Result, ok, throw, Text, codes, ◌===◌, take, length, every, keep, ltb, leb, ◌==◌,
  if◌then◌else◌, ℤ, pos, negsuc,
}
use mobydb_render_engine.Base.Int.{parse_int}
use mobydb_render_engine.LabVerify.Json.{
  Json, undefined, null, num, str, arr, obj, Fields, end, field, get, is_truthy, is_undefined,
}

-- `h3lib.getBaseCellNumber`, when the page has the library and it has the function.
abbrev pub BaseCellOf : Type 0
BaseCellOf = Option (Text → Result ℕ)

abbrev is_italian : ℕ → Bool
is_italian base = (base == 14) || (base == 15)

-- ToUint32 of what `parseInt` returned.
abbrev to_uint32 : Option ℤ → ℕ
to_uint32 none = 0
to_uint32 (some (pos n)) = n % 2 ^ 32
to_uint32 (some (negsuc n)) = 2 ^ 32 - 1 - n % 2 ^ 32

-- The decode by hand: the first eight characters, shifted by 13, and seven bits of the result.
unfoldable pub manual_base : Text → ℕ
manual_base h3 = to_uint32 (parse_int 16 (take 8 h3)) / 2 ^ 13 % 2 ^ 7

abbrev by_library : Text → Result ℕ → Bool
by_library h3 (ok base) = is_italian base
by_library h3 (throw e) = is_italian (manual_base h3)

abbrev in_italy : BaseCellOf → Text → Bool
in_italy none h3 = is_italian (manual_base h3)
in_italy (some base_of) h3 = by_library h3 (base_of h3)

unfoldable pub is_eu_cell : BaseCellOf → Json → Bool
is_eu_cell lib (str []) = false
is_eu_cell lib (str (c ∷ s)) = in_italy lib (c ∷ s)
is_eu_cell lib _ = false

-- `/^[0-9a-f]{lo,hi}$/i.test(v)` of a string v.
abbrev pub is_hex_digit : ℕ → Bool
is_hex_digit c =
    (leb b'0' c && leb c b'9') || (leb b'a' c && leb c b'f') || (leb b'A' c && leb c b'F')

abbrev pub is_hex_text : ℕ → ℕ → Json → Bool
is_hex_text lo hi (str s) = leb lo (length s) && leb (length s) hi && every is_hex_digit s
is_hex_text lo hi _ = false

abbrev pub or_else : Json → Json → Json
or_else v w = if is_truthy v then v else w

-- `v ?? w`.
abbrev pub nullish : Json → Json → Json
nullish undefined w = w
nullish null w = w
nullish v w = v

abbrev own : Text → Fields → Bool
own k end = false
own k (field j v fs) = (j === k) || own k fs

abbrev pub fields_of : Json → Fields
fields_of (obj fs) = fs
fields_of _ = end

-- The names that the loop after the spread takes from the inner object.
abbrev rescued : Text → Bool
rescued k =
    (k === codes "identity_pk")
    || (k === codes "signature")
    || (k === codes "content_hash")
    || (k === codes "epoch_id")
    || (k === codes "payload")
    || (k === codes "writer_pk")

-- `merged[k]`, for `merged = { ...inner, ...cell }` and the loop.
abbrev pub merged : Json → Text → Json
merged cell k =
    let outer = fields_of cell in
    let inner = fields_of (get (codes "cell_state") outer) in
    let spread = if own k outer then get k outer else get k inner in
    if is_undefined spread && rescued k then get k inner else spread

-- `v?.k`.
abbrev pub optional : Json → Text → Json
optional v k = get k (fields_of v)

abbrev epoch_of : Json → Json
epoch_of (num t) = num t
epoch_of v = optional v (codes "epoch_id")

-- The decimal digits of a whole number.
abbrev whole : Json → Option ℕ
whole (num t) = elim (parse_int 10 t) [ some (pos n) ↦ some n | _ ↦ none ]
whole _ = none

-- `Math.max(0, currentEpoch - rawEpoch)`, or NaN.
abbrev freshness_of : Option ℕ → Option ℕ → Option ℕ
freshness_of (some current) (some raw) = some (current - raw)
freshness_of _ _ = none

abbrev pub at_most_one : Option ℕ → Bool
at_most_one none = false
at_most_one (some n) = leb n 1

pub data Tier : Type 0 where
  tier_ok tier_wa tier_vi : Tier

-- The text beside a check: `current`, `n behind`, `ed25519` or the empty text.
pub data Aux : Type 0 where
  no_aux current ed25519 : Aux
  behind : ℕ → Aux

pub record Detail : Type 0 where
  pub signature_ok : Bool
  pub freshness_ok : Bool
  pub jurisdiction_ok : Bool
  pub delegation_ok : Bool
  pub fresh_aux : Aux
  pub deleg_aux : Aux

pub record Score : Type 0 where
  pub tier : Tier
  pub score : ℕ
  pub detail : Detail

abbrev fresh_label : Option ℕ → Aux
fresh_label none = no_aux
fresh_label (some n) = if n == 0 then current else behind n

-- From the four checks to the result.
unfoldable pub graded : Bool → Bool → Bool → Bool → Option ℕ → Score
graded signature fresh jurisdiction delegation freshness =
    let score = length (keep (λ b. b) (signature ∷ fresh ∷ jurisdiction ∷ delegation ∷ [])) in
    record {
      tier = if score == 4 then tier_ok else if score == 3 then tier_wa else tier_vi;
      score = score;
      detail = record {
        signature_ok = signature;
        freshness_ok = fresh;
        jurisdiction_ok = jurisdiction;
        delegation_ok = delegation;
        fresh_aux = fresh_label freshness;
        deleg_aux = if delegation then ed25519 else no_aux;
      };
    }

-- `typeof cell === 'object'` of a truthy value.
abbrev pub is_object : Json → Bool
is_object (obj fs) = true
is_object (arr items) = true
is_object _ = false

abbrev pub checks_signature : Json → Bool
checks_signature cell =
    let sig =
      or_else (or_else (merged cell (codes "signature")) (merged cell (codes "sig"))) (str []) in
    is_hex_text 120 128 sig

abbrev pub freshness : Json → Json → Option ℕ
freshness cell now =
    let raw =
      nullish (nullish (merged cell (codes "epoch_id")) (epoch_of (merged cell (codes "epoch"))))
        (optional (merged cell (codes "payload")) (codes "epoch")) in
    freshness_of (whole now) (whole raw)

abbrev pub checks_delegation : Json → Bool
checks_delegation cell =
    let key =
      or_else
        (or_else (or_else (merged cell (codes "identity_pk")) (merged cell (codes "writer_pk")))
          (merged cell (codes "pubkey")))
        (str []) in
    is_hex_text 64 64 key

unfoldable pub score_cell : BaseCellOf → Json → Json → Score
unfolding graded
score_cell lib cell now =
    if is_object cell
    then graded (checks_signature cell) (at_most_one (freshness cell now))
        (is_eu_cell lib (merged cell (codes "h3_cell"))) (checks_delegation cell)
        (freshness cell now)
    else graded false false false false none

-- A feature of the map's source: its cell id, and the score that `annotateCells` gave it.
pub record Annotated : Type 0 where
  pub cell_id : Text
  pub scored : Option Score

abbrev is_cell : Text → Json → Bool
is_cell id (str s) = s === id
is_cell id _ = false

-- `byH3.get(id)`: of several cells with the id the last one.
abbrev pub score_of : BaseCellOf → Json → Text → List Json → Option Score
score_of lib now id [] = none
score_of lib now id (c ∷ cs) =
    let own_score =
      if is_cell id (get (codes "h3_cell") (fields_of c))
      then some (score_cell lib c now)
      else none in
    elim (score_of lib now id cs) [ some s ↦ some s | none ↦ own_score ]

abbrev annotate_one : Option Score → Annotated → Annotated
annotate_one none f = f
annotate_one (some s) f = record f { scored = some s }

-- `annotateCells` on the features of the source, for cells whose id is a text.
unfoldable pub annotate_cells : BaseCellOf → Json → List Json → List Annotated → List Annotated
annotate_cells lib now cells [] = []
annotate_cells lib now cells (f ∷ fs) =
    annotate_one (score_of lib now f.cell_id cells) f ∷ annotate_cells lib now cells fs

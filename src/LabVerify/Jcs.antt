-- ===== src/LabVerify/Jcs.antt =====
-- Section 2 of demo/lab_verify.js: the RFC 8785 canonicaliser, with the `JSON.stringify` of a string
-- and the UTF-8 of `TextEncoder` that its callers use.
pub mod Order
use mobydb_render_engine.Base.{
  ℕ, ◌+◌, ◌-◌, ◌*◌, ◌/◌, ◌%◌, Bool, true, false, ◌&&◌, ◌||◌, List, [], ◌∷◌, ◌++◌, Result, ok, throw,
  ◌>>=◌, Text, codes, join, ltb, leb, ◌==◌, if◌then◌else◌,
}
use mobydb_render_engine.LabVerify.Json.{
  Json, undefined, null, bool, num, non_finite, str, arr, obj, other, Items, nil, cons, Fields, end,
  field, is_undefined,
}

abbrev hex_digit : ℕ → ℕ
hex_digit d = if ltb d 10 then b'0' + d else b'a' + (d - 10)

-- `\u` and four hexadecimal digits.
abbrev unicode_escape : ℕ → Text
unicode_escape c =
    b'\\'
    ∷ b'u'
    ∷ hex_digit (c / 4096 % 16)
    ∷ hex_digit (c / 256 % 16)
    ∷ hex_digit (c / 16 % 16)
    ∷ hex_digit (c % 16)
    ∷ []

abbrev pub is_high : ℕ → Bool
is_high c = leb 0xd800 c && ltb c 0xdc00

abbrev pub is_low : ℕ → Bool
is_low c = leb 0xdc00 c && ltb c 0xe000

-- A code unit that stands for itself or by an escape; a surrogate here has no partner.
unfoldable pub quote_unit : ℕ → Text
quote_unit c =
    if c == 34
    then b'\\' ∷ 34 ∷ []
    else if c == b'\\'
    then b'\\' ∷ b'\\' ∷ []
    else if c == 8
    then codes "\\b"
    else if c == 9
    then codes "\\t"
    else if c == 10
    then codes "\\n"
    else if c == 12
    then codes "\\f"
    else if c == 13
    then codes "\\r"
    else if ltb c 32 || is_high c || is_low c
    then unicode_escape c
    else c ∷ []

-- The flag says that the unit is the second of a pair whose first has been written.
unfoldable pub quote_units : Bool → Text → Text
quote_units paired [] = []
quote_units paired (c ∷ []) = if paired && is_low c then c ∷ [] else quote_unit c
quote_units paired (c ∷ (d ∷ s)) =
    if paired && is_low c
    then c ∷ quote_units false (d ∷ s)
    else if is_high c && is_low d
    then c ∷ quote_units true (d ∷ s)
    else quote_unit c ++ quote_units false (d ∷ s)

-- `JSON.stringify(s)` of a string.
unfoldable pub stringify : Text → Text
unfolding quote_units quote_unit
stringify s = 34 ∷ quote_units false s ++ 34 ∷ []

-- `a < b` of strings: by code units.
abbrev pub text_lt : Text → Text → Bool
text_lt s [] = false
text_lt [] (d ∷ t) = true
text_lt (c ∷ s) (d ∷ t) = if c == d then text_lt s t else ltb c d

-- `.sort()`, stable, on the parts that belong to the keys.
module _ {ℓ} {A : Type ℓ} where
  abbrev pub insert : Text × A → List (Text × A) → List (Text × A)
  insert p [] = p ∷ []
  insert p (q ∷ qs) = if text_lt q.0 p.0 then q ∷ insert p qs else p ∷ q ∷ qs

  abbrev pub sort : List (Text × A) → List (Text × A)
  sort [] = []
  sort (p ∷ ps) = insert p (sort ps)

-- `keys.map(k => JSON.stringify(k) + ':' + jcs(value[k]))` with the calls made.
abbrev pub members : List (Text × Result Text) → Result (List Text)
members [] = ok []
members ((k, r) ∷ ps) = do v ← r; rest ← members ps; ok ((stringify k ++ b':' ∷ v) ∷ rest)

abbrev pub object_text : List (Text × Result Text) → Result Text
object_text ps = do parts ← members (sort ps); ok (b'{' ∷ join (codes ",") parts ++ b'}' ∷ [])

unfoldable mutual
  pub jcs : Json → Result Text
  jcs null = ok (codes "null")
  jcs undefined = throw (codes "jcs: undefined is not serializable; remove the field")
  jcs (bool b) = ok (if b then codes "true" else codes "false")
  jcs (num t) = ok t
  jcs non_finite = throw (codes "jcs: non-finite number")
  jcs (str s) = ok (stringify s)
  jcs (arr xs) = do parts ← jcs_items xs; ok (b'[' ∷ join (codes ",") parts ++ b']' ∷ [])
  jcs (obj fs) = object_text (jcs_fields fs)
  jcs (other t) = throw (codes "jcs: unsupported type " ++ t)

  pub jcs_items : Items → Result (List Text)
  jcs_items nil = ok []
  jcs_items (cons x xs) = do part ← jcs x; parts ← jcs_items xs; ok (part ∷ parts)

  -- The keys whose value is not `undefined`, with what `jcs` makes of the value.
  pub jcs_fields : Fields → List (Text × Result Text)
  jcs_fields end = []
  jcs_fields (field k v fs) = if is_undefined v then jcs_fields fs else (k, jcs v) ∷ jcs_fields fs

-- `new TextEncoder().encode(s)`: UTF-8, a lone surrogate as U+FFFD.
abbrev utf8_of : ℕ → List ℕ
utf8_of p =
    if ltb p 0x80
    then p ∷ []
    else if ltb p 0x800
    then (0xc0 + p / 64) ∷ (0x80 + p % 64) ∷ []
    else if ltb p 0x10000
    then (0xe0 + p / 4096) ∷ (0x80 + p / 64 % 64) ∷ (0x80 + p % 64) ∷ []
    else (0xf0 + p / 262144) ∷ (0x80 + p / 4096 % 64) ∷ (0x80 + p / 64 % 64) ∷ (0x80 + p % 64) ∷ []

abbrev lone : ℕ → ℕ
lone c = if is_high c || is_low c then 0xfffd else c

unfoldable pub utf8 : Text → List ℕ
utf8 [] = []
utf8 (c ∷ []) = utf8_of (lone c)
utf8 (c ∷ (d ∷ s)) =
    let pair = utf8_of (0x10000 + (c - 0xd800) * 1024 + (d - 0xdc00)) ++ utf8 s in
    let one = utf8_of (lone c) ++ utf8 (d ∷ s) in if is_high c && is_low d then pair else one

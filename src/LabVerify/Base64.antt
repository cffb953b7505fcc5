-- ===== src/LabVerify/Base64.antt =====
-- Section 1 of demo/lab_verify.js: base64url. `atob` and `btoa` are written out after the WHATWG
-- definition of forgiving base64; a binary string is the list of its bytes.
pub mod RoundTrip
use mobydb_render_engine.Base.{
  ℕ, ◌+◌, ◌-◌, ◌*◌, ◌/◌, ◌%◌, Bool, ◌&&◌, ◌||◌, Option, none, some, List, [], ◌∷◌, ◌++◌, map,
  Result, ok, throw, ◌>>=◌, Text, codes, length, replicate, keep, is_empty, not, ltb, leb, ◌==◌,
  if◌then◌else◌,
}

abbrev pub Bytes : Type 0
Bytes = List ℕ

-- `s.replace(/-/g, '+').replace(/_/g, '/')`, and the other way round.
abbrev pub from_url : ℕ → ℕ
from_url c = if c == b'-' then b'+' else if c == b'_' then b'/' else c

abbrev pub to_url : ℕ → ℕ
to_url c = if c == b'+' then b'-' else if c == b'/' then b'_' else c

-- The standard alphabet.
abbrev pub symbol : ℕ → ℕ
symbol d =
    if ltb d 26
    then b'A' + d
    else if ltb d 52
    then b'a' + (d - 26)
    else if ltb d 62
    then b'0' + (d - 52)
    else if d == 62
    then b'+'
    else b'/'

abbrev pub sextet : ℕ → Option ℕ
sextet c =
    if leb b'A' c && leb c b'Z'
    then some (c - b'A')
    else if leb b'a' c && leb c b'z'
    then some (c - b'a' + 26)
    else if leb b'0' c && leb c b'9'
    then some (c - b'0' + 52)
    else if c == b'+'
    then some 62
    else if c == b'/'
    then some 63
    else none

abbrev pub is_ascii_space : ℕ → Bool
is_ascii_space c = (c == 9) || (c == 10) || (c == 12) || (c == 13) || (c == 32)

-- One or two `=` at the end are dropped.
abbrev pub drop_pad : Text → Text
drop_pad [] = []
drop_pad (c ∷ []) = if c == b'=' then [] else c ∷ []
drop_pad (c ∷ (d ∷ [])) = if d == b'=' then (if c == b'=' then [] else c ∷ []) else c ∷ d ∷ []
drop_pad (c ∷ (d ∷ (e ∷ s))) = c ∷ drop_pad (d ∷ (e ∷ s))

abbrev pub bad_character : Text
bad_character = codes "InvalidCharacterError"

abbrev pub value_of : ℕ → Result ℕ
value_of c = elim (sextet c) [ none ↦ throw bad_character | some d ↦ ok d ]

-- Four symbols make three bytes; the bits that are left over are dropped.
unfoldable pub decode : Text → Result Bytes
decode [] = ok []
decode (a ∷ []) = throw bad_character
decode (a ∷ (b ∷ [])) = do x ← value_of a; y ← value_of b; ok ((x * 4 + y / 16) ∷ [])
decode (a ∷ (b ∷ (c ∷ []))) = do
  x ← value_of a
  y ← value_of b
  z ← value_of c
  ok ((x * 4 + y / 16) ∷ (y % 16 * 16 + z / 4) ∷ [])
decode (a ∷ (b ∷ (c ∷ (d ∷ s)))) = do
  x ← value_of a
  y ← value_of b
  z ← value_of c
  w ← value_of d
  rest ← decode s
  ok ((x * 4 + y / 16) ∷ (y % 16 * 16 + z / 4) ∷ (z % 4 * 64 + w) ∷ rest)

unfoldable pub atob : Text → Result Bytes
unfolding decode
atob s =
    let packed = keep (λ c. not (is_ascii_space c)) s in
    decode (if length packed % 4 == 0 then drop_pad packed else packed)

unfoldable pub btoa : Bytes → Text
btoa [] = []
btoa (a ∷ []) = symbol (a / 4) ∷ symbol (a % 4 * 16) ∷ b'=' ∷ b'=' ∷ []
btoa (a ∷ (b ∷ [])) =
    symbol (a / 4) ∷ symbol (a % 4 * 16 + b / 16) ∷ symbol (b % 16 * 4) ∷ b'=' ∷ []
btoa (a ∷ (b ∷ (c ∷ s))) =
    symbol (a / 4)
    ∷ symbol (a % 4 * 16 + b / 16)
    ∷ symbol (b % 16 * 4 + c / 64)
    ∷ symbol (c % 64)
    ∷ btoa s

-- `.replace(/=+$/, '')`.
unfoldable pub strip_equals : Text → Text
strip_equals [] = []
strip_equals (c ∷ s) =
    let rest = strip_equals s in if is_empty rest && (c == b'=') then [] else c ∷ rest

unfoldable pub b64u_to_bytes : Text → Result Bytes
unfolding atob
b64u_to_bytes s =
    let b64 = map from_url s in
    let pad = (4 - length b64 % 4) % 4 in atob (b64 ++ replicate pad b'=')

unfoldable pub bytes_to_b64u : Bytes → Text
unfolding btoa strip_equals
bytes_to_b64u bytes = strip_equals (map to_url (btoa bytes))

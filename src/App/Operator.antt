-- ===== src/App/Operator.antt =====
-- `normalizeOperator` of demo/app.js and its table of aliases. Each pattern is a function on the trimmed
-- text: a prefix in any case leaves the rest of the text, on which the pattern goes on.
mod Tests
pub mod Casing
pub mod Enel
use mobydb_render_engine.Base.{
  ℕ, ◌+◌, Bool, true, false, not, ◌&&◌, ◌||◌, Option, none, some, List, [], ◌∷◌, Text, codes, leb,
  ◌==◌, every, is_empty, if◌then◌else◌,
}
use mobydb_render_engine.Base.Int.{is_space, trim_start}

-- `s.trim()`.
abbrev pub trim_end : Text → Text
trim_end [] = []
trim_end (c ∷ s) = let rest = trim_end s in if is_empty rest && is_space c then [] else c ∷ rest

abbrev pub trim : Text → Text
trim s = trim_end (trim_start s)

-- The flag `i`: only the letters of ASCII have another case that a pattern of such letters meets.
abbrev pub lower : ℕ → ℕ
lower c = if leb b'A' c && leb c b'Z' then c + 32 else c

-- `\w`.
abbrev pub is_word : ℕ → Bool
is_word c = (leb b'a' (lower c) && leb (lower c) b'z') || (leb b'0' c && leb c b'9') || (c == b'_')

-- What follows the prefix p, a text of small letters.
abbrev pub after : Text → Text → Option Text
after [] s = some s
after (p ∷ ps) [] = none
after (p ∷ ps) (c ∷ s) = if lower c == p then after ps s else none

abbrev pub then' : Option Text → (Text → Option Text) → Option Text
then' none f = none
then' (some s) f = f s

-- `\s+`, before a pattern that starts with a letter.
abbrev pub spaces : Text → Option Text
spaces [] = none
spaces (c ∷ s) = if is_space c then some (trim_start s) else none

-- `[-‐]?`, before a pattern that starts with a letter.
abbrev pub hyphen : Text → Text
hyphen [] = []
hyphen (c ∷ s) = if (c == b'-') || (c == 0x2010) then s else c ∷ s

abbrev pub matches : Option Text → Bool
matches none = false
matches (some s) = true

-- `\b` after a letter, and `\s*$`.
abbrev pub at_boundary : Option Text → Bool
at_boundary none = false
at_boundary (some []) = true
at_boundary (some (c ∷ s)) = not (is_word c)

abbrev pub only_spaces : Option Text → Bool
only_spaces none = false
only_spaces (some s) = every is_space s

abbrev pub after_words : Text → Text → Text → Option Text
after_words first second s = then' (then' (after first s) spaces) (after second)

abbrev pub hyphened : Text → Text → Text → Option Text
hyphened first second s = then' (then' (after first s) (λ r. some (hyphen r))) (after second)

pub record Alias : Type 0 where
  pub pattern : Text → Bool
  pub canonical : Text
  pub group : Text

abbrev alias : (Text → Bool) → Text → Text → Alias
alias pattern canonical group = record { pattern = pattern; canonical = canonical; group = group }

abbrev pub is_acea : Text → Bool
is_acea s = matches (after (codes "acea") s) || matches (after (codes "areti") s)

abbrev pub is_enel_name : Text → Bool
is_enel_name s =
    at_boundary (hyphened (codes "e") (codes "distribuzione") s)
    || at_boundary (after_words (codes "enel") (codes "distribuzione") s)
    || at_boundary (after_words (codes "enel") (codes "produzione") s)
    || at_boundary (after (codes "enel") s)

abbrev pub is_enel : Text → Bool
is_enel s = only_spaces (after (codes "enel") s)

abbrev pub is_railway : Text → Bool
is_railway s =
    matches (after_words (codes "rete") (codes "ferroviaria") s)
    || at_boundary (after (codes "rfi") s)

abbrev pub operator_aliases : List Alias
operator_aliases =
    alias is_acea (codes "Acea Distribuzione") (codes "acea")
    ∷ alias is_enel_name (codes "Enel Distribuzione") (codes "enel")
    ∷ alias is_enel (codes "Enel") (codes "enel")
    ∷ alias (λ s. matches (after (codes "terna") s)) (codes "Terna S.p.A.") (codes "terna")
    ∷ alias (λ s. matches (after (codes "unareti") s)) (codes "Unareti S.p.A.") (codes "unareti")
    ∷ alias is_railway (codes "Rete Ferroviaria Italiana") (codes "rfi")
    ∷ alias (λ s. matches (after (codes "a2a") s)) (codes "A2A") (codes "a2a")
    ∷ alias (λ s. only_spaces (after (codes "fs") s)) (codes "Ferrovie dello Stato") (codes "rfi")
    ∷ alias (λ s. matches (after (codes "italgen") s)) (codes "Italgen") (codes "italgen")
    ∷ []

pub record Operator : Type 0 where
  pub display : Text
  pub group : Text

-- The loop over the aliases.
abbrev pub first_alias : List Alias → Text → Operator
first_alias [] s = record { display = s; group = codes "other" }
first_alias (a ∷ rest) s =
    if a.pattern s then record { display = a.canonical; group = a.group } else first_alias rest s

unfoldable pub normalize_operator : Option Text → Operator
normalize_operator none = record { display = codes "Unspecified operator"; group = codes "unknown" }
normalize_operator (some []) = record {
  display = codes "Unspecified operator";
  group = codes "unknown";
}
normalize_operator (some (c ∷ s)) = first_alias operator_aliases (trim (c ∷ s))

-- ===== src/App/Operator/Casing.antt =====
-- The operator names of demo/app.js in another case: what the patterns of the aliases see of them.
use mobydb_render_engine.Base.{
  ℕ, ◌≡◌, refl, sym, ap, ◌∙◌, Bool, true, false, not, ◌&&◌, ◌||◌, Option, none, some, map_option,
  List, [], ◌∷◌, map, Text, codes, ◌==◌, every, is_empty, All, arith, if◌then◌else◌,
}
use mobydb_render_engine.Base.Int.{is_space, trim_start}
use mobydb_render_engine.App.Operator.{
  trim_end, trim, lower, is_word, after, then', spaces, hyphen, matches, at_boundary, only_spaces,
  after_words, hyphened, Alias, is_acea, is_enel_name, is_railway, operator_aliases, Operator,
  first_alias, normalize_operator,
}

is_space-lower : (c : ℕ) → is_space (lower c) ≡ is_space c
is_space-lower c = ground arith

lower-lower : (c : ℕ) → lower (lower c) ≡ lower c
lower-lower c = ground arith

is_word-lower : (c : ℕ) → is_word (lower c) ≡ is_word c
is_word-lower c = ground arith

is_hyphen-lower :
    (c : ℕ) → ((lower c == b'-') || (lower c == 0x2010)) ≡ ((c == b'-') || (c == 0x2010))
is_hyphen-lower c = ground arith

-- The text in small letters.
abbrev pub lowered : Text → Text
lowered s = map lower s

-- A test gives the same on a text and on it in small letters; a partial match leaves the same rest.
abbrev Ignores : (Text → Bool) → Type 0
Ignores p = (s : Text) → p (lowered s) ≡ p s

abbrev Commutes : (Text → Option Text) → Type 0
Commutes f = (s : Text) → f (lowered s) ≡ map_option lowered (f s)

if-map {ℓ κ} :
    {A : Type ℓ} {B : Type κ} (f : A → B) (b : Bool) (x y : A)
    → f (if b then x else y) ≡ (if b then f x else f y)
if-map f true x y = refl
if-map f false x y = refl

trim_start-lowered : (s : Text) → trim_start (lowered s) ≡ lowered (trim_start s)
trim_start-lowered [] = refl
trim_start-lowered (c ∷ s) =
    rw (is_space-lower c, trim_start-lowered s)
      (sym (if-map lowered (is_space c) (trim_start s) (c ∷ s)))

is_empty-lowered : (s : Text) → is_empty (lowered s) ≡ is_empty s
is_empty-lowered [] = refl
is_empty-lowered (c ∷ s) = refl

trim_end-lowered : (s : Text) → trim_end (lowered s) ≡ lowered (trim_end s)
trim_end-lowered [] = refl
trim_end-lowered (c ∷ s) =
    rw (is_space-lower c, trim_end-lowered s, is_empty-lowered (trim_end s))
      (sym (if-map lowered (is_empty (trim_end s) && is_space c) [] (c ∷ trim_end s)))

trim-lowered : (s : Text) → trim (lowered s) ≡ lowered (trim s)
trim-lowered s = ap trim_end (trim_start-lowered s) ∙ trim_end-lowered (trim_start s)

after-Commutes : (p : Text) → Commutes (after p)
after-Commutes [] s = refl
after-Commutes (p ∷ ps) [] = refl
after-Commutes (p ∷ ps) (c ∷ s) =
    rw (lower-lower c, after-Commutes ps s)
      (sym (if-map (map_option lowered) (lower c == p) (after ps s) none))

spaces-Commutes : Commutes spaces
spaces-Commutes [] = refl
spaces-Commutes (c ∷ s) =
    rw (is_space-lower c, trim_start-lowered s)
      (sym (if-map (map_option lowered) (is_space c) (some (trim_start s)) none))

hyphen-lowered : (s : Text) → hyphen (lowered s) ≡ lowered (hyphen s)
hyphen-lowered [] = refl
hyphen-lowered (c ∷ s) =
    rw (is_hyphen-lower c) (sym (if-map lowered ((c == b'-') || (c == 0x2010)) s (c ∷ s)))

then'-lowered :
    (o : Option Text) (f : Text → Option Text)
    → Commutes f
    → then' (map_option lowered o) f ≡ map_option lowered (then' o f)
then'-lowered none f h = refl
then'-lowered (some s) f h = h s

matches-lowered : (o : Option Text) → matches (map_option lowered o) ≡ matches o
matches-lowered none = refl
matches-lowered (some s) = refl

at_boundary-lowered : (o : Option Text) → at_boundary (map_option lowered o) ≡ at_boundary o
at_boundary-lowered none = refl
at_boundary-lowered (some []) = refl
at_boundary-lowered (some (c ∷ s)) = ap not (is_word-lower c)

every_space-lowered : (s : Text) → every is_space (lowered s) ≡ every is_space s
every_space-lowered [] = refl
every_space-lowered (c ∷ s) = rw (is_space-lower c, every_space-lowered s) refl

only_spaces-lowered : (o : Option Text) → only_spaces (map_option lowered o) ≡ only_spaces o
only_spaces-lowered none = refl
only_spaces-lowered (some s) = every_space-lowered s

after_words-Commutes : (first second : Text) → Commutes (after_words first second)
after_words-Commutes first second s =
    ap (λ o. then' (then' o spaces) (after second)) (after-Commutes first s)
    ∙ ap (λ o. then' o (after second)) (then'-lowered (after first s) spaces spaces-Commutes)
    ∙ then'-lowered (then' (after first s) spaces) (after second) (after-Commutes second)

-- A prefix, then the three ways in which a pattern ends.
prefix-Ignores : (p : Text) → Ignores (λ s. matches (after p s))
prefix-Ignores p s = ap matches (after-Commutes p s) ∙ matches-lowered (after p s)

word-Ignores : (f : Text → Option Text) → Commutes f → Ignores (λ s. at_boundary (f s))
word-Ignores f h s = ap at_boundary (h s) ∙ at_boundary-lowered (f s)

whole-Ignores : (p : Text) → Ignores (λ s. only_spaces (after p s))
whole-Ignores p s = ap only_spaces (after-Commutes p s) ∙ only_spaces-lowered (after p s)

either-Ignores : (p q : Text → Bool) → Ignores p → Ignores q → Ignores (λ s. p s || q s)
either-Ignores p q h k s = rw (h s, k s) refl

hyphened-Commutes : (first second : Text) → Commutes (hyphened first second)
hyphened-Commutes first second s =
    let skip = λ (r : Text). some (hyphen r) in
    ap (λ o. then' (then' o skip) (after second)) (after-Commutes first s)
    ∙ ap (λ o. then' o (after second))
        (then'-lowered (after first s) skip (λ r. ap some (hyphen-lowered r)))
    ∙ then'-lowered (then' (after first s) skip) (after second) (after-Commutes second)

is_enel_name-Ignores : Ignores is_enel_name
is_enel_name-Ignores s =
    let distribuzione = codes "distribuzione" in
    let enel = codes "enel" in
    rw
      (
        word-Ignores (hyphened (codes "e") distribuzione)
            (hyphened-Commutes (codes "e") distribuzione) s,
        word-Ignores (after_words enel distribuzione) (after_words-Commutes enel distribuzione) s,
        word-Ignores (after_words enel (codes "produzione"))
            (after_words-Commutes enel (codes "produzione")) s,
        word-Ignores (after enel) (after-Commutes enel) s,
      )
      refl

is_acea-Ignores : Ignores is_acea
is_acea-Ignores s = rw (prefix-Ignores (codes "acea") s, prefix-Ignores (codes "areti") s) refl

is_railway-Ignores : Ignores is_railway
is_railway-Ignores s =
    let rete = after_words-Commutes (codes "rete") (codes "ferroviaria") s in
    ap (λ o. matches o || at_boundary (after (codes "rfi") (lowered s))) rete
    ∙ rw
        (
          matches-lowered (after_words (codes "rete") (codes "ferroviaria") s),
          word-Ignores (after (codes "rfi")) (after-Commutes (codes "rfi")) s,
        )
        refl

operator_aliases-Ignores : All (λ a. Ignores a.pattern) operator_aliases
operator_aliases-Ignores = (
  is_acea-Ignores,
  (
    is_enel_name-Ignores,
    (
      whole-Ignores (codes "enel"),
      (
        prefix-Ignores (codes "terna"),
        (
          prefix-Ignores (codes "unareti"),
          (
            is_railway-Ignores,
            (
              prefix-Ignores (codes "a2a"),
              (whole-Ignores (codes "fs"), (prefix-Ignores (codes "italgen"), tt)),
            ),
          ),
        ),
      ),
    ),
  ),
)

lowered_twice : (s : Text) → lowered (lowered s) ≡ lowered s
lowered_twice [] = refl
lowered_twice (c ∷ s) = rw (lower-lower c, lowered_twice s) refl

-- Two operators of one group, whose displayed names differ in their case at most.
abbrev pub IsSameOperator : Operator → Operator → Type 0
IsSameOperator o p = (o.group ≡ p.group) × (lowered o.display ≡ lowered p.display)

abbrev named : Alias → Operator
named a = record { display = a.canonical; group = a.group }

either-IsSameOperator :
    (b : Bool) (o p q : Operator)
    → IsSameOperator p q
    → IsSameOperator (if b then o else p) (if b then o else q)
either-IsSameOperator true o p q h = (refl, refl)
either-IsSameOperator false o p q h = h

first_alias-IsSameOperator :
    (aliases : List Alias) (s : Text)
    → All (λ a. Ignores a.pattern) aliases
    → IsSameOperator (first_alias aliases (lowered s)) (first_alias aliases s)
first_alias-IsSameOperator [] s h = (refl, lowered_twice s)
first_alias-IsSameOperator (a ∷ rest) s (h, hs) = rw (h s) (
    either-IsSameOperator (a.pattern s) (named a) (first_alias rest (lowered s))
      (first_alias rest s) (first_alias-IsSameOperator rest s hs))

-- Whatever the tag, absent or not: written in small letters it is of the same operator group, and the
-- displayed names differ in their case at most.
pub normalize_operator_casing :
    (raw : Option Text)
    → IsSameOperator (normalize_operator (map_option lowered raw)) (normalize_operator raw)
unfolding normalize_operator
normalize_operator_casing none = (refl, refl)
normalize_operator_casing (some []) = (refl, refl)
normalize_operator_casing (some (c ∷ s)) =
    rw (trim-lowered (c ∷ s))
      (first_alias-IsSameOperator operator_aliases (trim (c ∷ s)) operator_aliases-Ignores)

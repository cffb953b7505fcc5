-- ===== src/App/Escape.antt =====
-- `escapeHtml` of demo/app.js: its four passes are one substitution, and leave no markup.
use mobydb_render_engine.Base.{
  ℕ, ◌≡◌, refl, sym, ap, ◌∙◌, inl, inr, Bool, true, not, ◌||◌, [], ◌∷◌, ◌++◌, Text, codes, ◌==◌,
  every, and_left, and_right, and_intro, arith, if◌then◌else◌, Bool-cases,
}
use mobydb_render_engine.App.{replace_all, escape_html}

-- What each unit of the text becomes.
abbrev pub entity : ℕ → Text
entity c =
    if c == b'&'
    then codes "&amp;"
    else if c == b'<'
    then codes "&lt;"
    else if c == b'>'
    then codes "&gt;"
    else if c == b'"'
    then codes "&quot;"
    else c ∷ []

abbrev pub substitute : (ℕ → Text) → Text → Text
substitute f [] = []
substitute f (c ∷ s) = f c ++ substitute f s

append_assoc : (s t u : Text) → (s ++ t) ++ u ≡ s ++ (t ++ u)
append_assoc [] t u = refl
append_assoc (c ∷ s) t u = ap (λ r. c ∷ r) (append_assoc s t u)

replace_all-append :
    (c : ℕ) (rep s t : Text)
    → replace_all c rep (s ++ t) ≡ replace_all c rep s ++ replace_all c rep t
replace_all-append c rep [] t = refl
replace_all-append c rep (d ∷ s) t = elim (Bool-cases (d == c)) [
  | inl e ↦
      rw (e, replace_all-append c rep s t)
        (sym (append_assoc rep (replace_all c rep s) (replace_all c rep t)))
  | inr e ↦ rw (e, replace_all-append c rep s t) refl
]

escape_html-append : (s t : Text) → escape_html (s ++ t) ≡ escape_html s ++ escape_html t
unfolding escape_html
escape_html-append s t =
    let amp = λ (u : Text). replace_all b'&' (codes "&amp;") u in
    let lt = λ (u : Text). replace_all b'<' (codes "&lt;") u in
    let gt = λ (u : Text). replace_all b'>' (codes "&gt;") u in
    rw
      (
        replace_all-append b'&' (codes "&amp;") s t,
        replace_all-append b'<' (codes "&lt;") (amp s) (amp t),
        replace_all-append b'>' (codes "&gt;") (lt (amp s)) (lt (amp t)),
        replace_all-append b'"' (codes "&quot;") (gt (lt (amp s))) (gt (lt (amp t))),
      )
      refl

escape_html_unit : (c : ℕ) → escape_html (c ∷ []) ≡ entity c
unfolding escape_html
escape_html_unit c = ground arith

escape_html_empty : escape_html [] ≡ []
unfolding escape_html
escape_html_empty = refl

escape_html-substitute : (s : Text) → escape_html s ≡ substitute entity s
escape_html-substitute [] = escape_html_empty
escape_html-substitute (c ∷ s) =
    escape_html-append (c ∷ []) s ∙ rw (escape_html_unit c, escape_html-substitute s) refl

abbrev pub is_markup : ℕ → Bool
is_markup c = (c == b'<') || (c == b'>') || (c == b'"')

every-append :
    (p : ℕ → Bool) (s t : Text) → every p s ≡ true → every p t ≡ true → every p (s ++ t) ≡ true
every-append p [] t h k = k
every-append p (c ∷ s) t h k =
    and_intro (p c) (every p (s ++ t)) (and_left (p c) (every p s) h)
      (every-append p s t (and_right (p c) (every p s) h) k)

entity_clean : (c : ℕ) → every (λ c. not (is_markup c)) (entity c) ≡ true
entity_clean c = ground arith

substitute_clean : (s : Text) → every (λ c. not (is_markup c)) (substitute entity s) ≡ true
substitute_clean [] = refl
substitute_clean (c ∷ s) =
    every-append (λ c. not (is_markup c)) (entity c) (substitute entity s) (entity_clean c)
      (substitute_clean s)

-- The four replacements are one substitution of each unit by its entity, whatever their order would
-- make of an ampersand they insert, and the result holds no angle bracket and no double quote.
pub escape_html_lem :
    (s : Text)
    → (escape_html s ≡ substitute entity s)
      × (every (λ c. not (is_markup c)) (escape_html s) ≡ true)
escape_html_lem s = (escape_html-substitute s, rw (escape_html-substitute s) (substitute_clean s))

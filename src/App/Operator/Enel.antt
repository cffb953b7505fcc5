-- ===== src/App/Operator/Enel.antt =====
-- The aliases of Enel in `normalizeOperator` of demo/app.js: the second takes what the third is for.
use mobydb_render_engine.Base.{
  ℕ, ◌≡◌, refl, sym, ap, ◌∙◌, Bool, true, false, Option, none, some, [], ◌∷◌, Text, codes, ◌===◌,
  ===_sound, inl, inr, Bool-cases, if-cases, if-both, arith,
}
use mobydb_render_engine.Base.Int.{is_space}
use mobydb_render_engine.App.Operator.{
  trim, after, matches, is_word, at_boundary, only_spaces, is_acea, is_enel_name, is_enel,
  is_railway, Operator, normalize_operator,
}

space_not_word : (c : ℕ) → is_space c ≡ true → is_word c ≡ false
space_not_word c h = ground arith

only_spaces_boundary : (o : Option Text) → only_spaces o ≡ true → at_boundary o ≡ true
only_spaces_boundary none h = ground arith
only_spaces_boundary (some []) h = refl
only_spaces_boundary (some (c ∷ s)) h = ground (arith, space_not_word c)

is_enel_named : (s : Text) → is_enel s ≡ true → is_enel_name s ≡ true
is_enel_named s h = ground (arith, only_spaces_boundary (after (codes "enel") s))

-- The name itself matches the second alias.
not_enel : (s : Text) → is_enel_name s ≡ false → (s === codes "Enel") ≡ false
not_enel s h = elim (Bool-cases (s === codes "Enel")) [
  | inl e ↦
      let same : true ≡ false = ap is_enel_name (sym (===_sound s (codes "Enel") e)) ∙ h in
      ground arith
  | inr e ↦ e
]

abbrev is_shown_enel : Operator → Bool
is_shown_enel o = o.display === codes "Enel"

-- No tag is displayed as `Enel`, although the third alias has that name: the second alias takes every
-- text that the third would.
pub never_enel : (raw : Option Text) → ((normalize_operator raw).display === codes "Enel") ≡ false
unfolding normalize_operator
never_enel none = refl
never_enel (some []) = refl
never_enel (some (c ∷ s)) =
    let t = trim (c ∷ s) in
    let P = λ (o : Operator). is_shown_enel o ≡ false in
    if-both P (is_acea t) refl (
      if-cases P (is_enel_name t) (λ e. refl)
        (λ unnamed.
          if-cases P (is_enel t) (λ e. absurd (ground (arith, is_enel_named t)))
            (λ e. if-both P (matches (after (codes "terna") t)) refl (
              if-both P (matches (after (codes "unareti") t)) refl (
                if-both P (is_railway t) refl (
                  if-both P (matches (after (codes "a2a") t)) refl (
                    if-both P (only_spaces (after (codes "fs") t)) refl (
                      if-both P (matches (after (codes "italgen") t)) refl
                        (not_enel t unnamed)))))))))

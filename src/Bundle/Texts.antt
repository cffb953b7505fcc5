-- ===== src/Bundle/Texts.antt =====
-- The texts that demo/compliance_button.js prints: they are cut to a length, and hold no markup.
use mobydb_render_engine.Base.{
  ℕ, zero, suc, ◌+◌, ◌≤◌, ◌≡◌, refl, ap, true, not, inl, inr, List, [], ◌∷◌, ◌++◌, Text, codes, ltb,
  ltb→lt, take, length, length-take, length-append, every, All, Bool-cases, arith,
}
use mobydb_render_engine.App.Escape.{is_markup, escape_html_lem}
use mobydb_render_engine.App.{escape_html}
use mobydb_render_engine.Bundle.{Bundle, Dashboard, Stat, ChainRow, ActRow, trunc, build_dashboard}

take_cut : (n : ℕ) (s e : Text) → n ≤ length s → take n (take n s ++ e) ≡ take n s
take_cut zero s e h = refl
take_cut (suc n) [] e h = elim h [ ]
take_cut (suc n) (c ∷ s) e h = ap (λ r. c ∷ r) (take_cut n s e (omega arith))

-- A printed text has at most n units and an ellipsis, and its first n units are those of the text.
pub trunc_lem : (s : Text) (n : ℕ) → (length (trunc s n) ≤ n + 1) × (take n (trunc s n) ≡ take n s)
unfolding trunc
trunc_lem s n = elim (Bool-cases (ltb n (length s))) [
  | inl e ↦
      let cut = length-append (take n s) (codes "…") in
      rw e (
        omega (arith, cut, length-take n s),
        take_cut n s (codes "…") (ground (arith, ltb→lt n (length s) e)),
      )
  | inr e ↦ rw e (ground arith, refl)
]

abbrev pub IsPlain : Text → Type 0
IsPlain s = every (λ c. not (is_markup c)) s ≡ true

-- The texts of a dashboard.
abbrev pub stat_texts : List Stat → List Text
stat_texts [] = []
stat_texts (s ∷ ss) = s.value ∷ s.label ∷ stat_texts ss

abbrev pub row_texts : List ChainRow → List Text
row_texts [] = []
row_texts (r ∷ rs) = r.label ∷ r.pubkey ∷ r.name ∷ row_texts rs

abbrev pub act_texts : List ActRow → List Text
act_texts [] = []
act_texts (a ∷ rest) = a.article ∷ a.topic ∷ a.evidence ∷ act_texts rest

abbrev pub texts : Dashboard → List Text
texts d =
    d.id
    ∷ d.generated
    ∷ d.hash
    ∷ d.signature
    ∷ d.signed_by
    ∷ (stat_texts d.stats ++ row_texts d.chain_rows ++ act_texts d.act_rows)

pub plain : (s : Text) → IsPlain (escape_html s)
plain s = (escape_html_lem s).1

module _ (to_fixed to_locale fmt_iso_short : Text → Text) where
  -- Whatever the server sends and the number formats print: no text that the dashboard puts into its
  -- markup holds an angle bracket or a double quote.
  pub build_dashboard-IsPlain :
      (bundle : Bundle)
      → All IsPlain (texts (build_dashboard to_fixed to_locale fmt_iso_short bundle))
  unfolding build_dashboard
  build_dashboard-IsPlain bundle = search (plain)

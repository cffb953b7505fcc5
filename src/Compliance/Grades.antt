-- ===== src/Compliance/Grades.antt =====
-- What the tier of `scoreCell` in demo/compliance_overlay.js says of the four checks.
use mobydb_render_engine.Base.{
  ℕ, ◌≤◌, ◌≡◌, ◌↔◌, Bool, true, false, ◌&&◌, Option, none, codes, if◌then◌else◌, arith,
}
use mobydb_render_engine.LabVerify.Json.{Json}
use mobydb_render_engine.Compliance.{
  BaseCellOf, Score, tier_ok, tier_wa, tier_vi, graded, score_cell, is_object, checks_signature,
  checks_delegation, freshness, at_most_one, is_eu_cell, merged,
}

-- Every check of the result holds.
abbrev pub passes_all : Score → Bool
passes_all s =
    s.detail.signature_ok && s.detail.freshness_ok && s.detail.jurisdiction_ok
    && s.detail.delegation_ok

tier_ok_iff :
    (a b c d : Bool) (f : Option ℕ)
    → ((graded a b c d f).tier ≡ tier_ok) ↔ ((a && b && c && d) ≡ true)
unfolding graded
tier_ok_iff a b c d f = ground arith

tier_score :
    (a b c d : Bool) (f : Option ℕ)
    → ((graded a b c d f).score ≤ 4)
      × (((graded a b c d f).tier ≡ tier_ok) ↔ ((graded a b c d f).score ≡ 4))
      × (((graded a b c d f).tier ≡ tier_wa) ↔ ((graded a b c d f).score ≡ 3))
      × (((graded a b c d f).tier ≡ tier_vi) ↔ ((graded a b c d f).score ≤ 2))
unfolding graded
tier_score a b c d f = (ground arith, ground arith, ground arith, ground arith)

abbrev pub IsGraded : Score → Type 0
IsGraded s =
    (s.score ≤ 4)
    × ((s.tier ≡ tier_ok) ↔ (s.score ≡ 4))
    × ((s.tier ≡ tier_wa) ↔ (s.score ≡ 3))
    × ((s.tier ≡ tier_vi) ↔ (s.score ≤ 2))
    × ((s.tier ≡ tier_ok) ↔ (passes_all s ≡ true))

graded-IsGraded : (a b c d : Bool) (f : Option ℕ) → IsGraded (graded a b c d f)
unfolding graded
graded-IsGraded a b c d f =
    let (le, four, three, two) = tier_score a b c d f in
    (le, four, three, two, tier_ok_iff a b c d f)

either-IsGraded : (b : Bool) (x y : Score) → IsGraded x → IsGraded y → IsGraded (if b then x else y)
either-IsGraded true x y h k = h
either-IsGraded false x y h k = k

-- Whatever the cell, the current epoch and the library: the score is at most 4, the tier is OK, WA or
-- VI exactly when the score is 4, 3 or at most 2, and it is OK exactly when all four checks of the
-- result hold.
pub score_cell-IsGraded : (lib : BaseCellOf) (cell now : Json) → IsGraded (score_cell lib cell now)
unfolding score_cell
score_cell-IsGraded lib cell now =
    either-IsGraded (is_object cell) _ _
      (graded-IsGraded (checks_signature cell) (at_most_one (freshness cell now))
        (is_eu_cell lib (merged cell (codes "h3_cell"))) (checks_delegation cell)
        (freshness cell now))
      (graded-IsGraded false false false false none)

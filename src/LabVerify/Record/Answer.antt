-- ===== src/LabVerify/Record/Answer.antt =====
-- What `verifyResponse` of demo/lab_verify.js says of the records of a response.
use mobydb_render_engine.Base.{
  ◌≡◌, refl, sym, ap, ◌∙◌, ◌↔◌, ◌⊎◌, inl, inr, Bool, true, false, ◌&&◌, List, [], ◌∷◌, Result, ok,
  throw, ◌>>=◌, Text, codes, length, every, All, arith, and_left, and_right, and_intro,
}
use mathlib.Core.List.{Memᴰ}
use mobydb_render_engine.LabVerify.Json.{Json, arr, is_truthy, Items, nil, cons}
use mobydb_render_engine.LabVerify.Cert.{Platform}
use mobydb_render_engine.LabVerify.Record.{
  LabVerdict, prop_or_undefined, verify_lab_record, verify_all, Response, malformed, verified,
  verify_response,
}
use mobydb_render_engine.LabVerify.Record.Settling.{accepts_record}
use mobydb_render_engine.LabVerify.Record.Trust.{IsGenuine, verify_lab_record_iff}

-- The records of a response.
abbrev pub elements : Items → List Json
elements nil = []
elements (cons r rs) = r ∷ elements rs

abbrev all_ok : Result (List LabVerdict) → Bool
all_ok (ok vs) = every (λ v. v.is_ok) vs
all_ok (throw e) = false

-- The promise resolved, and the overall answer is ok.
abbrev pub accepts_response : Result Response → Bool
accepts_response (ok malformed) = false
accepts_response (ok (verified b root n vs)) = b
accepts_response (throw e) = false

all_ok-cons :
    (r : Result LabVerdict) (rs : Result (List LabVerdict))
    → all_ok (r >>= (λ v. rs >>= (λ vs. ok (v ∷ vs)))) ≡ (accepts_record r && all_ok rs)
all_ok-cons (ok v) (ok vs) = refl
all_ok-cons (ok v) (throw e) = ground arith
all_ok-cons (throw e) rs = refl

module _ (env : Platform) where
  all_ok-verify_all :
      (root : Json) (rs : Items)
      → (all_ok (verify_all env root rs) ≡ true) ↔ All (λ r. IsGenuine env r root) (elements rs)
  unfolding verify_all
  all_ok-verify_all root nil = ((λ h. tt), (λ h. refl))
  all_ok-verify_all root (cons r rs) =
      let step = all_ok-cons (verify_lab_record env r root) (verify_all env root rs) in
      let ih = all_ok-verify_all root rs in
      let one = verify_lab_record_iff env r root in
      (
        λ h. let both = sym step ∙ h in (one.0 (and_left _ _ both), ih.0 (and_right _ _ both)),
        λ (p, ps). step ∙ and_intro _ _ (one.1 p) (ih.1 ps),
      )

  accepts-response :
      (root : Json) (r : Result (List LabVerdict))
      → accepts_response (r >>= (λ vs. ok (verified (every (λ v. v.is_ok) vs) root (length vs) vs)))
        ≡ all_ok r
  accepts-response root (ok vs) = refl
  accepts-response root (throw e) = refl

  -- For a response with a list of records and a trust root, the overall answer of `verifyResponse` is
  -- ok exactly when every record is genuine under that root.
  pub verify_response_iff :
      (response root : Json) (records : Items)
      → is_truthy response ≡ true
      → prop_or_undefined response (codes "records") ≡ arr records
      → prop_or_undefined response (codes "trust_root") ≡ root
      → is_truthy root ≡ true
      → (accepts_response (verify_response env response) ≡ true)
        ↔ All (λ r. IsGenuine env r root) (elements records)
  unfolding verify_response
  verify_response_iff response root records h1 h2 h3 h4 =
      rw (h1, h2, h3, h4, accepts-response root (verify_all env root records))
        (all_ok-verify_all root records)

  verify_all-cons_throw :
      (r : Result LabVerdict) (rs : Result (List LabVerdict))
      → ((e : Text) × (r ≡ throw e)) ⊎ ((e : Text) × (rs ≡ throw e))
      → (e : Text) × ((r >>= (λ v. rs >>= (λ vs. ok (v ∷ vs)))) ≡ throw e)
  verify_all-cons_throw (throw e) rs h = (e, refl)
  verify_all-cons_throw (ok v) (throw e) h = (e, refl)
  verify_all-cons_throw (ok v) (ok vs) (inl (e, h)) = ground arith
  verify_all-cons_throw (ok v) (ok vs) (inr (e, h)) = ground arith

  -- A record whose check rejects makes the check of every list that holds it reject.
  pub verify_all_rejects :
      (root : Json) (rs : Items) {r : Json} {e : Text}
      → Memᴰ r (elements rs)
      → verify_lab_record env r root ≡ throw e
      → (e' : Text) × (verify_all env root rs ≡ throw e')
  unfolding verify_all
  verify_all_rejects root nil m h = elim m [ ]
  verify_all_rejects root (cons r rs) {e = e} (Memᴰ.head p) h =
      verify_all-cons_throw (verify_lab_record env r root) (verify_all env root rs)
        (inl (e, ap (λ x. verify_lab_record env x root) (sym p) ∙ h))
  verify_all_rejects root (cons r rs) (Memᴰ.tail m) h =
      verify_all-cons_throw (verify_lab_record env r root) (verify_all env root rs)
        (inr (verify_all_rejects root rs m h))

-- ===== src/LabVerify/Jcs/Order.antt =====
-- The canonical form of demo/lab_verify.js does not depend on the order of an object's properties.
use mobydb_render_engine.Base.{
  ◌≡◌, refl, sym, ◌∙◌, ◌≢◌, ◌⊎◌, inl, inr, true, false, List, [], ◌∷◌, Text, if◌then◌else◌, ◌===◌,
  ===_sound, ===_false, Bool-cases, arith,
}
use mobydb_render_engine.LabVerify.Json.{
  Json, arr, obj, Items, nil, cons, Fields, end, field, is_undefined,
}
use mobydb_render_engine.LabVerify.Jcs.{text_lt, insert, sort, jcs, jcs_items, jcs_fields}

text_lt_asymm : (s t : Text) → text_lt s t ≡ true → text_lt t s ≡ false
text_lt_asymm [] [] h = refl
text_lt_asymm [] (d ∷ t) h = refl
text_lt_asymm (c ∷ s) [] h = ground arith
text_lt_asymm (c ∷ s) (d ∷ t) h = ground (arith, text_lt_asymm s t)

text_lt_trans : (s t u : Text) → text_lt s t ≡ true → text_lt t u ≡ true → text_lt s u ≡ true
text_lt_trans s t [] h k = ground arith
text_lt_trans [] t (e ∷ u) h k = refl
text_lt_trans (c ∷ s) [] (e ∷ u) h k = ground arith
text_lt_trans (c ∷ s) (d ∷ t) (e ∷ u) h k = ground (arith, text_lt_trans s t u)

text_lt_total : (s t : Text) → s ≢ t → (text_lt s t ≡ true) ⊎ (text_lt t s ≡ true)
text_lt_total [] [] h = absurd (h refl)
text_lt_total [] (d ∷ t) h = inl refl
text_lt_total (c ∷ s) [] h = inr refl
text_lt_total (c ∷ s) (d ∷ t) h = elim (Bool-cases (s === t)) [
  | inl same ↦ ground (arith, ===_sound s t)
  | inr other_tail ↦ ground (arith, text_lt_total s t (===_false s t other_tail))
]

module _ {ℓ} {A : Type ℓ} where
  insert_comm_lt :
      (p q : Text × A) (l : List (Text × A))
      → text_lt p.0 q.0 ≡ true
      → insert p (insert q l) ≡ insert q (insert p l)
  insert_comm_lt p q [] h = rw (h, text_lt_asymm p.0 q.0 h)
  insert_comm_lt p q (a ∷ l) h =
      ground (arith, text_lt_asymm p.0 q.0 h, text_lt_trans a.0 p.0 q.0, insert_comm_lt p q l h)

  insert_comm :
      (p q : Text × A) (l : List (Text × A))
      → p.0 ≢ q.0
      → insert p (insert q l) ≡ insert q (insert p l)
  insert_comm p q l h = elim (text_lt_total p.0 q.0 h) [
    | inl less ↦ insert_comm_lt p q l less
    | inr more ↦ sym (insert_comm_lt q p l more)
  ]

-- One object literal is another with its properties in another order, at any depth.
mutual
  pub data Same : Json → Json → Type 0 where
    same : (v : Json) → Same v v
    in_arr : {xs ys : Items} → SameItems xs ys → Same (arr xs) (arr ys)
    in_obj : {fs gs : Fields} → SameFields fs gs → Same (obj fs) (obj gs)

  pub data SameItems : Items → Items → Type 0 where
    both_nil : SameItems nil nil
    both_cons :
        {x y : Json} {xs ys : Items}
        → Same x y
        → SameItems xs ys
        → SameItems (cons x xs) (cons y ys)

  pub data SameFields : Fields → Fields → Type 0 where
    both_end : SameFields end end
    both_field :
        (k : Text) {v w : Json} {fs gs : Fields}
        → Same v w
        → SameFields fs gs
        → SameFields (field k v fs) (field k w gs)
    swap :
        (k j : Text) (v w : Json) (fs : Fields)
        → k ≢ j
        → SameFields (field k v (field j w fs)) (field j w (field k v fs))
    trans : {fs gs hs : Fields} → SameFields fs gs → SameFields gs hs → SameFields fs hs

is_undefined-Same : {v w : Json} → Same v w → is_undefined v ≡ is_undefined w
is_undefined-Same (same v) = refl
is_undefined-Same (in_arr h) = refl
is_undefined-Same (in_obj h) = refl

sort_field :
    (k : Text) (v : Json) (fs : Fields)
    → sort (jcs_fields (field k v fs))
      ≡ (if is_undefined v then sort (jcs_fields fs) else insert (k, jcs v) (sort (jcs_fields fs)))
unfolding jcs
sort_field k v fs = ground arith

sort_swap :
    (k j : Text) (v w : Json) (fs : Fields)
    → k ≢ j
    → sort (jcs_fields (field k v (field j w fs))) ≡ sort (jcs_fields (field j w (field k v fs)))
sort_swap k j v w fs h = ground (
  arith,
  sort_field k v (field j w fs),
  sort_field j w fs,
  sort_field j w (field k v fs),
  sort_field k v fs,
  insert_comm (k, jcs v) (j, jcs w) (sort (jcs_fields fs)) h,
)

mutual
  unfolding jcs

  jcs-Same' : {v w : Json} → Same v w → jcs v ≡ jcs w
  jcs-Same' (same v) = refl
  jcs-Same' (in_arr h) = rw (jcs-SameItems h)
  jcs-Same' (in_obj h) = cc (jcs-SameFields h)

  jcs-SameItems : {xs ys : Items} → SameItems xs ys → jcs_items xs ≡ jcs_items ys
  jcs-SameItems both_nil = refl
  jcs-SameItems (both_cons h hs) = rw (jcs-Same' h, jcs-SameItems hs)

  jcs-SameFields : {fs gs : Fields} → SameFields fs gs → sort (jcs_fields fs) ≡ sort (jcs_fields gs)
  jcs-SameFields both_end = refl
  jcs-SameFields (both_field k {v} {w} {fs} {gs} h hs) =
      ground (arith, is_undefined-Same h, jcs-Same' h, jcs-SameFields hs)
  jcs-SameFields (swap k j v w fs h) = sort_swap k j v w fs h
  jcs-SameFields (trans h k) = jcs-SameFields h ∙ jcs-SameFields k

-- Two values that differ in the order of their objects' properties, at any depth, have one
-- canonical form, or both throw the same error.
pub jcs-Same : {v w : Json} → Same v w → jcs v ≡ jcs w
jcs-Same h = jcs-Same' h

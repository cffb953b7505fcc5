-- ===== src/Backdrops.antt =====
-- The backdrops of modals and the key listeners of the document, by number, as demo/compliance_button.js
-- and demo/ai_observer_ticker.js keep them: a backdrop has a listener that removes both on Escape.
use mobydb_render_engine.Base.{
  ℕ, ◌≤◌, ◌≡◌, refl, ◌∙◌, Bool, true, false, not, ◌||◌, inl, inr, List, [], ◌∷◌, ◌++◌, ◌==◌, keep,
  length, Bool-cases, arith,
}

abbrev pub without : ℕ → List ℕ → List ℕ
without id = keep (λ other. not (other == id))

abbrev pub is_listening : ℕ → List ℕ → Bool
is_listening id [] = false
is_listening id (l ∷ ls) = (l == id) || is_listening id ls

-- At most one backdrop, and its key listener is there.
abbrev pub IsListening : List ℕ → List ℕ → Type 0
IsListening [] ls = Unit
IsListening (b ∷ []) ls = is_listening b ls ≡ true
IsListening (b ∷ (c ∷ bs)) ls = ⊥

pub is_listening_last : (id : ℕ) (ls : List ℕ) → is_listening id (ls ++ id ∷ []) ≡ true
is_listening_last id [] = ground arith
is_listening_last id (l ∷ ls) = ground (arith, is_listening_last id ls)

-- Another modal's listener is removed.
is_listening-without :
    (id b : ℕ) (ls : List ℕ)
    → (b == id) ≡ false
    → is_listening b (without id ls) ≡ is_listening b ls
is_listening-without id b [] h = refl
is_listening-without id b (l ∷ ls) h = ground (arith, is_listening-without id b ls)

pub without-IsListening :
    (id : ℕ) (bs ls : List ℕ) → IsListening bs ls → IsListening (without id bs) ls
without-IsListening id [] ls h = h
without-IsListening id (b ∷ []) ls h = elim (Bool-cases (b == id)) [
  | inl e ↦ rw e tt
  | inr e ↦ rw e h
]
without-IsListening id (b ∷ (c ∷ bs)) ls h = elim h [ ]

pub without_both-IsListening :
    (id : ℕ) (bs ls : List ℕ) → IsListening bs ls → IsListening (without id bs) (without id ls)
without_both-IsListening id [] ls h = h
without_both-IsListening id (b ∷ []) ls h = elim (Bool-cases (b == id)) [
  | inl e ↦ rw e tt
  | inr e ↦ rw e (is_listening-without id b ls e ∙ h)
]
without_both-IsListening id (b ∷ (c ∷ bs)) ls h = elim h [ ]

-- What Escape leaves on the page.
pub kept_none : (bs ls : List ℕ) → IsListening bs ls → keep (λ id. not (is_listening id ls)) bs ≡ []
kept_none [] ls h = refl
kept_none (b ∷ []) ls h = rw h refl
kept_none (b ∷ (c ∷ bs)) ls h = elim h [ ]

pub length-IsListening : (bs ls : List ℕ) → IsListening bs ls → length bs ≤ 1
length-IsListening [] ls h = omega arith
length-IsListening (b ∷ []) ls h = omega arith
length-IsListening (b ∷ (c ∷ bs)) ls h = elim h [ ]

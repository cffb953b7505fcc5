-- ===== src/App/Debounce.antt =====
-- `debounce` of demo/app.js, on calls with their times. A timer that is due when a call comes fires
-- before it.
use mobydb_render_engine.Base.{
  ℕ, ◌+◌, ◌≡◌, refl, ap, ◌∙◌, Bool, true, Option, none, some, List, [], ◌∷◌, ◌++◌, leb,
  if◌then◌else◌, inl, inr, Bool-cases,
}

pub record Timer {ℓ} (A : Type ℓ) : Type ℓ where
  -- The time at which the timer is due, and the arguments.
  pub t : Option (ℕ × A)
  pub fired : List A

module _ {ℓ} {A : Type ℓ} (ms : ℕ) where
  abbrev fire : ℕ → Option (ℕ × A) → List A → List A
  fire now none fired = fired
  fire now (some (due, args)) fired = if leb due now then fired ++ args ∷ [] else fired

  -- A call of the returned function.
  unfoldable pub call : ℕ × A → Timer A → Timer A
  call (now, args) s = record { t = some (now + ms, args); fired = fire now s.t s.fired }

  -- The calls, and a long silence.
  unfoldable pub debounce : List (ℕ × A) → Timer A → List A
  debounce [] s = elim s.t [ none ↦ s.fired | some (due, args) ↦ s.fired ++ args ∷ [] ]
  debounce (c ∷ cs) s = debounce cs (call c s)

  abbrev pub first_quiet : ℕ → List (ℕ × A) → Bool
  first_quiet now [] = true
  first_quiet now ((next, args) ∷ cs) = leb (now + ms) next

  -- The calls after which there is silence for the whole delay.
  abbrev pub quiet : List (ℕ × A) → List A
  quiet [] = []
  quiet ((now, args) ∷ cs) = if first_quiet now cs then args ∷ quiet cs else quiet cs

  append_assoc : (r s t : List A) → (r ++ s) ++ t ≡ r ++ (s ++ t)
  append_assoc [] s t = refl
  append_assoc (x ∷ r) s t = ap (λ u. x ∷ u) (append_assoc r s t)

  debounce_from :
      (cs : List (ℕ × A)) (now : ℕ) (args : A) (fired : List A)
      → debounce cs (record { t = some (now + ms, args); fired = fired })
        ≡ fired ++ quiet ((now, args) ∷ cs)
  unfolding debounce call
  debounce_from [] now args fired = refl
  debounce_from ((next, args') ∷ cs) now args fired = elim (Bool-cases (leb (now + ms) next)) [
    | inl e ↦ rw e (
        debounce_from cs next args' (fired ++ args ∷ [])
        ∙ append_assoc fired (args ∷ []) (quiet ((next, args') ∷ cs)))
    | inr e ↦ rw e (debounce_from cs next args' fired)
  ]

  -- Whatever the delay: of any sequence of calls, and with a long silence at the end, exactly those
  -- calls are passed on that are followed by silence for the delay, in their order.
  pub debounce-quiet :
      (cs : List (ℕ × A)) → debounce cs (record { t = none; fired = [] }) ≡ quiet cs
  unfolding debounce call
  debounce-quiet [] = refl
  debounce-quiet ((now, args) ∷ cs) = debounce_from cs now args []

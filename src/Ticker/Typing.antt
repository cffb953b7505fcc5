-- ===== src/Ticker/Typing.antt =====
-- The typewriter of demo/ai_observer_ticker.js.
use mobydb_render_engine.Base.{
  ℕ, suc, zero, ◌≤◌, ◌<◌, ◌≡◌, refl, sym, ap, ◌∙◌, true, false, none, some, [], ◌∷◌, ◌++◌, Text,
  length, get_elem?, take, get_elem?-lt, arith,
}
use mobydb_render_engine.Ticker.{Typewriter, typewrite_into, type_step}

abbrev pub type_times : ℕ → Typewriter → Typewriter
type_times zero w = w
type_times (suc n) w = type_step (type_times n w)

take-suc : (n : ℕ) (s : Text) {c : ℕ} → get_elem? s n ≡ some c → take (suc n) s ≡ take n s ++ c ∷ []
take-suc n [] h = ground arith
take-suc zero (x ∷ s) h = ground arith
take-suc (suc n) (x ∷ s) h = ap (λ r. x ∷ r) (take-suc n s h)

abbrev IsAt : ℕ → Text → Typewriter → Type 0
IsAt n s w = (w.shown ≡ take n s) × (w.full_text ≡ s) × (w.index ≡ n) × (w.is_running ≡ true)

type_step-IsAt :
    (n : ℕ) (s : Text) (w : Typewriter) → n < length s → IsAt n s w → IsAt (suc n) s (type_step w)
unfolding type_step
type_step-IsAt n s w h (a, b, i, r) =
    let (c, e) = get_elem?-lt s n h in rw (r, b, i, e, a) (sym (take-suc n s e), refl, refl, refl)

type_times-IsAt : (n : ℕ) (s : Text) → n ≤ length s → IsAt n s (type_times n (typewrite_into s))
type_times-IsAt zero s h = (refl, refl, refl, refl)
type_times-IsAt (suc n) s h = type_step-IsAt n s _ (omega arith) (type_times-IsAt n s (omega arith))

take-length : (s : Text) → take (length s) s ≡ s
take-length [] = refl
take-length (c ∷ s) = ap (λ r. c ∷ r) (take-length s)

get_elem?-length : (s : Text) → get_elem? s (length s) ≡ none
get_elem?-length [] = refl
get_elem?-length (c ∷ s) = get_elem?-length s

type_step_end :
    (s : Text) (w : Typewriter)
    → IsAt (length s) s w
    → ((type_step w).shown ≡ s) × ((type_step w).is_running ≡ false)
unfolding type_step
type_step_end s w (a, b, i, r) = rw (r, b, i, get_elem?-length s) (a ∙ take-length s, refl)

-- For a number of steps up to the length of the text, the typewriter runs and shows that many units
-- of it; one step after the last unit its interval is cleared, with the whole text shown.
pub typewrite_lem :
    (s : Text) (n : ℕ)
    → n ≤ length s
    → ((type_times n (typewrite_into s)).shown ≡ take n s)
      × ((type_times n (typewrite_into s)).is_running ≡ true)
      × ((type_times (suc (length s)) (typewrite_into s)).shown ≡ s)
      × ((type_times (suc (length s)) (typewrite_into s)).is_running ≡ false)
typewrite_lem s n h =
    let all = type_times-IsAt (length s) s (omega arith) in
    let (shown, stopped) = type_step_end s (type_times (length s) (typewrite_into s)) all in
    let (a, _, _, r) = type_times-IsAt n s h in (a, r, shown, stopped)

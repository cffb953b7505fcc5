-- ===== src/Base/Errors.antt =====
-- A computation of the source that returns, or throws an `Error` with its message.
use mathlib.Core.Path.{◌≡◌, refl}
use mathlib.Core.Logic.{◌⊎◌, inl, inr}
use mathlib.Core.List.{List, [], ◌∷◌}
use native.Mathlib.Omega.{arith}
use mobydb_render_engine.Base.Strings.{Text}

pub data Result {ℓ} (A : Type ℓ) : Type ℓ where
  ok : A → Result A
  throw : Text → Result A

infixl 5 ◌>>=◌ ◌>>◌
abbrev pub ◌>>=◌ {ℓ κ} : {A : Type ℓ} {B : Type κ} → Result A → (A → Result B) → Result B
ok a >>= f = f a
throw e >>= f = throw e

abbrev pub ◌>>◌ {ℓ} : {B : Type ℓ} → Result (Unit {0}) → Result B → Result B
m >> k = m >>= λ _. k

-- `items.map(f)` where `f` may throw.
abbrev pub traverse {ℓ κ} : {A : Type ℓ} {B : Type κ} → (A → Result B) → List A → Result (List B)
traverse f [] = ok []
traverse f (x ∷ xs) = do y ← f x; ys ← traverse f xs; ok (y ∷ ys)

pub Result-cases {ℓ} :
    {A : Type ℓ} (r : Result A) → ((a : A) × (r ≡ ok a)) ⊎ ((e : Text) × (r ≡ throw e))
Result-cases (ok a) = inl (a, refl)
Result-cases (throw e) = inr (e, refl)

-- A chain that returned did so step by step.
pub >>=-eq-ok {κ ℓ} :
    {B : Type κ} {A : Type ℓ} (first : Result A) (next : A → Result B) {out : B}
    → (first >>= next) ≡ ok out
    → (x : A) × (first ≡ ok x) × (next x ≡ ok out)
>>=-eq-ok (throw message) next h = ground arith
>>=-eq-ok (ok x) next h = (x, refl, h)

-- A chain that threw did so at its first step or after it.
pub >>=-eq-throw {κ ℓ} :
    {B : Type κ} {A : Type ℓ} (first : Result A) (next : A → Result B) {e : Text}
    → (first >>= next) ≡ throw e
    → (first ≡ throw e) ⊎ ((x : A) × (first ≡ ok x) × (next x ≡ throw e))
>>=-eq-throw (ok x) next h = inr (x, refl, h)
>>=-eq-throw (throw message) next h = inl (ground arith)

-- A chain of steps that each return: a postcondition of the rest is one of the whole.
pub bind_holds {ℓ κ μ} :
    {A : Type ℓ} {B : Type κ} (P : B → Type μ) (m : Result A) (f : A → Result B) {a : A}
    → m ≡ ok a
    → (b : B) × (f a ≡ ok b) × P b
    → (b : B) × ((m >>= f) ≡ ok b) × P b
bind_holds P m f e (b, q, p) = (b, rw e q, p)

-- What holds of the result, if the computation returns.
abbrev pub Holds {ℓ κ} : {A : Type ℓ} → (A → Type κ) → Result A → Type κ
Holds P (ok a) = P a
Holds P (throw e) = Unit

pub Holds-bind {ℓ κ μ} :
    {A : Type ℓ} {B : Type κ} (P : B → Type μ) (m : Result A) (f : A → Result B)
    → ((a : A) → m ≡ ok a → Holds P (f a))
    → Holds P (m >>= f)
Holds-bind P (ok a) f h = h a refl
Holds-bind P (throw e) f h = tt

pub Holds-returned {ℓ κ} :
    {A : Type ℓ} (P : A → Type κ) (m : Result A) {a : A} → Holds P m → m ≡ ok a → P a
Holds-returned P (ok b) h e = ground arith
Holds-returned P (throw x) h e = ground arith

-- ===== src/LabVerify/Record/Settling.antt =====
-- How `verifyLabRecord` of demo/lab_verify.js comes to its verdict: its guards, and the errors that it
-- collects.
use mobydb_render_engine.Base.{
  ◌≡◌, refl, Bool, true, false, not, ◌||◌, List, [], ◌∷◌, ◌++◌, Result, ok, throw, every, is_empty,
  arith, if◌then◌else◌, and_left, and_right,
}
use mobydb_render_engine.LabVerify.Json.{Json}
use mobydb_render_engine.LabVerify.Cert.{Platform, Problem, CertCheck, outer_invalid}
use mobydb_render_engine.LabVerify.Cert.Valid.{accepts}
use mobydb_render_engine.LabVerify.Record.{LabVerdict, chain_errors, unless, settle}

is_empty-append :
    (xs ys : List Problem)
    → is_empty (xs ++ ys) ≡ true
    → (is_empty xs ≡ true) × (is_empty ys ≡ true)
is_empty-append [] ys h = (refl, h)
is_empty-append (x ∷ xs) ys h = ground arith

unless_empty : (b : Bool) (p : Problem) → is_empty (unless b p) ≡ true → b ≡ true
unless_empty true p h = refl
unless_empty false p h = ground arith

chain_errors_of_every :
    (chain : List CertCheck) → every (λ c. c.is_ok) chain ≡ true → chain_errors chain ≡ []
chain_errors_of_every [] h = refl
chain_errors_of_every (c ∷ cs) h = ground (arith, chain_errors_of_every cs)

pub every_three :
    (a b c : CertCheck)
    → every (λ c. c.is_ok) (a ∷ b ∷ c ∷ []) ≡ true
    → (a.is_ok ≡ true) × (b.is_ok ≡ true) × (c.is_ok ≡ true)
every_three a b c h = (ground arith, ground arith, ground arith)

-- The verifier resolved, and said that the record is genuine.
abbrev pub accepts_record : Result LabVerdict → Bool
accepts_record (ok v) = v.is_ok
accepts_record (throw e) = false

pub accepted_record :
    (r : Result LabVerdict)
    → accepts_record r ≡ true
    → (v : LabVerdict) × (r ≡ ok v) × (v.is_ok ≡ true)
accepted_record (ok v) h = (v, refl, h)
accepted_record (throw e) h = ground arith

pub accepted :
    (r : Result CertCheck) → accepts r ≡ true → (c : CertCheck) × (r ≡ ok c) × (c.is_ok ≡ true)
accepted (ok c) h = (c, refl, h)
accepted (throw e) h = ground arith

pub guards_sound :
    (b1 b2 b3 b4 : Bool) (x1 x2 x3 rest : Result LabVerdict)
    → accepts_record x1 ≡ false
    → accepts_record x2 ≡ false
    → accepts_record x3 ≡ false
    → accepts_record
        (if not b1 then x1 else if not b2 || not b3 then x2 else if not b4 then x3 else rest)
      ≡ true
    → (b1 ≡ true) × (b2 ≡ true) × (b3 ≡ true) × (b4 ≡ true) × (accepts_record rest ≡ true)
guards_sound true true true true x1 x2 x3 rest k1 k2 k3 h = (refl, refl, refl, refl, h)
guards_sound true true true false x1 x2 x3 rest k1 k2 k3 h = ground arith
guards_sound true true false b4 x1 x2 x3 rest k1 k2 k3 h = ground arith
guards_sound true false b3 b4 x1 x2 x3 rest k1 k2 k3 h = ground arith
guards_sound false b2 b3 b4 x1 x2 x3 rest k1 k2 k3 h = ground arith

module _ (env : Platform) where
  pub settle_sound :
      (record' root : Json) (anchored self_signed signer_same outer : Bool) (a s g : Problem)
      (chain : List CertCheck)
      → (settle env record' root anchored self_signed signer_same outer a s g chain).is_ok ≡ true
      → (anchored ≡ true)
        × (self_signed ≡ true)
        × (signer_same ≡ true)
        × (outer ≡ true)
        × (every (λ c. c.is_ok) chain ≡ true)
  unfolding settle
  settle_sound record' root anchored self_signed signer_same outer a s g chain h =
      let all_chain = and_right _ (every (λ c. c.is_ok) chain) h in
      let clean = and_left _ outer (and_left _ (every (λ c. c.is_ok) chain) h) in
      let (r4, e5) = is_empty-append _ (unless outer outer_invalid) clean in
      let (r3, e4) = is_empty-append _ (unless signer_same g) r4 in
      let (r2, _) = is_empty-append _ (chain_errors chain) r3 in
      let (e1, e2) = is_empty-append (unless anchored a) (unless self_signed s) r2 in
      (
        unless_empty anchored a e1,
        unless_empty self_signed s e2,
        unless_empty signer_same g e4,
        unless_empty outer outer_invalid e5,
        all_chain,
      )

  pub settle_complete :
      (record' root : Json) (a s g : Problem) (chain : List CertCheck)
      → every (λ c. c.is_ok) chain ≡ true
      → (settle env record' root true true true true a s g chain).is_ok ≡ true
  unfolding settle
  settle_complete record' root a s g chain h = rw (chain_errors_of_every chain h, h)

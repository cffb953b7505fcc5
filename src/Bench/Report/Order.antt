-- ===== src/Bench/Report/Order.antt =====
-- The order of the numbers that scripts/bench/p99.mjs reports.
use mobydb_render_engine.Base.{
  ℕ, zero, suc, ◌+◌, ◌-◌, ◌*◌, ◌/◌, ◌≤◌, ◌<◌, ◌≡◌, refl, ap, ◌∙◌, inl, inr, Option, none, some,
  List, [], ◌∷◌, length, drop, get_elem?, get_elem?-lt, All-get_elem?, leb, All, Bool-cases, arith,
  length-drop,
}
use Prim.Native.Nat.{min}
use mobydb_render_engine.Bench.{Samples, percentile, Table, table_of}
use mobydb_render_engine.Bench.Report.{insert, sort, report_of}

abbrev pub IsSorted : List ℕ → Type 0
IsSorted [] = Unit
IsSorted (x ∷ xs) = All (λ y. x ≤ y) xs × IsSorted xs

All-insert : (P : ℕ → Type 0) (a : ℕ) (xs : List ℕ) → P a → All P xs → All P (insert a xs)
All-insert P a [] p h = (p, tt)
All-insert P a (x ∷ xs) p (q, h) = elim (Bool-cases (leb a x)) [
  | inl e ↦ rw e (p, (q, h))
  | inr e ↦ rw e (q, All-insert P a xs p h)
]

All-le : (a x : ℕ) (xs : List ℕ) → a ≤ x → All (λ y. x ≤ y) xs → All (λ y. a ≤ y) xs
All-le a x [] h k = tt
All-le a x (y ∷ ys) h (l, k) = (omega arith, All-le a x ys h k)

insert-IsSorted : (a : ℕ) (xs : List ℕ) → IsSorted xs → IsSorted (insert a xs)
insert-IsSorted a [] h = (tt, tt)
insert-IsSorted a (x ∷ xs) (l, h) = elim (Bool-cases (leb a x)) [
  | inl e ↦ let le : a ≤ x = ground arith in rw e ((le, All-le a x xs le l), (l, h))
  | inr e ↦
      let le : x ≤ a = ground arith in
      rw e (All-insert (λ y. x ≤ y) a xs le l, insert-IsSorted a xs h)
]

sort-IsSorted : (xs : List ℕ) → IsSorted (sort xs)
sort-IsSorted [] = tt
sort-IsSorted (x ∷ xs) = insert-IsSorted x (sort xs) (sort-IsSorted xs)

length-insert : (a : ℕ) (xs : List ℕ) → length (insert a xs) ≡ suc (length xs)
length-insert a [] = refl
length-insert a (x ∷ xs) = elim (Bool-cases (leb a x)) [
  | inl e ↦ rw e refl
  | inr e ↦ rw e (ap suc (length-insert a xs))
]

length-sort : (xs : List ℕ) → length (sort xs) ≡ length xs
length-sort [] = refl
length-sort (x ∷ xs) = length-insert x (sort xs) ∙ ap suc (length-sort xs)

get_elem?_mono :
    (xs : List ℕ) (i j : ℕ) {a b : ℕ}
    → IsSorted xs
    → i ≤ j
    → get_elem? xs i ≡ some a
    → get_elem? xs j ≡ some b
    → a ≤ b
get_elem?_mono [] i j s h p q = ground arith
get_elem?_mono (x ∷ xs) zero zero s h p q = ground arith
get_elem?_mono (x ∷ xs) zero (suc j) (l, s) h p q =
    let below = All-get_elem? (λ y. x ≤ y) xs j l q in ground arith
get_elem?_mono (x ∷ xs) (suc i) zero s h p q = absurd (omega arith)
get_elem?_mono (x ∷ xs) (suc i) (suc j) (l, s) h p q = get_elem?_mono xs i j s (omega arith) p q

-- What the tables of the report say, in one chain.
abbrev pub IsChain : Table → Type 0
IsChain t =
    (m : ℕ) × (a : ℕ) × (b : ℕ) × (c : ℕ) × (d : ℕ) × (e : ℕ) × (t.minimum ≡ some m)
    × (t.p50 ≡ some a)
    × (t.p90 ≡ some b)
    × (t.p95 ≡ some c)
    × (t.p99 ≡ some d)
    × (t.maximum ≡ some e)
    × ((m ≤ a) × (a ≤ b) × (b ≤ c) × (c ≤ d) × (d ≤ e))

-- There is a table exactly when there are samples, and it is a chain.
abbrev pub IsReported : ℕ → Option Table → Type 0
IsReported kept none = kept ≡ 0
IsReported kept (some t) = (0 < kept) × IsChain t

table-IsReported : (xs : List ℕ) → IsSorted xs → IsReported (length xs) (table_of xs)
unfolding percentile
table-IsReported [] s = refl
table-IsReported (x ∷ xs) s =
    let n = length (x ∷ xs) in
    let at : (i : ℕ) → i < n → (v : ℕ) × (get_elem? (x ∷ xs) i ≡ some v) = get_elem?-lt (x ∷ xs) in
    let (a, pa) = at (min (n - 1) ((50 * n + 99) / 100 - 1)) (omega arith) in
    let (b, pb) = at (min (n - 1) ((90 * n + 99) / 100 - 1)) (omega arith) in
    let (c, pc) = at (min (n - 1) ((95 * n + 99) / 100 - 1)) (omega arith) in
    let (d, pd) = at (min (n - 1) ((99 * n + 99) / 100 - 1)) (omega arith) in
    let (e, pe) = at (n - 1) (omega arith) in
    let ascending : (x ≤ a) × (a ≤ b) × (b ≤ c) × (c ≤ d) × (d ≤ e) = (
      get_elem?_mono (x ∷ xs) 0 (min (n - 1) ((50 * n + 99) / 100 - 1)) s (omega arith) refl pa,
      get_elem?_mono (x ∷ xs) _ _ s (omega arith) pa pb,
      get_elem?_mono (x ∷ xs) _ _ s (omega arith) pb pc,
      get_elem?_mono (x ∷ xs) _ _ s (omega arith) pc pd,
      get_elem?_mono (x ∷ xs) _ _ s (omega arith) pd pe,
    ) in
    (omega arith, (x, a, b, c, d, e, refl, pa, pb, pc, pd, pe, ascending))

-- The table, if there is one, is a chain.
abbrev pub IsOrdered : Option Table → Type 0
IsOrdered none = Unit
IsOrdered (some t) = IsChain t

reported-IsOrdered : (n : ℕ) (t : Option Table) → IsReported n t → IsOrdered t
reported-IsOrdered n none h = tt
reported-IsOrdered n (some t) (h, chain) = chain

-- Whatever the samples: the report has a table of the totals exactly when a total is left after the
-- warm-up, and its tables of the totals and of the server's times each list the minimum, the percentiles
-- and the maximum in ascending order; the kept, the discarded and the failed calls are together all the
-- calls that were counted.
pub report_lem :
    (warmup : ℕ) (samples : Samples)
    → let r = report_of warmup samples in
      IsReported r.kept r.total
      × IsOrdered r.server
      × (r.kept + r.discarded + r.n_errors ≡ length samples.totals + length samples.errors)
unfolding report_of
report_lem warmup samples = (
  table-IsReported (sort (drop warmup samples.totals)) (sort-IsSorted (drop warmup samples.totals)),
  reported-IsOrdered _ _ (
      table-IsReported (sort (drop warmup samples.servers))
        (sort-IsSorted (drop warmup samples.servers))),
  omega (arith, length-sort (drop warmup samples.totals), length-drop warmup samples.totals),
)

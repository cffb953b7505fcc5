-- ===== src/Bench/Bounds.antt =====
-- The bounds of scripts/bench/p99.mjs: the pool of calls, and the index of a percentile.
use mobydb_render_engine.Base.{
  ℕ, zero, suc, ◌+◌, ◌≤◌, ◌≡◌, refl, ◌&&◌, Bool, true, false, if◌then◌else◌, some, List, ◌∷◌,
  get_elem?-lt, ltb, ltb→lt, and_left, and_right, arith,
}
use mobydb_render_engine.Bench.{percentile, Pool, launch}

abbrev pub IsWithin : ℕ → ℕ → Pool → Type 0
IsWithin concurrency iterations p = (p.inflight ≤ concurrency) × (p.launched ≤ iterations)

either-IsWithin :
    (b : Bool) (c i : ℕ) (x y : Pool)
    → (b ≡ true → IsWithin c i x)
    → IsWithin c i y
    → IsWithin c i (if b then x else y)
either-IsWithin true c i x y h k = h refl
either-IsWithin false c i x y h k = k

launch-IsWithin : (fuel c i : ℕ) (p : Pool) → IsWithin c i p → IsWithin c i (launch fuel c i p)
unfolding launch
launch-IsWithin zero c i p h = h
launch-IsWithin (suc fuel) c i p h =
    let room = ltb p.inflight c in
    let left = ltb p.launched i in
    either-IsWithin (room && left) c i _ p
      (λ e.
        launch-IsWithin fuel c i _
          (ltb→lt p.inflight c (and_left room left e), ltb→lt p.launched i (and_right room left e)))
      h

-- Another call may be launched.
abbrev pub has_room : ℕ → ℕ → Pool → Bool
has_room c i p = ltb p.inflight c && ltb p.launched i

either_full :
    (b : Bool) (c i : ℕ) (x y : Pool)
    → has_room c i y ≡ b
    → has_room c i x ≡ false
    → has_room c i (if b then x else y) ≡ false
either_full true c i x y h k = k
either_full false c i x y h k = h

pub launch_full :
    (fuel c i : ℕ) (p : Pool) → i ≤ p.launched + fuel → has_room c i (launch fuel c i p) ≡ false
unfolding launch
launch_full zero c i p h = ground arith
launch_full (suc fuel) c i p h =
    either_full (has_room c i p) c i _ p refl (launch_full fuel c i _ (omega arith))

-- From a pool within its bounds, on as many rounds as there are iterations: the launches keep the calls
-- in flight within the concurrency and the launches within the iterations, and they stop only when one
-- of the two is reached.
pub launch_lem :
    (c i : ℕ) (p : Pool)
    → IsWithin c i p
    → IsWithin c i (launch i c i p) × (has_room c i (launch i c i p) ≡ false)
launch_lem c i p h = (launch-IsWithin i c i p h, launch_full i c i p (omega arith))

-- Of a list that is not empty, every percentile is an element.
pub percentile_lem : (x : ℕ) (xs : List ℕ) (p : ℕ) → (v : ℕ) × (percentile (x ∷ xs) p ≡ some v)
unfolding percentile
percentile_lem x xs p = get_elem?-lt (x ∷ xs) _ (omega arith)

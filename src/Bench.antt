-- ===== src/Bench.antt =====
-- scripts/bench/p99.mjs: arguments, the calls and their pool, and the statistics. A time is a number
-- of some fixed unit; the rank of a percentile is an exact fraction, where the source multiplies
-- doubles. The printed text is not modelled.
pub mod Bounds
pub mod Report
pub mod Main
mod Tests
use mobydb_render_engine.Base.{
  ℕ, zero, suc, ◌+◌, ◌-◌, ◌*◌, ◌/◌, Bool, true, false, not, ◌&&◌, Option, none, some, List, [], ◌∷◌,
  ◌++◌, Text, codes, length, get_elem?, drop, ltb, ◌===◌, starts_with, if◌then◌else◌,
}
use Prim.Native.Nat.{min}

-- The element of a sorted list that `percentile` picks; `none` is NaN.
unfoldable pub percentile : List ℕ → ℕ → Option ℕ
percentile [] p = none
percentile (x ∷ xs) p =
    let n = length (x ∷ xs) in get_elem? (x ∷ xs) (min (n - 1) ((p * n + 99) / 100 - 1))

abbrev pub sum_of : List ℕ → ℕ
sum_of [] = 0
sum_of (x ∷ xs) = x + sum_of xs

-- `mean`, by its numerator and denominator; `none` is NaN.
unfoldable pub mean : List ℕ → Option (ℕ × ℕ)
mean [] = none
mean (x ∷ xs) = some (sum_of (x ∷ xs), length (x ∷ xs))

-- What `printTable` shows of a sorted list that is not empty.
pub record Table : Type 0 where
  pub minimum : Option ℕ
  pub p50 : Option ℕ
  pub p90 : Option ℕ
  pub p95 : Option ℕ
  pub p99 : Option ℕ
  pub maximum : Option ℕ
  pub average : Option (ℕ × ℕ)

abbrev pub table_of : List ℕ → Option Table
table_of [] = none
table_of (x ∷ xs) =
    let sorted = x ∷ xs in
    some (record {
      minimum = get_elem? sorted 0;
      p50 = percentile sorted 50;
      p90 = percentile sorted 90;
      p95 = percentile sorted 95;
      p99 = percentile sorted 99;
      maximum = get_elem? sorted (length sorted - 1);
      average = mean sorted;
    })

-- A parsed argument: a flag, a text, or a text that `Number` reads.
pub data Argument : Type 0 where
  flag : Argument
  word numeric : Text → Argument

module _ (is_nan : Text → Bool) where
  abbrev pub value_of : Text → Argument
  value_of val = if is_nan val then word val else numeric val

  abbrev pub is_value : Text → Bool
  is_value [] = false
  is_value (c ∷ s) = not (starts_with (c ∷ s) (codes "--"))

  -- The loop of `parseArgs` over the arguments, the later entries of a key after the earlier ones; the
  -- flag says that the first argument has been taken as the value of the one before.
  abbrev pub parse_from : Bool → List Text → List (Text × Argument)
  parse_from skip [] = []
  parse_from skip (a ∷ []) =
      if not skip && starts_with a (codes "--") then (drop 2 a, flag) ∷ [] else []
  parse_from skip (a ∷ (b ∷ rest)) =
      let as_value = (drop 2 a, value_of b) ∷ parse_from true (b ∷ rest) in
      let as_flag = (drop 2 a, flag) ∷ parse_from false (b ∷ rest) in
      let other = parse_from false (b ∷ rest) in
      if skip
      then other
      else if starts_with a (codes "--")
      then (if is_value b then as_value else as_flag)
      else other

  unfoldable pub parse_args : List Text → List (Text × Argument)
  parse_args argv = parse_from false argv

-- What `callOnce` resolves to, as far as the loop reads it.
pub data CallResult : Type 0 where
  called : (total_ms : ℕ) → (server_ms : Option ℕ) → CallResult
  call_failed : (error : Text) → CallResult

pub record Samples : Type 0 where
  pub totals : List ℕ
  pub servers : List ℕ
  pub errors : List Text

abbrev pub push_server : Option ℕ → List ℕ → List ℕ
push_server none servers = servers
push_server (some ms) servers = servers ++ ms ∷ []

-- The body of the loop after a call.
unfoldable pub add_result : CallResult → Samples → Samples
add_result (called total server) s = record s {
  totals = s.totals ++ total ∷ [];
  servers = push_server server s.servers;
}
add_result (call_failed e) s = record s { errors = s.errors ++ e ∷ [] }

-- The branch for a concurrency of 1.
unfoldable pub run_all : List CallResult → Samples → Samples
run_all [] s = s
run_all (r ∷ rs) s = run_all rs (add_result r s)

pub record Pool : Type 0 where
  pub launched : ℕ
  pub inflight : ℕ
  pub samples : Samples

-- The inner `while`, on as many rounds as there are iterations.
unfoldable pub launch : (fuel concurrency iterations : ℕ) → Pool → Pool
launch zero concurrency iterations p = p
launch (suc fuel) concurrency iterations p =
    let more =
      launch fuel concurrency iterations
        (record p { launched = suc p.launched; inflight = suc p.inflight }) in
    if ltb p.inflight concurrency && ltb p.launched iterations then more else p

-- A call of the pool resolves.
unfoldable pub resolve : CallResult → Pool → Pool
resolve r p = record p { inflight = p.inflight - 1; samples = add_result r p.samples }

-- ===== src/Bench/Report.antt =====
-- The end of `main` of scripts/bench/p99.mjs, and `callOnce`: what a reply counts as, and the numbers of
-- the report. `JSON.parse`, the text of a value and the reading of a number are parameters; the wall
-- time and the layout are not modelled.
pub mod Order
use mobydb_render_engine.Base.{
  ℕ, ◌-◌, Bool, true, false, not, Option, none, some, List, [], ◌∷◌, ◌++◌, Result, ok, throw, ◌>>=◌,
  Text, codes, length, take, drop, leb, ℤ, pos, negsuc, if◌then◌else◌,
}
use Prim.Native.Nat.{min}
use mobydb_render_engine.LabVerify.Json.{Json, str, prop, is_truthy}
use mobydb_render_engine.App.Mcp.{Script, HttpReply, optional}
use mobydb_render_engine.Bench.{
  CallResult, called, call_failed, Samples, percentile, Table, table_of,
}

-- `.sort((a, b) => a - b)`.
abbrev pub insert : ℕ → List ℕ → List ℕ
insert a [] = a ∷ []
insert a (b ∷ bs) = if leb a b then a ∷ (b ∷ bs) else b ∷ insert a bs

abbrev pub sort : List ℕ → List ℕ
sort [] = []
sort (a ∷ rest) = insert a (sort rest)

-- `percentile(t, p) - percentile(s, p)`.
abbrev pub minus : ℕ → ℕ → ℤ
minus a b = if leb b a then pos (a - b) else negsuc (b - a - 1)

abbrev pub difference : Option ℕ → Option ℕ → Option ℤ
difference (some a) (some b) = some (minus a b)
difference _ _ = none

pub record Network : Type 0 where
  pub p50 : Option ℤ
  pub p95 : Option ℤ
  pub p99 : Option ℤ

pub record Report : Type 0 where
  pub kept : ℕ
  pub discarded : ℕ
  pub n_errors : ℕ
  pub total : Option Table
  pub server : Option Table
  pub network : Option Network
  pub first_errors : List Text

abbrev pub network_of : List ℕ → List ℕ → Option Network
network_of [] s = none
network_of (x ∷ xs) [] = none
network_of (x ∷ xs) (y ∷ ys) =
    let t = x ∷ xs in
    let s = y ∷ ys in
    some (record {
      p50 = difference (percentile t 50) (percentile s 50);
      p95 = difference (percentile t 95) (percentile s 95);
      p99 = difference (percentile t 99) (percentile s 99);
    })

unfoldable pub report_of : (warmup : ℕ) → Samples → Report
report_of warmup samples =
    let t = sort (drop warmup samples.totals) in
    let s = sort (drop warmup samples.servers) in
    record {
      kept = length t;
      discarded = min warmup (length samples.totals);
      n_errors = length samples.errors;
      total = table_of t;
      server = table_of s;
      network = network_of t s;
      first_errors = take 5 samples.errors;
    }

module _ (script : Script) (number_of : Json → Option ℕ) where
  open script use {json_parse, to_text}

  abbrev rpc_error : Json → Result CallResult
  rpc_error e = do
    code ← prop e (codes "code")
    message ← prop e (codes "message")
    ok (call_failed (codes "JSON-RPC " ++ to_text code ++ codes ": " ++ to_text message))

  abbrev read_body : ℕ → Json → Result CallResult
  read_body total_ms body = do
    error ← prop body (codes "error")
    (if is_truthy error
        then rpc_error error
        else ok (
            called total_ms (
              number_of (
                optional (optional (optional body (codes "result")) (codes "_meta"))
                  (codes "render_ms")))))

  abbrev caught : Result CallResult → CallResult
  caught (ok r) = r
  caught (throw message) = call_failed message

  -- On what `fetch` gives, a reply or a rejection, after a time.
  unfoldable pub call_once : ℕ → Result HttpReply → CallResult
  call_once total_ms fetched = caught (do
    resp ← fetched
    (if not resp.is_ok
        then ok (call_failed (codes "HTTP " ++ resp.status))
        else json_parse (str resp.text) >>= read_body total_ms))

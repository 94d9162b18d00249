-- ===== src/Loadtest/Report.antt =====
-- internal/loadtest/runner.go: the report on the results of the clients. Times are float64 there, whole nanoseconds
-- that a float64 holds exactly, and numbers here; `ErrorRate`, a float64, and the printing are left out. The index of
-- a percentile is computed as Go does, with the product of a length and a constant rounded to 53 bits, ties to even.
use mephi_sfu_server_project.Common.{
  ℕ, zero, suc, ◌-◌, ◌*◌, ◌/◌, ◌%◌, ◌^◌, str_eq, ◌&&◌, ◌||◌, List, [], ◌∷◌, ◌++◌, Option, none,
  some, length, ◌>>=◌, if◌then◌else◌, ltb, leb, ◌==◌,
}
use mephi_sfu_server_project.Map.{Map}
use mephi_sfu_server_project.Loadtest.{ClientResult, count_stage}

pub record Report : Type 0 where
  pub total_clients : ℕ
  pub connected : ℕ
  pub failed : ℕ
  pub latency_p50 : ℕ
  pub latency_p95 : ℕ
  pub latency_p99 : ℕ
  pub latency_max : ℕ
  pub errors_by_stage : Map ℕ
  pub nodes_count : ℕ

-- The counters and the times, as the loop over the results leaves them.
pub record Tally : Type 0 where
  pub connected : ℕ
  pub failed : ℕ
  pub errors_by_stage : Map ℕ
  pub latencies : List ℕ

unfoldable pub add_result : ClientResult → Tally → Tally
unfolding count_stage
add_result r t =
    if r.connected
    then record t { connected = suc t.connected; latencies = t.latencies ++ r.connection_time ∷ [] }
    else record t {
      failed = suc t.failed;
      errors_by_stage =
          if str_eq r.stage "" then t.errors_by_stage else count_stage r.stage t.errors_by_stage;
    }

unfoldable pub tally : List ClientResult → Tally → Tally
unfolding add_result
tally [] t = t
tally (r ∷ rest) t = tally rest (add_result r t)

-- `sort.Float64s`
unfoldable pub insert_sorted : ℕ → List ℕ → List ℕ
insert_sorted a [] = a ∷ []
insert_sorted a (b ∷ rest) =
    let more = insert_sorted a rest in if leb a b then a ∷ b ∷ rest else b ∷ more

unfoldable pub sort : List ℕ → List ℕ
unfolding insert_sorted
sort [] = []
sort (a ∷ rest) = insert_sorted a (sort rest)

-- The bits of `p` beyond the 53 that a float64 has.
unfoldable pub excess : ℕ → ℕ → ℕ
excess zero p = 0
excess (suc f) p = let more = excess f (p / 2) in if ltb p (2 ^ 53) then 0 else suc more

-- `p` without its last `suc k` bits, rounded to the nearest, ties to even.
unfoldable pub round_half_even : ℕ → ℕ → ℕ
round_half_even k p =
    let q = p / 2 ^ suc k in
    let r = p % 2 ^ suc k in if ltb (2 ^ k) r || (r == 2 ^ k && q % 2 == 1) then suc q else q

-- `int(float64(n) * c)` for the constant `c = m / 2 ^ 53`; a product of fewer than 117 bits is meant.
unfoldable pub float_index : ℕ → ℕ → ℕ
unfolding excess round_half_even
float_index m n = elim (excess 64 (n * m)) [
  | zero ↦ n * m / 2 ^ 53
  | suc k ↦ round_half_even k (n * m) * 2 ^ suc k / 2 ^ 53
]

-- The float64 constants 0.50, 0.95 and 0.99, in units of 2 ^ -53.
abbrev pub p50 : ℕ
p50 = 4503599627370496

abbrev pub p95 : ℕ
p95 = 8556839292003942

abbrev pub p99 : ℕ
p99 = 8917127262193582

-- An index out of range gives `none`, Go's panic.
unfoldable pub at : ℕ → List ℕ → Option ℕ
at n [] = none
at zero (a ∷ rest) = some a
at (suc n) (a ∷ rest) = at n rest

abbrev pub no_latency : Tally → ℕ → ℕ → Report
no_latency t count nodes = record {
  total_clients = count;
  connected = t.connected;
  failed = t.failed;
  latency_p50 = 0;
  latency_p95 = 0;
  latency_p99 = 0;
  latency_max = 0;
  errors_by_stage = t.errors_by_stage;
  nodes_count = nodes;
}

-- The four times of a report, over times that are not none.
unfoldable pub percentiles : List ℕ → Report → Option Report
unfolding at float_index
percentiles xs rep = do
  a ← at (float_index p50 (length xs)) xs
  b ← at (float_index p95 (length xs)) xs
  c ← at (float_index p99 (length xs)) xs
  d ← at (length xs - 1) xs
  some (record rep { latency_p50 = a; latency_p95 = b; latency_p99 = c; latency_max = d })

unfoldable pub build_report : List ClientResult → ℕ → Option Report
unfolding tally sort percentiles
build_report results nodes_count =
    let t =
      tally results (record { connected = 0; failed = 0; errors_by_stage = []; latencies = [] }) in
    let rep = no_latency t (length results) nodes_count in
    if ltb 0 (length t.latencies) then percentiles (sort t.latencies) rep else some rep

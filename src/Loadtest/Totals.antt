-- ===== src/Loadtest/Totals.antt =====
-- The report on a run of the load generator does not panic, and counts what there was.
use mephi_sfu_server_project.Common.{
  ℕ, suc, ◌+◌, ◌-◌, ◌≤◌, String, str_eq, eq_iff, true, false, List, [], ◌∷◌, ◌++◌, none, some,
  length, ◌≡◌, refl, sym, ◌∙◌, ap, subst, arith, if◌then◌else◌, ltb, Bool-cases, Option-cases, inl,
  inr, All,
}
use mephi_sfu_server_project.Map.{Map, lookup, total}
use mephi_sfu_server_project.Map.Laws.{lookup-insert}
use mephi_sfu_server_project.Map.Total.{total-insert_old, total-insert_new}
use mephi_sfu_server_project.Loadtest.{ClientResult, count_stage}
use mephi_sfu_server_project.Loadtest.Report.{
  Report, Tally, add_result, tally, sort, float_index, p50, p95, p99, at, percentiles, build_report,
  no_latency,
}
use mephi_sfu_server_project.Loadtest.Latency.{float_index-within}
use mephi_sfu_server_project.Loadtest.Sorting.{
  IsSorted, sort-IsSorted, sort-All_inv, length-sort, at-within, at-All, highest,
}

abbrev pub itself : ℕ → ℕ
itself n = n

-- The results that failed without a stage.
pub unstaged : List ClientResult → ℕ
unstaged [] = 0
unstaged (r ∷ rest) =
    (if r.connected then 0 else if str_eq r.stage "" then 1 else 0) + unstaged rest

-- The results that failed at a stage.
pub failures_at : String → List ClientResult → ℕ
failures_at stage [] = 0
failures_at stage (r ∷ rest) =
    (if r.connected then 0 else if str_eq r.stage stage then 1 else 0) + failures_at stage rest

-- What a report says of a stage.
pub count_at : String → Map ℕ → ℕ
count_at stage m = elim (lookup stage m) [ none ↦ 0 | some n ↦ n ]

count_at-count_stage :
    (k j : String) (m : Map ℕ)
    → count_at j (count_stage k m) ≡ count_at j m + (if str_eq k j then 1 else 0)
unfolding count_at count_stage
count_at-count_stage k j m =
    ground
      (arith, lookup-insert k j (suc (elim (lookup k m) [ none ↦ 0 | some n ↦ n ])) m, eq_iff k j)

-- The times of the results that connected.
pub times : List ClientResult → List ℕ
times [] = []
times (r ∷ rest) = if r.connected then r.connection_time ∷ times rest else times rest

total-count_stage :
    (stage : String) (m : Map ℕ) → total itself (count_stage stage m) ≡ suc (total itself m)
unfolding count_stage
total-count_stage stage m = elim (Option-cases (lookup stage m)) [
  | inl e ↦ ground (arith, e, total-insert_new itself stage 1 m e)
  | inr (n, e) ↦ ground (arith, e, total-insert_old itself stage (suc n) n m e)
]

-- What the loop over the results counts.
record Counted (results : List ClientResult) (before after : Tally) : Type 0 where
  all : after.connected + after.failed ≡ before.connected + before.failed + length results
  staged :
      total itself after.errors_by_stage + unstaged results + before.failed
      ≡ total itself before.errors_by_stage + after.failed
  at_stage :
      (stage : String)
      → count_at stage after.errors_by_stage
        ≡ count_at stage before.errors_by_stage
          + (if str_eq stage "" then 0 else failures_at stage results)
  latencies : after.latencies ≡ before.latencies ++ times results

append_nil : (xs : List ℕ) → xs ++ [] ≡ xs
append_nil [] = refl
append_nil (a ∷ xs) = ap (◌∷◌ a) (append_nil xs)

append_one : (xs : List ℕ) (a : ℕ) (ys : List ℕ) → (xs ++ a ∷ []) ++ ys ≡ xs ++ a ∷ ys
append_one [] a ys = refl
append_one (x ∷ xs) a ys = ap (◌∷◌ x) (append_one xs a ys)

added :
    (r : ClientResult) (rest : List ClientResult) (t : Tally)
    → (add_result r t).latencies ++ times rest ≡ t.latencies ++ times (r ∷ rest)
unfolding add_result times
added r rest t = elim (Bool-cases r.connected) [
  | inl e ↦ simp (e, add_result, times) (append_one t.latencies r.connection_time (times rest))
  | inr e ↦ simp (e, add_result, times) refl
]

tally-Counted : (results : List ClientResult) (t : Tally) → Counted results t (tally results t)
unfolding tally add_result unstaged times failures_at
tally-Counted [] t = record {
  all = omega arith;
  staged = omega arith;
  at_stage = λ stage. ground arith;
  latencies = sym (append_nil t.latencies);
}
tally-Counted (r ∷ rest) t =
    let v = tally-Counted rest (add_result r t) in
    elim (Bool-cases r.connected) [
      | inl e ↦ record {
        all = ground (arith, e, v.all);
        staged = ground (arith, e, v.staged);
        at_stage = λ stage. ground (arith, e, v.at_stage stage);
        latencies = v.latencies ∙ added r rest t;
      }
      | inr e ↦ record {
        all = ground (arith, e, v.all);
        staged = ground (arith, e, v.staged, total-count_stage r.stage t.errors_by_stage);
        at_stage = λ stage. ground (
          arith,
          e,
          v.at_stage stage,
          count_at-count_stage r.stage stage t.errors_by_stage,
          eq_iff r.stage stage,
          eq_iff r.stage "",
          eq_iff stage "",
        );
        latencies = v.latencies ∙ added r rest t;
      }
    ]

-- A report tells the results: those that connected and those that did not are all; for each stage it has the number
-- of the failures at that stage, and none for the empty stage; these and the failures without a stage are all
-- failures; no time of a client that connected is above the highest; and no percentile is.
pub record IsTrue (results : List ClientResult) (rep : Report) : Type 0 where
  pub all : rep.connected + rep.failed ≡ rep.total_clients
  pub whole : rep.total_clients ≡ length results
  pub staged : total itself rep.errors_by_stage + unstaged results ≡ rep.failed
  pub at_stage :
      (stage : String)
      → count_at stage rep.errors_by_stage
        ≡ (if str_eq stage "" then 0 else failures_at stage results)
  pub slowest : All (λ t. t ≤ rep.latency_max) (times results)
  pub ordered :
      (rep.latency_p50 ≤ rep.latency_max)
      × (rep.latency_p95 ≤ rep.latency_max)
      × (rep.latency_p99 ≤ rep.latency_max)

abbrev fresh : Tally
fresh = record { connected = 0; failed = 0; errors_by_stage = []; latencies = [] }

-- What `percentiles` gives for sorted times.
ranked :
    (x : ℕ) (xs : List ℕ) (rep : Report)
    → IsSorted (x ∷ xs)
    → (a : ℕ) × (b : ℕ) × (c : ℕ) × (d : ℕ) × (percentiles (x ∷ xs) rep
        ≡ some (record rep { latency_p50 = a; latency_p95 = b; latency_p99 = c; latency_max = d }))
      × All (λ t. t ≤ d) (x ∷ xs)
      × (a ≤ d)
      × (b ≤ d)
      × (c ≤ d)
unfolding percentiles
ranked x xs rep s =
    let ys = x ∷ xs in
    let a =
      at-within (float_index p50 (length ys)) ys
        (float_index-within p50 (length ys) (omega arith) (omega arith)) in
    let b =
      at-within (float_index p95 (length ys)) ys
        (float_index-within p95 (length ys) (omega arith) (omega arith)) in
    let c =
      at-within (float_index p99 (length ys)) ys
        (float_index-within p99 (length ys) (omega arith) (omega arith)) in
    let d = at-within (length xs) ys (omega arith) in
    let last : at (length ys - 1) ys ≡ some d.0 = ap (λ n. at n ys) (omega arith) ∙ d.1 in
    let top = highest x d.0 xs s d.1 in
    (
      a.0,
      b.0,
      c.0,
      d.0,
      rw (a.1, percentiles, b.1, c.1, last) refl,
      top,
      at-All (λ t. t ≤ d.0) _ a.0 ys a.1 top,
      at-All (λ t. t ≤ d.0) _ b.0 ys b.1 top,
      at-All (λ t. t ≤ d.0) _ c.0 ys c.1 top,
    )

All-none : (P : ℕ → Type 0) (xs : List ℕ) → length xs ≡ 0 → All P xs
All-none P [] e = tt
All-none P (a ∷ xs) e = absurd (omega (arith, e))

by_order :
    (results : List ClientResult) (nodes_count : ℕ) (xs : List ℕ)
    → sort (tally results fresh).latencies ≡ xs
    → IsSorted xs
    → (rep : Report) × (build_report results nodes_count ≡ some rep) × IsTrue results rep
unfolding build_report total count_at lookup
by_order results nodes_count [] e s =
    let t = tally results fresh in
    let v = tally-Counted results fresh in
    let size : length t.latencies ≡ 0 = omega (arith, length-sort t.latencies, ap length e) in
    let empty : ltb 0 (length t.latencies) ≡ false = ground (arith, size) in
    (
      no_latency t (length results) nodes_count,
      rw (empty, build_report) refl,
      record {
        all = ground (arith, v.all);
        whole = refl;
        staged = ground (arith, v.staged);
        at_stage = λ stage. ground (arith, v.at_stage stage);
        slowest = subst (All (λ x. x ≤ 0)) v.latencies (All-none _ t.latencies size);
        ordered = (omega arith, omega arith, omega arith);
      },
    )
by_order results nodes_count (x ∷ xs) e s =
    let t = tally results fresh in
    let v = tally-Counted results fresh in
    let rep = no_latency t (length results) nodes_count in
    let size : length t.latencies ≡ suc (length xs) =
      omega (arith, length-sort t.latencies, ap length e) in
    let some_there : ltb 0 (length t.latencies) ≡ true = ground (arith, size) in
    let (a, b, c, d, made, top, la, lb, lc) = ranked x xs rep s in
    (
      record rep { latency_p50 = a; latency_p95 = b; latency_p99 = c; latency_max = d },
      rw (some_there, build_report, e) made,
      record {
        all = ground (arith, v.all);
        whole = refl;
        staged = ground (arith, v.staged);
        at_stage = λ stage. ground (arith, v.at_stage stage);
        slowest =
            subst (All (λ y. y ≤ d)) v.latencies
              (sort-All_inv (λ y. y ≤ d) t.latencies (subst (All (λ y. y ≤ d)) (sym e) top));
        ordered = (la, lb, lc);
      },
    )

-- `buildReport` always returns a report, and it is true of the results: those that connected and those that did not
-- are all; for each stage that is not empty, the report has the number of the failures at just that stage, and all of
-- these with the failures without a stage are all failures; and neither a percentile nor a time of a client that
-- connected is above the highest. No index is out of range, for any number of clients, with the rounding of float64.
pub build_report-IsTrue :
    (results : List ClientResult) (nodes_count : ℕ)
    → (rep : Report) × (build_report results nodes_count ≡ some rep) × IsTrue results rep
build_report-IsTrue results nodes_count =
    let lat = (tally results fresh).latencies in
    by_order results nodes_count (sort lat) refl (sort-IsSorted lat)

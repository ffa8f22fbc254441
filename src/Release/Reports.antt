-- ===== src/Release/Reports.antt =====
-- `aggregate` of bench/release_compare.py: the reports of the trials of one checkout, as one report.
pub mod Aggregation
use tay.Prelude.{
  ℕ, suc, ◌/◌, Bool, true, false, not, ◌&&◌, ◌||◌, Option, none, some, List, [], ◌∷◌, ◌==◌, length,
  any, if◌then◌else◌,
}
use tay.Prelude.Outcome.{Outcome, ok, err, value_error, type_error, key_error, ◌>>=◌, ◌>>◌, reject}
use tay.Text.{Text, codes, same}
use tay.Number.{ℤ, pos, Float, nan, inf, finite, exact}
use tay.Value.{
  Value, null, bool, int, float, str, list, dict, other, Items, nil, cons, Fields, end, field, name,
  odd, lookup, get, get_or, put, count_items, count_fields,
}
use tay.Release.Trials.{Cohort, baseline, candidate}

-- `x == y` of two numbers
unfoldable pub equal_floats : Float → Float → Bool
equal_floats (finite s m) (finite r n) = m == n && (m == 0 || not (s && not r || (r && not s)))
equal_floats (inf s) (inf r) = not (s && not r || (r && not s))
equal_floats _ _ = false

abbrev pub number : Value → Option Float
number (bool true) = some (exact (pos 1))
number (bool false) = some (exact (pos 0))
number (int z) = some (exact z)
number (float x) = some x
number _ = none

abbrev pub equal_numbers : Option Float → Option Float → Bool
equal_numbers (some x) (some y) = equal_floats x y
equal_numbers _ _ = false

-- `v == w`, for values that a JSON document holds. Dicts are equal with any order of their keys.
unfoldable mutual
  unfolding equal_floats lookup count_fields

  pub alike : Value → Value → Bool
  alike null null = true
  alike (str t) (str s) = same t s
  alike (list vs) (list ws) = alike_items vs ws
  alike (dict fs) (dict gs) = count_fields fs == count_fields gs && alike_fields fs gs
  alike v w = equal_numbers (number v) (number w)

  pub alike_items : Items → Items → Bool
  alike_items nil nil = true
  alike_items (cons v vs) (cons w ws) = alike v w && alike_items vs ws
  alike_items _ _ = false

  pub alike_fields : Fields → Fields → Bool
  alike_fields end gs = true
  alike_fields (field (name k) v fs) gs =
      elim (lookup k gs) [ none ↦ false | some w ↦ alike v w ] && alike_fields fs gs
  alike_fields (field (odd n) v fs) gs = false

-- `IDENTITY`
abbrev pub identity : List Text
identity =
    codes "report_schema"
    ∷ codes "benchmark"
    ∷ codes "harness_sha256"
    ∷ codes "workload"
    ∷ codes "environment"
    ∷ codes "revision"
    ∷ codes "version"
    ∷ codes "working_tree_dirty"
    ∷ []

unfoldable pub changed : Fields → Fields → Bool
unfolding alike
changed first report = any (λ key. not (alike (get key report) (get key first))) identity

-- `.get` of a value that is no dict raises.
unfoldable pub trials_of : Value → Outcome Value
trials_of (dict workload) = ok (get (codes "trials") workload)
trials_of _ = err type_error

-- `len(measurements)`, and `measurements[0]`
unfoldable pub size : Value → Outcome ℕ
size (list vs) = ok (count_items vs)
size (dict fs) = ok (count_fields fs)
size (str t) = ok (length t)
size _ = err type_error

unfoldable pub first_of : Value → Outcome Value
first_of (list (cons v vs)) = ok v
first_of (str (c ∷ t)) = ok (str (c ∷ []))
first_of (dict fs) = err key_error
first_of _ = err type_error

unfoldable pub check_trials : Value → Outcome (Unit {0})
unfolding alike
check_trials v = reject (not (alike v (int (pos 1)))) value_error

-- One round of the loop over the reports
unfoldable pub check_report : Fields → Fields → Outcome (Unit {0})
unfolding changed trials_of size check_trials
check_report first report = do
  reject (changed first report) value_error
  trials ← trials_of (get_or (codes "workload") (dict end) report)
  check_trials trials
  n ← size (get_or (codes "measurements") (list nil) report)
  reject (not (n == 1)) value_error

unfoldable pub check_reports : Fields → List Fields → Outcome (Unit {0})
unfolding check_report
check_reports first [] = ok tt
check_reports first (report ∷ reports) = do check_report first report; check_reports first reports

-- `[report["measurements"][0] for report in reports]`
unfoldable pub measurements : List Fields → Outcome Items
unfolding first_of
measurements [] = ok nil
measurements (report ∷ reports) = do
  v ← first_of (get_or (codes "measurements") (list nil) report)
  vs ← measurements reports
  ok (cons v vs)

unfoldable pub with_trials : Value → ℕ → Outcome Fields
with_trials (dict workload) n = ok (put (codes "trials") (int (pos n)) workload)
with_trials _ n = err type_error

abbrev pub protocol : Text
protocol =
    codes
      "balanced-abba-v2; warmed fresh VM; bounded in-flight jobs; syncfs before Linux sync trials"

abbrev pub cohort_items : List Cohort → Items
cohort_items [] = nil
cohort_items (baseline ∷ cs) = cons (str (codes "baseline")) (cohort_items cs)
cohort_items (candidate ∷ cs) = cons (str (codes "candidate")) (cohort_items cs)

abbrev pub merged : Fields → Fields → Items → List Cohort → Text → Fields
merged first workload samples order orchestrator =
    put (codes "trial_order") (list (cohort_items order)) (
      put (codes "orchestrator_sha256") (str orchestrator) (
        put (codes "comparison_protocol") (str protocol) (
          put (codes "measurements") (list samples)
            (put (codes "workload") (dict workload) first))))

-- `aggregate(reports, order, orchestrator)`
unfoldable pub aggregate : List Fields → List Cohort → Text → Outcome Fields
unfolding check_reports measurements with_trials
aggregate [] order orchestrator = err value_error
aggregate (first ∷ reports) order orchestrator = do
  reject (not (suc (length reports) == length order / 2)) value_error
  check_reports first (first ∷ reports)
  workload ← with_trials (get (codes "workload") first) (suc (length reports))
  samples ← measurements (first ∷ reports)
  ok (merged first workload samples order orchestrator)

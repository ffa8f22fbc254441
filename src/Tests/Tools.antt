-- ===== src/Tests/Tools.antt =====
-- The diagnostics and the release tooling at concrete inputs.
use tay.Prelude.{
  false, ◌*◌, ◌/◌, ◌≤◌, ◌≡◌, ◌⊎◌, ◌↔◌, refl, true, false, none, some, List, [], ◌∷◌, inl, suc,
  length,
}
use tay.Prelude.Outcome.{Outcome, ok}
use tay.Text.{Text, codes, same, mem, utf8_size, has_nul}
use tay.Number.{pos, Float, exact}
use tay.Value.{
  Value, null, bool, int, float, str, list, dict, Items, nil, cons, Fields, end, field, name, get,
  lookup, count_items, count_fields,
}
use tay.Validation.{positive_finite}
use tay.SocketPath.{Host, discover_socket_path}
use tay.Http.{request}
use tay.Http.Settings.{bundle, pem, is_loopback, is_https, settings}
use tay.Client.Backoff.{below}
use tay.Command.{Member, instance_of, unrelated, candidates, only}
use tay.Command.Selection.{Has, Only, only_exact}
use tay.Http.Worker.Settings.{
  WorkerSettings, construct, min_request_timeout, construct_worker_bounds,
}
use tay.Doctor.{Probe, constructed, diagnose_http, diagnose_socket}
use tay.Doctor.Exact.{IsHealthy, IsReport, diagnose_http_exact, diagnose_socket_exact}
use tay.Release.Qualification.{runs_endpoint, qualified_run}
use tay.Release.Qualification.Sound.{HasPage, qualified_run-HasPage}
use tay.Release.Trials.{Cohort, baseline, candidate, repeated, trial_order}
use tay.Release.Trials.Balance.{is_baseline, is_candidate, count, places, trial_order_balanced}
use tay.Release.Reports.{aggregate, alike, merged, cohort_items}
use tay.Release.Reports.Aggregation.{AreSamples, aggregate_complete}
use tay.Tests.Remote.{listener, origin, with_bundle, small}

abbrev base_url : Text
base_url = codes "https://tay.example:8443"

small_accepted : positive_finite (float small) ≡ ok small
unfolding positive_finite tay.Number.is_finite tay.Number.not_positive
small_accepted = refl

diagnose_http_exact_example :
    (report : Fields) × ((diagnose_http listener
        (λ e. [])
        (λ t. none)
        base_url
        origin
        with_bundle
        (ok tt)
        true
        (float small)
        0).0
      ≡ ok report)
    × ((get (codes "ok") report ≡ bool true)
        ↔ IsHealthy listener
            (λ e. [])
            (constructed listener
              (λ e. [])
              (settings (λ t. none) origin (float small) with_bundle)
              (ok tt))
            true
            0)
    × (((diagnose_http listener
            (λ e. [])
            (λ t. none)
            base_url
            origin
            with_bundle
            (ok tt)
            true
            (float small)
            0).1
          ≡ 0)
        ⊎ ((diagnose_http listener
              (λ e. [])
              (λ t. none)
              base_url
              origin
              with_bundle
              (ok tt)
              true
              (float small)
              0).1
            ≡ (request listener (codes "GET") (codes "/health") none none 0).1))
diagnose_http_exact_example =
    diagnose_http_exact listener (λ e. []) (λ t. none) base_url origin with_bundle (ok tt) true
      (float small) small 0 small_accepted

abbrev plain_host : Host
plain_host = record {
  abspath = λ t. t;
  decimal = λ n. [];
  usable = λ t. false;
  exists = λ t. false;
  environment = λ t. none;
  uid = pos 0;
}

abbrev probes : Probe
probes = record {
  uid = 0;
  gid = 0;
  groups = nil;
  searchable = true;
  writable = true;
  stat = λ t. inl (record { uid = 0; gid = 0; mode = codes "0o660"; is_socket = true });
  connect = λ t. none;
}

abbrev run_path : Text
run_path = codes "/run/tay.sock"

discovered : discover_socket_path plain_host (some run_path) ≡ ok (run_path, codes "argument")
unfolding discover_socket_path utf8_size has_nul tay.SocketPath.validated_path
    tay.SocketPath.valid_path
discovered = refl

diagnose_socket_exact_example :
    (report : Fields) × (diagnose_socket plain_host probes (some run_path) (float small)
      ≡ ok report)
    × IsReport plain_host probes run_path (codes "argument") report
diagnose_socket_exact_example =
    diagnose_socket_exact plain_host probes run_path (codes "argument") (some run_path)
      (float small) small small_accepted discovered

-- One page that serves for the runs and for the jobs.
abbrev qualifying : Fields
qualifying =
    field (name (codes "workflow_runs"))
      (list (
        cons
          (dict (
            field (name (codes "head_sha")) (str (codes "abc")) (
              field (name (codes "conclusion")) (str (codes "success")) (
                field (name (codes "event")) (str (codes "workflow_dispatch"))
                  (field (name (codes "id")) (int (pos 7)) end)))))
          nil))
      (field (name (codes "jobs"))
        (list (
          cons
            (dict (
              field (name (codes "name")) (str (codes "Release qualification gate"))
                (field (name (codes "conclusion")) (str (codes "success")) end)))
            nil))
        end)

abbrev fetch : Text → Outcome (List Fields)
fetch endpoint = ok (qualifying ∷ [])

abbrev shown : Value → Text
shown v = codes "run"

let_through :
    qualified_run fetch (λ n. []) shown (codes "o/r") (codes "abc") ≡ ok (some (codes "run"))
unfolding qualified_run same get tay.Value.get_or tay.Responses.equals
let_through = refl

qualified_run-HasPage_example :
    (pages : List Fields) × (fetch (runs_endpoint fetch (λ n. []) shown (codes "o/r") (codes "abc"))
      ≡ ok pages)
    × HasPage fetch (λ n. []) shown (codes "o/r") (codes "abc") (codes "run") pages
qualified_run-HasPage_example =
    qualified_run-HasPage fetch (λ n. []) shown (codes "o/r") (codes "abc") (codes "run")
      let_through

four_trials : trial_order 4 ≡ ok (repeated 2)
unfolding trial_order
four_trials = refl

trial_order_balanced_example :
    (2 ≤ 4)
    × (4 ≤ 10)
    × (count is_baseline (repeated 2) ≡ 4)
    × (count is_candidate (repeated 2) ≡ 4)
    × (length (repeated 2) ≡ 2 * 4)
    × (places is_baseline 0 (repeated 2) ≡ places is_candidate 0 (repeated 2))
trial_order_balanced_example = trial_order_balanced 4 (repeated 2) four_trials

abbrev trial_report : Fields
trial_report =
    field (name (codes "workload")) (dict (field (name (codes "trials")) (int (pos 1)) end))
      (field (name (codes "measurements")) (list (cons (dict end) nil)) end)

abbrev abba : List Cohort
abba = baseline ∷ candidate ∷ candidate ∷ baseline ∷ []

abbrev combined : Fields
combined =
    merged trial_report (field (name (codes "trials")) (int (pos 2)) end)
      (cons (dict end) (cons (dict end) nil)) abba []

aggregated : aggregate (trial_report ∷ trial_report ∷ []) abba [] ≡ ok combined
unfolding aggregate alike get tay.Value.get_or same count_items tay.Number.exact tay.Value.put
aggregated = refl

aggregate_complete_example :
    (suc 1 ≡ 4 / 2)
    × ((samples : Items) × AreSamples trial_report (trial_report ∷ trial_report ∷ []) samples
        × (get (codes "measurements") combined ≡ list samples))
    × ((workload : Fields) × (get (codes "workload") combined ≡ dict workload)
        × (get (codes "trials") workload ≡ int (pos (suc 1))))
    × (get (codes "trial_order") combined ≡ list (cohort_items abba))
aggregate_complete_example =
    aggregate_complete trial_report (trial_report ∷ []) abba [] combined aggregated

abbrev two_names : List Member
two_names = instance_of 4 ∷ unrelated ∷ instance_of 4 ∷ []

only_exact_example : (only (candidates two_names) ≡ ok 4) ↔ (Has 4 two_names × Only 4 two_names)
only_exact_example = only_exact 4 two_names

abbrev half_minute : Float
half_minute = exact (pos 30)

abbrev worker_settings : WorkerSettings
worker_settings = record {
  request_timeout = half_minute;
  security = bundle;
  capacity = 2;
  queue = codes "q";
  runtime_id = codes "w";
}

worker_built :
    construct
      (λ t. none)
      origin
      (float half_minute)
      with_bundle
      (str (codes "q"))
      (int (pos 2))
      (str (codes "w"))
    ≡ ok worker_settings
unfolding construct settings positive_finite mem same utf8_size has_nul tay.Validation.identifier
    exact tay.Number.unit tay.Number.is_finite tay.Number.not_positive tay.Http.Settings.is_loopback
    tay.Protocol.validate_task_name min_request_timeout tay.Client.Backoff.below
worker_built = refl

construct_worker_bounds_example :
    (1 ≤ 2)
    × (2 ≤ 256)
    × (below half_minute min_request_timeout ≡ false)
    × ((is_loopback (λ t. none) origin ≡ true)
        ⊎ ((is_https origin ≡ true) × ((bundle ≡ pem) ⊎ (bundle ≡ bundle))))
construct_worker_bounds_example =
    construct_worker_bounds (λ t. none) origin (float half_minute) with_bundle (str (codes "q"))
      (int (pos 2)) (str (codes "w")) worker_settings worker_built

-- ===== src/Release/Qualification.antt =====
-- .github/scripts/check_release_qualification.py: the run of the qualification workflow that lets a
-- commit be released.
pub mod Sound
use tay.Prelude.{
  ℕ, Bool, true, false, ◌&&◌, ◌||◌, Option, none, some, List, [], ◌∷◌, ◌++◌, ◌==◌, leb, length,
  if◌then◌else◌,
}
use tay.Prelude.Outcome.{Outcome, ok, err, type_error, ◌>>=◌}
use tay.Text.{Text, codes}
use tay.Number.{pos}
use tay.Value.{Value, int, str, list, dict, Items, nil, cons, Fields, get, get_or}
use tay.Responses.{equals}

-- `re.fullmatch` of a commit
abbrev pub is_hex : ℕ → Bool
is_hex c = (leb b'0' c && leb c b'9') || (leb b'a' c && leb c b'f')

unfoldable pub all_hex : Text → Bool
all_hex [] = true
all_hex (c ∷ t) = is_hex c && all_hex t

unfoldable pub full_commit : Text → Bool
unfolding all_hex
full_commit t = all_hex t && (length t == 40 || length t == 64)

-- A dict of a list of the response; `.get` of anything else raises.
unfoldable pub as_dict : Value → Outcome Fields
as_dict (dict fs) = ok fs
as_dict _ = err type_error

unfoldable pub iterated : Value → Outcome Items
iterated (list vs) = ok vs
iterated _ = err type_error

-- `job.get("name") == … and job.get("conclusion") == "success"`
unfoldable pub is_gate : Fields → Bool
is_gate job =
    equals (get (codes "name") job) (codes "Release qualification gate")
    && equals (get (codes "conclusion") job) (codes "success")

-- `any(…)` over the jobs of one group, up to the first that is the gate
unfoldable pub any_gate : Items → Outcome Bool
unfolding as_dict is_gate
any_gate nil = ok false
any_gate (cons v vs) =
    let rest = any_gate vs in as_dict v >>= λ job. if is_gate job then ok true else rest

unfoldable pub any_group : List Fields → Outcome Bool
unfolding iterated any_gate
any_group [] = ok false
any_group (group ∷ groups) =
    let rest = any_group groups in
    iterated (get_or (codes "jobs") (list nil) group) >>= λ jobs.
    any_gate jobs >>= λ found. if found then ok true else rest

-- A run of that commit that succeeded after it was dispatched by hand
unfoldable pub is_candidate : Text → Fields → Bool
is_candidate commit run =
    equals (get (codes "head_sha") run) commit
    && (equals (get (codes "conclusion") run) (codes "success")
        && equals (get (codes "event") run) (codes "workflow_dispatch"))

-- `type(run_id) is int and run_id > 0`
abbrev pub positive : ℕ → Option ℕ
positive n = if n == 0 then none else some n

unfoldable pub run_number : Value → Option ℕ
run_number (int (pos n)) = positive n
run_number _ = none

-- `fetch` gives the pages of an endpoint or raises; `decimal` writes an int, and `show` is `str`.
module _ (fetch : Text → Outcome (List Fields)) (decimal : ℕ → Text) (show : Value → Text)
    (repository commit : Text) where
  abbrev pub run_endpoint : ℕ → Text
  run_endpoint number =
      codes "repos/"
      ++ (repository ++ (codes "/actions/runs/" ++ (decimal number ++ codes "/jobs?per_page=100")))

  abbrev pub default_url : ℕ → Text
  default_url number =
      codes "https://github.com/" ++ (repository ++ (codes "/actions/runs/" ++ decimal number))

  abbrev pub run_url : Fields → ℕ → Text
  run_url run number = show (get_or (codes "html_url") (str (default_url number)) run)

  abbrev pub gated : Fields → ℕ → Outcome (Option Text)
  gated run number = do
    jobs ← fetch (run_endpoint number)
    found ← any_group jobs
    ok (if found then some (run_url run number) else none)

  abbrev pub numbered : Fields → Option ℕ → Outcome (Option Text)
  numbered run none = ok none
  numbered run (some number) = gated run number

  -- One round of the loop over the runs of a page
  unfoldable pub check_run : Fields → Outcome (Option Text)
  unfolding any_group is_candidate run_number
  check_run run =
      if is_candidate commit run then numbered run (run_number (get (codes "id") run)) else ok none

  abbrev pub or_else : Option Text → Outcome (Option Text) → Outcome (Option Text)
  or_else none rest = rest
  or_else (some url) rest = ok (some url)

  unfoldable pub check_runs : Items → Outcome (Option Text)
  unfolding as_dict check_run
  check_runs nil = ok none
  check_runs (cons v vs) =
      let rest = check_runs vs in as_dict v >>= λ run. check_run run >>= λ found. or_else found rest

  unfoldable pub check_pages : List Fields → Outcome (Option Text)
  unfolding iterated check_runs
  check_pages [] = ok none
  check_pages (page ∷ pages) =
      let rest = check_pages pages in
      iterated (get_or (codes "workflow_runs") (list nil) page) >>= λ runs.
      check_runs runs >>= λ found. or_else found rest

  abbrev pub runs_endpoint : Text
  runs_endpoint =
      codes "repos/"
      ++ (repository
          ++ (codes "/actions/workflows/qualification.yml/runs?head_sha="
              ++ (commit ++ codes "&status=success&per_page=100")))

  -- `qualified_run(repository, commit, fetch)`
  unfoldable pub qualified_run : Outcome (Option Text)
  unfolding check_pages
  qualified_run = do pages ← fetch runs_endpoint; check_pages pages

-- ===== src/Release/Qualification/Sound.antt =====
-- What the qualification of a commit means.
use tay.Prelude.{
  ℕ, ◌≡◌, ◌⊎◌, refl, ap, ◌∙◌, true, Option, none, some, List, [], ◌∷◌, arith, Bool-cases,
  Option-cases, inl, inr, &&-eq-true, ◌<◌,
}
use tay.Prelude.Outcome.{Outcome, ok, bind_inversion}
use tay.Text.{Text, codes}
use tay.Number.{pos, negsuc}
use tay.Responses.Laws.{equals-str}
use tay.Value.{Value, null, list, dict, Items, nil, cons, Fields, get, get_or, int, str}
use tay.Release.Qualification.{
  as_dict, iterated, is_gate, any_gate, any_group, is_candidate, run_number, run_endpoint, run_url,
  numbered, check_run, check_runs, check_pages, runs_endpoint, qualified_run,
}

as_dict_lem : (v : Value) (fs : Fields) → as_dict v ≡ ok fs → v ≡ dict fs
unfolding as_dict
as_dict_lem (dict gs) fs h = ground arith
as_dict_lem null fs h = cc
as_dict_lem _ fs h = cc

iterated_lem : (v : Value) (vs : Items) → iterated v ≡ ok vs → v ≡ list vs
unfolding iterated
iterated_lem (list ws) vs h = ground arith
iterated_lem null vs h = cc
iterated_lem _ vs h = cc

same_url : (u url : Text) → ◌≡◌ {A = Outcome (Option Text)} (ok (some u)) (ok (some url)) → u ≡ url
same_url u url h = cc

-- The job that is the gate, where it succeeded
abbrev pub IsGate : Fields → Type 0
IsGate job =
    (get (codes "name") job ≡ str (codes "Release qualification gate"))
    × (get (codes "conclusion") job ≡ str (codes "success"))

-- A run of that commit that succeeded after it was dispatched by hand
abbrev pub IsCandidate : Text → Fields → Type 0
IsCandidate commit run =
    (get (codes "head_sha") run ≡ str commit)
    × (get (codes "conclusion") run ≡ str (codes "success"))
    × (get (codes "event") run ≡ str (codes "workflow_dispatch"))

is_gate-IsGate : (job : Fields) → is_gate job ≡ true → IsGate job
unfolding is_gate
is_gate-IsGate job h =
    let (a, b) = &&-eq-true _ _ h in
    (equals-str _ (codes "Release qualification gate") a, equals-str _ (codes "success") b)

is_candidate-IsCandidate :
    (commit : Text) (run : Fields) → is_candidate commit run ≡ true → IsCandidate commit run
unfolding is_candidate
is_candidate-IsCandidate commit run h =
    let (a, b) = &&-eq-true _ _ h in
    let (c, d) = &&-eq-true _ _ b in
    (
      equals-str _ commit a,
      equals-str _ (codes "success") c,
      equals-str _ (codes "workflow_dispatch") d,
    )

run_number_lem : (v : Value) (n : ℕ) → run_number v ≡ some n → (v ≡ int (pos n)) × (0 < n)
unfolding run_number
run_number_lem (int (pos m)) n h = (ground arith, ground arith)
run_number_lem null n h = cc
run_number_lem (int (negsuc m)) n h = cc
run_number_lem _ n h = cc

module _ (fetch : Text → Outcome (List Fields)) (decimal : ℕ → Text) (show : Value → Text)
    (repository commit : Text) where
  -- A job is the gate, in one of the groups.
  abbrev pub HasGate : Items → Type 0
  HasGate nil = ⊥
  HasGate (cons v vs) = ((job : Fields) × (v ≡ dict job) × IsGate job) ⊎ HasGate vs

  abbrev pub HasGroup : List Fields → Type 0
  HasGroup [] = ⊥
  HasGroup (group ∷ groups) =
      ((jobs : Items) × (get_or (codes "jobs") (list nil) group ≡ list jobs) × HasGate jobs)
      ⊎ HasGroup groups

  -- The run qualifies the commit, under that URL.
  abbrev pub Qualifies : Text → Fields → Type 0
  Qualifies url run =
      (number : ℕ) × IsCandidate commit run
      × (get (codes "id") run ≡ int (pos number))
      × (0 < number)
      × (run_url fetch decimal show repository commit run number ≡ url)
      × ((jobs : List Fields) × (fetch (run_endpoint fetch decimal show repository commit number)
            ≡ ok jobs)
          × HasGroup jobs)

  abbrev pub HasRun : Text → Items → Type 0
  HasRun url nil = ⊥
  HasRun url (cons v vs) = ((run : Fields) × (v ≡ dict run) × Qualifies url run) ⊎ HasRun url vs

  abbrev pub HasPage : Text → List Fields → Type 0
  HasPage url [] = ⊥
  HasPage url (page ∷ pages) =
      ((runs : Items) × (get_or (codes "workflow_runs") (list nil) page ≡ list runs)
        × HasRun url runs)
      ⊎ HasPage url pages

  any_gate-HasGate : (vs : Items) → any_gate vs ≡ ok true → HasGate vs
  unfolding any_gate
  any_gate-HasGate nil h = cc
  any_gate-HasGate (cons v vs) h =
      let (job, e, k) = bind_inversion (as_dict v) _ true h in
      elim (Bool-cases (is_gate job)) [
        | inl g ↦ inl (job, as_dict_lem v job e, is_gate-IsGate job g)
        | inr n ↦ inr (any_gate-HasGate vs (rw n at k))
      ]

  any_group-HasGroup : (groups : List Fields) → any_group groups ≡ ok true → HasGroup groups
  unfolding any_group
  any_group-HasGroup [] h = cc
  any_group-HasGroup (group ∷ groups) h =
      let (jobs, e, k) =
        bind_inversion (iterated (get_or (codes "jobs") (list nil) group)) _ true h in
      let (found, g, l) = bind_inversion (any_gate jobs) _ true k in
      elim (Bool-cases found) [
        | inl y ↦ inl (jobs, iterated_lem _ jobs e, any_gate-HasGate jobs (rw y at g))
        | inr n ↦ inr (any_group-HasGroup groups (rw n at l))
      ]

  numbered-Qualifies :
      (run : Fields) (o : Option ℕ) (url : Text)
      → is_candidate commit run ≡ true
      → run_number (get (codes "id") run) ≡ o
      → numbered fetch decimal show repository commit run o ≡ ok (some url)
      → Qualifies url run
  numbered-Qualifies run none url c e h = cc
  numbered-Qualifies run (some number) url c e h =
      let (jobs, f, k) =
        bind_inversion (fetch (run_endpoint fetch decimal show repository commit number)) _
          (some url) h in
      let (found, g, l) = bind_inversion (any_group jobs) _ (some url) k in
      elim (Bool-cases found) [
        | inl y ↦ (
          number,
          is_candidate-IsCandidate commit run c,
          (run_number_lem _ number e).0,
          (run_number_lem _ number e).1,
          same_url _ url (rw y at l),
          (jobs, f, any_group-HasGroup jobs (rw y at g)),
        )
        | inr n ↦ no_url (rw n at l)
      ]
    where
      no_url : ◌≡◌ {A = Outcome (Option Text)} (ok none) (ok (some url)) → Qualifies url run
      no_url q = cc

  check_run-Qualifies :
      (run : Fields) (url : Text)
      → check_run fetch decimal show repository commit run ≡ ok (some url)
      → Qualifies url run
  unfolding check_run
  check_run-Qualifies run url h = elim (Bool-cases (is_candidate commit run)) [
    | inl c ↦ numbered-Qualifies run (run_number (get (codes "id") run)) url c refl (rw c at h)
    | inr n ↦ absurd (refused (rw n at h))
  ]
    where
      refused : ¬ (◌≡◌ {A = Outcome (Option Text)} (ok none) (ok (some url)))
      refused q = cc

  check_runs-HasRun :
      (vs : Items) (url : Text)
      → check_runs fetch decimal show repository commit vs ≡ ok (some url)
      → HasRun url vs
  unfolding check_runs
  check_runs-HasRun nil url h = cc
  check_runs-HasRun (cons v vs) url h =
      let (run, e, k) = bind_inversion (as_dict v) _ (some url) h in
      let (found, g, l) =
        bind_inversion (check_run fetch decimal show repository commit run) _ (some url) k in
      elim (Option-cases found) [
        | inl n ↦ inr (check_runs-HasRun vs url (rw n at l))
        | inr (u, y) ↦ inl (
          run,
          as_dict_lem v run e,
          check_run-Qualifies run url (g ∙ ap ok (y ∙ ap some (same_url u url (rw y at l)))),
        )
      ]

  check_pages-HasPage :
      (pages : List Fields) (url : Text)
      → check_pages fetch decimal show repository commit pages ≡ ok (some url)
      → HasPage url pages
  unfolding check_pages
  check_pages-HasPage [] url h = cc
  check_pages-HasPage (page ∷ pages) url h =
      let (runs, e, k) =
        bind_inversion (iterated (get_or (codes "workflow_runs") (list nil) page)) _ (some url) h in
      let (found, g, l) =
        bind_inversion (check_runs fetch decimal show repository commit runs) _ (some url) k in
      elim (Option-cases found) [
        | inl n ↦ inr (check_pages-HasPage pages url (rw n at l))
        | inr (u, y) ↦ inl (
          runs,
          iterated_lem _ runs e,
          check_runs-HasRun runs url (g ∙ ap ok (y ∙ ap some (same_url u url (rw y at l)))),
        )
      ]

  -- A commit is let through only with the URL of a run that the server lists for it: the run has that
  -- commit, was dispatched by hand and succeeded, has a positive id, and one of its jobs is the
  -- qualification gate and succeeded.
  pub qualified_run-HasPage :
      (url : Text)
      → qualified_run fetch decimal show repository commit ≡ ok (some url)
      → (pages : List Fields) × (fetch (runs_endpoint fetch decimal show repository commit)
          ≡ ok pages)
        × HasPage url pages
  unfolding qualified_run
  qualified_run-HasPage url h =
      let (pages, e, k) =
        bind_inversion (fetch (runs_endpoint fetch decimal show repository commit)) _ (some url)
          h in
      (pages, e, check_pages-HasPage pages url k)

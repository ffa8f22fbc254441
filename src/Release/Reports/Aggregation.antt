-- ===== src/Release/Reports/Aggregation.antt =====
-- What one report of several trials holds.
use tay.Prelude.{
  ℕ, suc, ◌/◌, ◌≡◌, ◌⊎◌, subst, ◌∙◌, ap, refl, inl, inr, Bool, true, false, not, ◌||◌, List, [],
  ◌∷◌, ◌==◌, length, arith, if◌then◌else◌,
}
use tay.Prelude.Outcome.{ok, value_error, reject, reject-eq-ok, bind_inversion}
use tay.Text.{Text, codes, same}
use tay.Number.{pos}
use tay.Value.{
  Value, null, int, str, list, dict, Items, nil, cons, Fields, end, get, get_or, put, count_items,
}
use tay.Value.Laws.{lookup-put}
use tay.Release.Trials.{Cohort}
use tay.Release.Reports.{
  alike, cohort_items, changed, trials_of, check_trials, size, first_of, check_report,
  check_reports, measurements, with_trials, merged, aggregate,
}

-- The value that a report has under the key equals that of the first.
abbrev pub Alike : Text → Fields → Fields → Type 0
Alike key first report = alike (get key report) (get key first) ≡ true

-- The reports have in common what identifies the checkout, the machine and the workload.
abbrev pub SameCheckout : Fields → Fields → Type 0
SameCheckout first report =
    Alike (codes "report_schema") first report
    × Alike (codes "benchmark") first report
    × Alike (codes "harness_sha256") first report
    × Alike (codes "workload") first report
    × Alike (codes "environment") first report
    × Alike (codes "revision") first report
    × Alike (codes "version") first report
    × Alike (codes "working_tree_dirty") first report

-- A list with one entry, or, since Python reads a text as a sequence, a text of one character.
abbrev pub IsOnly : Value → Value → Type 0
IsOnly v held = (held ≡ list (cons v nil)) ⊎ ((c : ℕ) × (held ≡ str (c ∷ [])) × (v ≡ str (c ∷ [])))

-- The samples are the single measurements of the reports, in the order of the reports.
abbrev pub AreSamples : Fields → List Fields → Items → Type 0
AreSamples first [] nil = Unit
AreSamples first (report ∷ reports) (cons v vs) =
    SameCheckout first report
    × IsOnly v (get_or (codes "measurements") (list nil) report)
    × AreSamples first reports vs
AreSamples first _ _ = ⊥

get-put :
    (t s : Text) (v : Value) (fs : Fields) → get t (put s v fs) ≡ (if same t s then v else get t fs)
unfolding get
get-put t s v fs = ground (arith, lookup-put t s v fs)

tested_eq : (a b : ℕ) {u : Unit} → reject (not (a == b)) value_error ≡ ok u → a ≡ b
tested_eq a b h = ground arith

none_differs :
    (a b c d e f g h : Bool)
    → (not a || (not b || (not c || (not d || (not e || (not f || (not g || (not h || false))))))))
      ≡ false
    → (a ≡ true)
      × (b ≡ true)
      × (c ≡ true)
      × (d ≡ true)
      × (e ≡ true)
      × (f ≡ true)
      × (g ≡ true)
      × (h ≡ true)
none_differs a b c d e f g h none = ground arith

unchanged : (first report : Fields) → changed first report ≡ false → SameCheckout first report
unfolding changed
unchanged first report h = none_differs _ _ _ _ _ _ _ _ h

IsOnly-sample : (held v : Value) → size held ≡ ok 1 → first_of held ≡ ok v → IsOnly v held
unfolding size first_of count_items
IsOnly-sample (list nil) v h k = cc
IsOnly-sample (list (cons w nil)) v h k = inl (ground arith)
IsOnly-sample (list (cons w (cons x ws))) v h k = absurd (ground arith)
IsOnly-sample (str []) v h k = cc
IsOnly-sample (str (c ∷ [])) v h k = inr (c, refl, ground arith)
IsOnly-sample (str (c ∷ d ∷ t)) v h k = absurd (ground arith)
IsOnly-sample (dict fs) v h k = cc
IsOnly-sample null v h k = cc
IsOnly-sample _ v h k = cc

check_report_sound :
    (first report : Fields) {u : Unit}
    → check_report first report ≡ ok u
    → SameCheckout first report × (size (get_or (codes "measurements") (list nil) report) ≡ ok 1)
unfolding check_report
check_report_sound first report {u} h =
    let (a, same_checkout, h1) = bind_inversion (reject (changed first report) value_error) _ u h in
    let (trials, b, h2) =
      bind_inversion (trials_of (get_or (codes "workload") (dict end) report)) _ u h1 in
    let (c, d, h3) = bind_inversion (check_trials trials) _ u h2 in
    let (n, sized, h4) =
      bind_inversion (size (get_or (codes "measurements") (list nil) report)) _ u h3 in
    let one : n ≡ 1 = ground (arith, reject-eq-ok _ value_error h4) in
    (unchanged first report (reject-eq-ok _ value_error same_checkout), sized ∙ ap ok one)

measurements-AreSamples :
    (first : Fields) (reports : List Fields) (samples : Items) {u : Unit}
    → check_reports first reports ≡ ok u
    → measurements reports ≡ ok samples
    → AreSamples first reports samples
unfolding check_reports measurements
measurements-AreSamples first [] nil h k = tt
measurements-AreSamples first [] (cons v vs) h k = cc
measurements-AreSamples first (report ∷ reports) samples {u} h k =
    let (a, now, later) = bind_inversion (check_report first report) _ u h in
    let (same_checkout, sized) = check_report_sound first report now in
    let (v, p, l) =
      bind_inversion (first_of (get_or (codes "measurements") (list nil) report)) _ samples k in
    let (vs, q, m) = bind_inversion (measurements reports) _ samples l in
    let e : cons v vs ≡ samples = cc in
    subst (AreSamples first (report ∷ reports)) e
      (same_checkout, IsOnly-sample _ v sized p, measurements-AreSamples first reports vs later q)

with_trials-get :
    (v : Value) (n : ℕ) (workload : Fields)
    → with_trials v n ≡ ok workload
    → get (codes "trials") workload ≡ int (pos n)
unfolding with_trials same
with_trials-get (dict fs) n workload h =
    let e : put (codes "trials") (int (pos n)) fs ≡ workload = cc in
    rw (← e) (get-put (codes "trials") (codes "trials") (int (pos n)) fs)
with_trials-get null n workload h = cc
with_trials-get _ n workload h = cc

-- Reports that are aggregated are half as many as the trials of both checkouts, and alike in all
-- that identifies a checkout, its machine and its workload. The result holds the one measurement of
-- each, in the order of the reports, says how many they are, and names the order of the trials.
pub aggregate_complete :
    (first : Fields) (reports : List Fields) (order : List Cohort) (orchestrator : Text)
    (r : Fields)
    → aggregate (first ∷ reports) order orchestrator ≡ ok r
    → (suc (length reports) ≡ length order / 2)
      × ((samples : Items) × AreSamples first (first ∷ reports) samples
          × (get (codes "measurements") r ≡ list samples))
      × ((workload : Fields) × (get (codes "workload") r ≡ dict workload)
          × (get (codes "trials") workload ≡ int (pos (suc (length reports)))))
      × (get (codes "trial_order") r ≡ list (cohort_items order))
unfolding aggregate same
aggregate_complete first reports order orchestrator r h =
    let (a, sized, h1) =
      bind_inversion (reject (not (suc (length reports) == length order / 2)) value_error) _ r h in
    let (b, checked, h2) = bind_inversion (check_reports first (first ∷ reports)) _ r h1 in
    let (workload, w, h3) =
      bind_inversion (with_trials (get (codes "workload") first) (suc (length reports))) _ r h2 in
    let (samples, m, h4) = bind_inversion (measurements (first ∷ reports)) _ r h3 in
    let e : merged first workload samples order orchestrator ≡ r = cc in
    (
      tested_eq _ _ sized,
      (
        samples,
        measurements-AreSamples first (first ∷ reports) samples checked m,
        rw (← e) (simp get-put),
      ),
      (workload, rw (← e) (simp get-put), with_trials-get _ _ workload w),
      rw (← e) (simp get-put),
    )

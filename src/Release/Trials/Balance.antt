-- ===== src/Release/Trials/Balance.antt =====
-- The order of the trials treats both checkouts alike.
use tay.Prelude.{
  ℕ, zero, suc, ◌+◌, ◌*◌, ◌/◌, ◌%◌, ◌≤◌, ◌≡◌, true, false, ◌&&◌, not, List, [], ◌∷◌, ◌==◌, leb,
  length, arith, Bool, if◌then◌else◌,
}
use tay.Prelude.Outcome.{ok, value_error, reject, bind_inversion, reject-eq-ok}
use tay.Release.Trials.{Cohort, baseline, candidate, repeated, trial_order}

abbrev pub is_baseline : Cohort → Bool
is_baseline baseline = true
is_baseline candidate = false

abbrev pub is_candidate : Cohort → Bool
is_candidate baseline = false
is_candidate candidate = true

-- How many trials are of that kind, and the sum of their places, counted from `at`.
abbrev pub count : (Cohort → Bool) → List Cohort → ℕ
count p [] = 0
count p (c ∷ cs) = (if p c then 1 else 0) + count p cs

abbrev pub places : (Cohort → Bool) → ℕ → List Cohort → ℕ
places p at [] = 0
places p at (c ∷ cs) = (if p c then at else 0) + places p (suc at) cs

repeated-length : (n : ℕ) → length (repeated n) ≡ 4 * n
unfolding repeated
repeated-length zero = omega arith
repeated-length (suc n) = omega (arith, repeated-length n)

repeated-count :
    (n : ℕ) → (count is_baseline (repeated n) ≡ 2 * n) × (count is_candidate (repeated n) ≡ 2 * n)
unfolding repeated
repeated-count zero = omega arith
repeated-count (suc n) = omega (arith, repeated-count n)

repeated-places :
    (n at : ℕ) → places is_baseline at (repeated n) ≡ places is_candidate at (repeated n)
unfolding repeated
repeated-places zero at = omega arith
repeated-places (suc n) at = omega (arith, repeated-places n (suc (suc (suc (suc at)))))

-- An order of trials that is accepted runs each checkout as often as was asked for, from 2 to 10 times,
-- and an even number of times. The places of the baseline's trials have the same sum as those of the candidate's, so that
-- a drift of the machine that grows evenly with time falls on both alike.
pub trial_order_balanced :
    (trials : ℕ) (order : List Cohort)
    → trial_order trials ≡ ok order
    → (2 ≤ trials)
      × (trials ≤ 10)
      × (count is_baseline order ≡ trials)
      × (count is_candidate order ≡ trials)
      × (length order ≡ 2 * trials)
      × (places is_baseline 0 order ≡ places is_candidate 0 order)
unfolding trial_order
trial_order_balanced trials order h =
    let (u, tested, k) =
      bind_inversion (reject (not (leb 2 trials && leb trials 10 && trials % 2 == 0)) value_error) _
        order h in
    let test = reject-eq-ok _ value_error tested in
    ground (
      arith,
      k,
      test,
      repeated-length (trials / 2),
      repeated-count (trials / 2),
      repeated-places (trials / 2) 0,
    )

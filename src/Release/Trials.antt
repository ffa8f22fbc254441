-- ===== src/Release/Trials.antt =====
-- bench/release_compare.py: the order of the trials of a comparison, and their aggregation.
pub mod Balance
use tay.Prelude.{
  ℕ, zero, suc, ◌/◌, ◌%◌, Bool, true, false, not, ◌&&◌, ◌||◌, Option, none, some, List, [], ◌∷◌,
  ◌==◌, leb, length, if◌then◌else◌,
}
use tay.Prelude.Outcome.{Outcome, ok, err, value_error, type_error, ◌>>=◌, ◌>>◌, reject}
use tay.Text.{Text, codes}

pub data Cohort : Type 0 where
  baseline candidate : Cohort

-- `[…] * count`
unfoldable pub repeated : ℕ → List Cohort
repeated zero = []
repeated (suc n) = baseline ∷ candidate ∷ candidate ∷ baseline ∷ repeated n

-- `trial_order(trials)`
unfoldable pub trial_order : ℕ → Outcome (List Cohort)
unfolding repeated
trial_order trials = do
  reject (not (leb 2 trials && leb trials 10 && trials % 2 == 0)) value_error
  ok (repeated (trials / 2))

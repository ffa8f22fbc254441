-- ===== src/Validation.antt =====
-- clients/python/tay/validation.py
pub mod Laws
use tay.Prelude.{ℕ, suc, ◌*◌, Bool, true, false, not, ◌||◌, Option, none, some, ltb, if◌then◌else◌}
use tay.Prelude.Outcome.{Outcome, ok, err, validation, ◌>>=◌, ◌>>◌, reject}
use tay.Text.{Text, is_empty, has_nul, utf8_size}
use tay.Number.{ℤ, pos, negsuc, Float, rounded, unit, is_finite, not_positive}
use tay.Value.{Value, int, float, str}

-- `float(value)` of an int; the infinity stands for an OverflowError, which is refused alike.
unfoldable pub to_float : ℤ → Float
unfolding unit
to_float (pos n) = rounded false (n * unit) 1
to_float (negsuc n) = rounded true (suc n * unit) 1

unfoldable pub check_positive : Float → Outcome Float
check_positive x = do reject (not (is_finite x) || not_positive x) validation; ok x

unfoldable pub positive_finite : Value → Outcome Float
unfolding to_float check_positive
positive_finite (int z) = check_positive (to_float z)
positive_finite (float x) = check_positive x
positive_finite _ = err validation

unfoldable pub check_identifier : Text → Option ℕ → Outcome Text
check_identifier t none = err validation
check_identifier t (some size) = do reject (ltb 128 size) validation; ok t

unfoldable pub identifier : Value → Outcome Text
unfolding check_identifier
identifier (str t) = do
  reject (is_empty t || has_nul t) validation
  check_identifier t (utf8_size t)
identifier _ = err validation

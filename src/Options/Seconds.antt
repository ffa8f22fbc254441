-- ===== src/Options/Seconds.antt =====
-- Seconds of an int: the exact range, for the two limits that the client uses.
use tay.Prelude.{ℕ, suc, ◌*◌, ◌≤◌, ◌<◌, ◌≡◌, ◌↔◌, refl, true, false, not, ◌&&◌, arith, leb, ltb}
use tay.Prelude.Outcome.{Outcome, ok, err, validation, ◌>>◌, reject}
use tay.Number.{ℤ, pos, negsuc, unit, exact, exceeds, negative, true_div}
use tay.Value.{int}
use tay.Options.{milliseconds, seconds_limit, max_time}

-- 9223372036854775807 / 1000 is the double 9223372036854776.0.
pub delay_limit : seconds_limit max_time ≡ 9223372036854776 * unit
unfolding seconds_limit true_div unit
delay_limit = refl

timeout_limit : seconds_limit 86400000 ≡ 86400 * unit
unfolding seconds_limit true_div unit
timeout_limit = refl

pub unit_pos : 0 < unit
unfolding unit
unit_pos = omega arith

-- A whole number of seconds exceeds a whole limit as the numbers do.
pub exceeds-exact : (n m : ℕ) → exceeds (exact (pos n)) (m * unit) ≡ ltb m n
unfolding exceeds exact unit
exceeds-exact n m = ground arith

pub negative-exact : (n : ℕ) → negative (exact (pos n)) ≡ false
unfolding negative exact
negative-exact n = refl

pub negative-negsuc : (n : ℕ) → negative (exact (negsuc n)) ≡ true
unfolding negative exact unit
negative-negsuc n = ground arith

-- The two tests of an int against a limit of whole milliseconds.
abbrev seconds_test : ℕ → ℕ → ℕ → ℕ → Outcome (Unit {0})
seconds_test n limit minimum maximum = do
  reject (ltb limit n) validation
  reject (not (leb minimum (n * 1000) && leb (n * 1000) maximum)) validation

milliseconds-pos :
    (n limit minimum maximum : ℕ)
    → seconds_limit maximum ≡ limit * unit
    → milliseconds (int (pos n)) maximum minimum ≡ seconds_test n limit minimum maximum
unfolding milliseconds
milliseconds-pos n limit minimum maximum e = rw (negative-exact n, e, exceeds-exact n limit) refl

milliseconds-negsuc :
    (n minimum maximum : ℕ) → milliseconds (int (negsuc n)) maximum minimum ≡ err validation
unfolding milliseconds
milliseconds-negsuc n minimum maximum = rw (negative-negsuc n) refl

module _ (limit minimum maximum : ℕ) (e : seconds_limit maximum ≡ limit * unit)
    (room : maximum < suc limit * 1000) where
  -- An int of seconds passes exactly when its milliseconds are in the range.
  int_exact :
      (z : ℤ)
      → (milliseconds (int z) maximum minimum ≡ ok tt)
        ↔ ((n : ℕ) × (z ≡ pos n) × (minimum ≤ n * 1000) × (n * 1000 ≤ maximum))
  int_exact (pos n) = (
    λ h. (
      n,
      refl,
      ground (arith, milliseconds-pos n limit minimum maximum e),
      ground (arith, milliseconds-pos n limit minimum maximum e),
    ),
    λ (m, p, lo, hi). ground (arith, milliseconds-pos n limit minimum maximum e),
  )
  int_exact (negsuc n) =
      (λ h. absurd (cc (milliseconds-negsuc n minimum maximum)), λ (m, p, lo, hi). cc)

-- A delay given as an int is accepted exactly when it is not negative and its milliseconds are at
-- most 9223372036854775807, and a timeout given as an int exactly when its milliseconds are between 1
-- and 86400000, although each is first compared with a limit rounded to a double.
pub milliseconds_int_exact :
    (z : ℤ)
    → ((milliseconds (int z) max_time 0 ≡ ok tt)
        ↔ ((n : ℕ) × (z ≡ pos n) × (0 ≤ n * 1000) × (n * 1000 ≤ max_time)))
      × ((milliseconds (int z) 86400000 1 ≡ ok tt)
          ↔ ((n : ℕ) × (z ≡ pos n) × (1 ≤ n * 1000) × (n * 1000 ≤ 86400000)))
milliseconds_int_exact z = (
  int_exact 9223372036854776 0 max_time delay_limit (omega arith) z,
  int_exact 86400 1 86400000 timeout_limit (omega arith) z,
)

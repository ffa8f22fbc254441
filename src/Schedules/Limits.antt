-- ===== src/Schedules/Limits.antt =====
-- The delay of a schedule: the range that its check lets through.
use tay.Prelude.{ℕ, ◌*◌, ◌≤◌, ◌≡◌, ◌≢◌, ◌↔◌, refl, arith, leb, ltb, Bool-cases, inl, inr}
use tay.Prelude.Outcome.{ok, err, validation, reject}
use tay.Number.{ℤ, pos, negsuc}
use tay.Value.{int}
use tay.Options.{max_time, milliseconds}
use tay.Options.Seconds.{
  delay_limit, exceeds-exact, negative-exact, negative-negsuc, milliseconds_int_exact,
}
use tay.Schedules.{check_delay}

check_delay-pos : (n : ℕ) → check_delay (int (pos n)) ≡ reject (ltb 9223372036854776 n) validation
unfolding check_delay
check_delay-pos n = rw (negative-exact n, delay_limit, exceeds-exact n 9223372036854776) refl

check_delay-negsuc : (n : ℕ) → check_delay (int (negsuc n)) ≡ err validation
unfolding check_delay
check_delay-negsuc n = rw (negative-negsuc n) refl

-- A schedule's delay given as an int is accepted exactly when it is not negative and at most
-- 9223372036854776 seconds, the limit rounded to a double.
pub schedule_delay_exact :
    (z : ℤ) → (check_delay (int z) ≡ ok tt) ↔ ((n : ℕ) × (z ≡ pos n) × (n ≤ 9223372036854776))
schedule_delay_exact (pos n) = (
  λ h. (n, refl, ground (arith, check_delay-pos n)),
  λ (m, e, le). ground (arith, check_delay-pos n),
)
schedule_delay_exact (negsuc n) = (λ h. absurd (cc (check_delay-negsuc n)), λ (m, e, le). cc)

-- An int passes as a schedule's delay and not as a job's exactly when it is 9223372036854776: its
-- milliseconds are beyond the range that the check is there for.
pub schedule_delay_beyond :
    (z : ℤ)
    → ((check_delay (int z) ≡ ok tt) × (milliseconds (int z) max_time 0 ≢ ok tt))
      ↔ (z ≡ pos 9223372036854776)
schedule_delay_beyond z = (
  λ (accepted, refused).
      let (n, e, le) = (schedule_delay_exact z).0 accepted in
      elim (Bool-cases (leb (n * 1000) max_time)) [
        | inl fits ↦
            absurd (refused ((milliseconds_int_exact z).0.1 (n, e, omega arith, ground arith)))
        | inr beyond ↦ ground arith
      ],
  λ e. (
    (schedule_delay_exact z).1 (9223372036854776, e, omega arith),
    λ accepted.
        let (n, p, low, high) = (milliseconds_int_exact z).0.0 accepted in absurd (ground arith),
  ),
)

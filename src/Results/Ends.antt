-- ===== src/Results/Ends.antt =====
-- Waiting for a result ends, with the result or at the deadline.
use tay.Prelude.{
  ℕ, zero, suc, ◌+◌, ◌<◌, ◌≤◌, ◌≡◌, refl, Bool, true, false, ◌&&◌, some, arith, ltb, if◌then◌else◌,
  Bool-cases, inl, inr,
}
use tay.Prelude.Outcome.{Outcome, ok, err, timeout_error}
use tay.Number.{Float, nan, inf, finite, is_finite, not_positive}
use tay.Value.{Value, null, int, float}
use tay.Validation.{check_positive, positive_finite}
use tay.Results.{Poll, units, not_ready, poll_from, wait_for, wait_result}

checked : (x y : Float) → check_positive x ≡ ok y → 0 < units y
unfolding check_positive is_finite not_positive
checked nan y h = cc
checked (inf s) y h = absurd (ground arith)
checked (finite s n) y h = ground arith

positive : (v : Value) (x : Float) → positive_finite v ≡ ok x → 0 < units x
unfolding positive_finite
positive (int z) x h = checked _ x h
positive (float y) x h = checked y x h
positive null x h = absurd (cc h)
positive _ x h = absurd (cc h)

module _ (poll : ℕ → Poll) where
  -- The time at which poll `k` begins, if no deadline comes before.
  unfoldable pub begins : ℕ → ℕ → ℕ
  begins pause zero = 0
  begins pause (suc k) = begins pause k + (poll k).took + pause + (poll k).late

  -- The time at which it is answered.
  abbrev pub answered : ℕ → ℕ → ℕ
  answered pause k = begins pause k + (poll k).took

  -- No poll before `k` gives a result.
  unfoldable pub all_wait : ℕ → Bool
  all_wait zero = true
  all_wait (suc k) = all_wait k && not_ready (poll k).result

  -- Poll `k` decides: it is ready, or the deadline comes before its answer.
  abbrev pub Decides : ℕ → ℕ → ℕ → Outcome Value → Type 0
  Decides limit pause k r =
      (all_wait k ≡ true)
      × ((ltb (answered pause k) limit && not_ready (poll k).result) ≡ false)
      × (r ≡ (if ltb (answered pause k) limit then (poll k).result else err timeout_error))

  poll_from-ends :
      (limit pause fuel n : ℕ)
      → 0 < pause
      → begins pause n ≤ limit
      → limit < fuel + begins pause n
      → all_wait n ≡ true
      → (k : ℕ) × (r : Outcome Value) × (poll_from poll limit pause fuel n (begins pause n)
          ≡ some r)
        × Decides limit pause k r
  unfolding poll_from begins all_wait
  poll_from-ends limit pause zero n p b f w = absurd (omega arith)
  poll_from-ends limit pause (suc fuel) n p b f w =
      elim (Bool-cases (ltb (answered pause n) limit)) [
        | inr late ↦ (n, err timeout_error, rw late refl, (w, rw late refl, rw late refl))
        | inl early ↦ elim (Bool-cases (not_ready (poll n).result)) [
          | inr ready ↦ (
            n,
            (poll n).result,
            rw (early, ready) refl,
            (w, rw (early, ready) refl, rw early refl),
          )
          | inl waits ↦ elim (Bool-cases (ltb (begins pause (suc n)) limit)) [
            | inl on ↦
                let (k, r, e, d) =
                  poll_from-ends limit pause fuel (suc n) p (ground arith) (omega arith)
                    (ground arith) in
                (k, r, rw (early, waits, on) e, d)
            | inr over ↦
                let past : ltb (answered pause (suc n)) limit ≡ false = ground arith in
                (
                  suc n,
                  err timeout_error,
                  rw (early, waits, over) refl,
                  (ground arith, rw past refl, rw past refl),
                )
          ]
        ]
      ]

  -- With a valid timeout and interval, waiting ends, however long the polls and the sleeps take. Some
  -- poll decides: those before it were not ready, and either it is ready and answered before the
  -- deadline, and its result or its error is what the caller gets; or the deadline comes before its
  -- answer, also while it is in flight or before it begins, and the caller gets a TimeoutError.
  pub wait_result_ends :
      (timeout poll_interval : Value) (limit pause : Float)
      → positive_finite timeout ≡ ok limit
      → positive_finite poll_interval ≡ ok pause
      → (k : ℕ) × (r : Outcome Value) × (wait_result poll timeout poll_interval ≡ some r)
        × Decides (units limit) (units pause) k r
  unfolding wait_result begins all_wait
  wait_result_ends timeout poll_interval limit pause a b =
      rw (a, b, wait_for)
        (poll_from-ends (units limit) (units pause) (suc (units limit)) 0
          (positive poll_interval pause b) (omega arith) (omega arith) refl)

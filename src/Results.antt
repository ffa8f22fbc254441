-- ===== src/Results.antt =====
-- clients/python/tay/results.py: waiting for a result, by polling until a deadline.
--
-- Time is counted from the call, in the unit of the doubles, 2^-1074 seconds. A poll takes the time
-- that it takes, and a sleep may last longer than asked. The deadline of `asyncio.timeout` cancels a
-- poll or a sleep that is not over by then.
pub mod Ends
use tay.Prelude.{ℕ, zero, suc, ◌+◌, Bool, true, false, Option, none, some, ltb, if◌then◌else◌}
use tay.Prelude.Outcome.{
  Error, Outcome, ok, err, server, remote_task, job_cancelled, result_missing, timeout_error,
}
use tay.Text.{Text, codes, same}
use tay.Number.{Float, finite}
use tay.Value.{Value}
use tay.Validation.{positive_finite}

-- The code of a ServerError or of one of its subclasses.
unfoldable pub server_code : Error → Option Text
server_code (server code) = code
server_code (remote_task code) = code
server_code (job_cancelled code) = code
server_code (result_missing code) = code
server_code e = none

abbrev pub is_text : Option Text → Text → Bool
is_text none t = false
is_text (some s) t = same s t

-- `exc.code != "result_not_ready"` is false
unfoldable pub not_ready : Outcome Value → Bool
unfolding server_code
not_ready (ok v) = false
not_ready (err e) = is_text (server_code e) (codes "result_not_ready")

-- What `await handle.result()` gives and how long it takes, and how much longer than asked the sleep
-- after it lasts.
pub record Poll : Type 0 where
  pub result : Outcome Value
  pub took : ℕ
  pub late : ℕ

abbrev pub units : Float → ℕ
units (finite s n) = n
units _ = 0

module _ (poll : ℕ → Poll) where
  -- The `while` loop under the deadline: poll `n` is the next one, and `now` is the time. `none` means
  -- that the fuel ran out.
  unfoldable pub poll_from : ℕ → ℕ → ℕ → ℕ → ℕ → Option (Outcome Value)
  poll_from limit pause zero n now = none
  poll_from limit pause (suc fuel) n now =
      let answered = now + (poll n).took in
      let woken = answered + pause + (poll n).late in
      let rest = poll_from limit pause fuel (suc n) woken in
      if ltb answered limit
      then if not_ready (poll n).result
        then if ltb woken limit then rest else some (err timeout_error)
        else some (poll n).result
      else some (err timeout_error)

  unfoldable pub wait_for : Outcome Float → Outcome Float → Option (Outcome Value)
  unfolding poll_from
  wait_for (err e) pause = some (err e)
  wait_for (ok limit) (err e) = some (err e)
  wait_for (ok limit) (ok pause) = poll_from (units limit) (units pause) (suc (units limit)) 0 0

  -- `wait_result(handle, timeout=…, poll_interval=…)`
  unfoldable pub wait_result : Value → Value → Option (Outcome Value)
  unfolding wait_for
  wait_result timeout poll_interval =
      wait_for (positive_finite timeout) (positive_finite poll_interval)

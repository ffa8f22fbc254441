-- ===== src/Client/Activity.antt =====
-- `_run_execution` of clients/python/tay/client.py: what an execution sends, on the connection that it
-- began on.
use tay.Prelude.{ℕ, Bool, true, false, not, Option, none, some, if◌then◌else◌}
use tay.Prelude.Outcome.{Outcome, ok, err}
use tay.Text.{Text, codes}
use tay.Value.{Value, bool, str, dict, Fields, end, field, name, put}
use tay.Execution.Runs.{run_task}
use tay.Prelude.Outcome.{result_too_large}
use tay.Table.{set}
use tay.Client.{World, Client, Action, ◌>>=◌, suppressed}
use tay.Client.Sending.{is_writer, send_event}
use tay.Client.Executions.{error_fields}

-- `connection is not None and self._writer is not connection`
unfoldable pub is_stale : Option ℕ → Client → Bool
is_stale none c = false
is_stale (some w) c = not (is_writer w c.writer)

-- The ids that each message of an execution carries.
abbrev pub run_fields : Text → Text → Text → Fields
run_fields reservation execution job = field (name (codes "reservation_id")) (str reservation) (
    field (name (codes "execution_id")) (str execution)
      (field (name (codes "job_id")) (str job) end))

abbrev pub cancelled_details : Fields
cancelled_details = field (name (codes "type")) (str (codes "CancelledError")) (
    field (name (codes "message")) (str (codes "async execution cancelled cooperatively"))
      (field (name (codes "cancelled")) (bool true) end))

module _ (world : World) where
  -- The local `send_event`
  unfoldable pub send_current : Option ℕ → Text → Fields → Action Unit
  send_current connection kind fields c =
      if is_stale connection c then (ok tt, c) else send_event world kind fields connection c

  unfoldable pub send_suppressed : Option ℕ → Text → Fields → Action Unit
  unfolding send_current suppressed
  send_suppressed connection kind fields c =
      let (r, d) = send_current connection kind fields c in (suppressed r, d)

  -- Up to the call of the task; the Boolean is whether the task is called.
  unfoldable pub run_begin : Option ℕ → Fields → Action Bool
  unfolding send_current ◌>>=◌
  run_begin connection ids c =
      if is_stale connection c
      then (ok false, c)
      else (send_current connection (codes "started") ids >>= λ u d.
            (ok (not (is_stale connection d)), d))
          c

  -- `awaitable_started`: the Boolean is whether the execution goes on.
  unfoldable pub run_awaits : Option ℕ → Text → Action Bool
  run_awaits connection execution c =
      (ok (not (is_stale connection c)), record c { is_sync = set execution false c.is_sync })

  -- The task was cancelled.
  unfoldable pub run_cancelled : Option ℕ → Fields → Action Unit
  unfolding send_suppressed
  run_cancelled connection ids =
      send_suppressed connection (codes "failed") (put (codes "error") (dict cancelled_details) ids)

  abbrev pub report : Option ℕ → Fields → Outcome Value → Action Unit
  report connection ids (ok result) =
      send_current connection (codes "succeeded") (put (codes "result") result ids)
  report connection ids (err e) = error_fields world e >>= λ details.
      send_suppressed connection (codes "failed") (put (codes "error") (dict details) ids)

  -- The task returned or raised.
  unfoldable pub run_done : ℕ → Option ℕ → Fields → Outcome Value → Action Unit
  unfolding run_task send_current send_suppressed ◌>>=◌
  run_done max_result_bytes connection ids given =
      report connection ids (run_task world.json given max_result_bytes result_too_large)

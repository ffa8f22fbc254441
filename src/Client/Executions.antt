-- ===== src/Client/Executions.antt =====
-- Executions: `_accept_execution`, `_execution_failure`, `_cancel_execution`, `_execution_finished` and
-- `_detach_connection` of clients/python/tay/client.py.
pub mod Invariant
use tay.Prelude.{
  ℕ, Bool, true, false, not, ◌&&◌, ◌||◌, Option, none, some, List, [], ◌∷◌, ◌++◌, leb, length,
  if◌then◌else◌,
}
use tay.Prelude.Outcome.{
  Error, Outcome, ok, err, connection_lost, protocol, validation, not_registered, server,
}
use tay.Text.{Text, codes, is_empty}
use tay.Value.{Value, str, dict, Fields, end, field, name, get, get_or, put}
use tay.Execution.{bounded_error}
use tay.Responses.{require_text}
use tay.Table.{Table, find, set, drop, add, discard}
use tay.Client.{
  World, Client, TaskInfo, Mode, client, embedded, worker, Action, ◌>>=◌, ◌>>◌, pure, raise, lift,
  modify, continue, suppressed,
}
use tay.Client.Sending.{is_writer, send_event}

-- `type(value) is not str`
unfoldable pub string : Value → Outcome Text
string (str t) = ok t
string _ = err protocol

unfoldable pub with_job_id : Value → Fields → Fields
with_job_id (str t) fs = put (codes "job_id") (str t) fs
with_job_id _ fs = fs

abbrev pub ids_fields : Text → Text → Fields
ids_fields reservation execution =
    field (name (codes "reservation_id")) (str reservation)
      (field (name (codes "execution_id")) (str execution) end)

-- `asyncio.create_task(…)`, and `self._executions[…] = …` with its two companions
unfoldable pub begin : Text → TaskInfo → Client → Client
begin id task c = record c {
  executions = set id task c.executions;
  is_sync = set id (not task.is_coroutine) c.is_sync;
  connections = set id c.writer c.connections;
  invoked = c.invoked ++ (id ∷ []);
}

-- The task is done: `_execution_finished`
unfoldable pub execution_finished : Text → Client → Client
execution_finished id c = record c {
  executions = drop id c.executions;
  is_sync = drop id c.is_sync;
  connections = drop id c.connections;
  invoked = discard id c.invoked;
}

abbrev pub sync_of : Option Bool → Bool
sync_of none = false
sync_of (some b) = b

-- `cancel_async_execution(self._executions.get(id), self._execution_is_sync.get(id, False))`
unfoldable pub cancel_async_execution : Text → Client → Client
cancel_async_execution id c = elim (find id c.executions) [
  | none ↦ c
  | some task ↦
      if sync_of (find id c.is_sync) then c else record c { cancelled = add id c.cancelled }
]

-- The executions that began on connection `w` are cancelled.
unfoldable pub cancel_on : ℕ → Table (Option ℕ) → Client → Client
unfolding cancel_async_execution
cancel_on w [] c = c
cancel_on w ((id, connection) ∷ rest) c =
    cancel_on w rest (if is_writer w connection then cancel_async_execution id c else c)

-- `_detach_connection(writer)`
unfoldable pub detach_connection : ℕ → Client → Client
unfolding cancel_on
detach_connection w c =
    let c' = cancel_on w c.connections c in
    if is_writer w c'.writer then record c' { writer = none } else c'

-- `_cancel_execution(message)`
unfoldable pub cancel_execution : Fields → Action Unit
unfolding require_text ◌>>=◌
cancel_execution message = do
  id ← lift (require_text (get (codes "execution_id") message))
  modify (cancel_async_execution id)

abbrev pub is_running : Option TaskInfo → Bool
is_running none = false
is_running (some t) = true

module _ (world : World) where
  unfoldable pub send_quietly : Text → Fields → Action Unit
  unfolding suppressed
  send_quietly message_type fields c =
      let (r, c') = send_event world message_type fields none c in (suppressed r, c')

  unfoldable pub error_fields : Error → Action Fields
  error_fields error c =
      (bounded_error world.json (world.describe error) c.max_error_bytes c.include_traceback, c)

  -- `_execution_failure(message, error)`
  unfoldable pub execution_failure : Fields → Error → Action Unit
  unfolding with_job_id ◌>>=◌
  execution_failure message error = do
    execution ← lift (require_text (get (codes "execution_id") message))
    reservation ← lift (require_text (get (codes "reservation_id") message))
    details ← error_fields error
    send_quietly (codes "failed") (
        with_job_id (get (codes "job_id") message)
          (put (codes "error") (dict details) (ids_fields reservation execution)))

  -- Under the execution lock, for a registered task.
  unfoldable pub start_execution : Fields → Text → Text → TaskInfo → Action Unit
  start_execution message execution reservation task c =
      if is_running (find execution c.executions)
      then send_event world (codes "started") (ids_fields reservation execution) none c
      else if leb c.capacity (length c.executions)
      then execution_failure message (server (some (codes "over_capacity"))) c
      else (ok tt, begin execution task c)

  unfoldable pub find_task : Fields → Text → Text → Text → Action Unit
  find_task message execution reservation task_name c = elim (find task_name c.tasks) [
    | none ↦ execution_failure message not_registered c
    | some task ↦ start_execution message execution reservation task c
  ]

  -- `execute args must be a JSON object`
  unfoldable pub with_arguments : Fields → Text → Text → Text → Value → Action Unit
  with_arguments message execution reservation task_name (dict fs) =
      find_task message execution reservation task_name
  with_arguments message execution reservation task_name _ = execution_failure message validation

  unfoldable pub accept_checked : Fields → Action Unit
  unfolding ◌>>=◌
  accept_checked message = do
    execution ← lift (require_text (get (codes "execution_id") message))
    reservation ← lift (require_text (get (codes "reservation_id") message))
    job ← lift (require_text (get (codes "job_id") message))
    task_name ← lift (string (get_or (codes "task") (get (codes "task_name") message) message))
    with_arguments message execution reservation task_name
        (get_or (codes "args") (dict end) message)

  -- `_accept_execution(message)`
  unfoldable pub accept_execution : Fields → Action Unit
  accept_execution message c = elim c.mode [
    | client ↦ execution_failure message not_registered c
    | _ ↦ accept_checked message c
  ]

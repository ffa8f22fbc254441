-- ===== src/Http/Worker/Executions.antt =====
-- `_run_loop` and `_execute` of `TayHTTPWorker` (clients/python/tay/http.py).
use tay.Prelude.{Bool, true, false, not, ◌&&◌, Option, none, some, [], ◌∷◌, ◌++◌, if◌then◌else◌}
use tay.Prelude.Outcome.{
  Error, Outcome, ok, err, protocol, connection_lost, validation, key_error, server, remote_task,
  job_cancelled, result_missing,
}
use tay.Text.{Text, codes, same}
use tay.Value.{Value, str, dict, Fields, end, field, name, get, lookup, put}
use tay.Protocol.Codec.{Json}
use tay.Execution.{Raised, error_details, to_fields}
use tay.Execution.Runs.{run_task}
use tay.Responses.{equals}
use tay.Table.{find, set, drop, discard}
use tay.Http.Worker.{
  Worker, Handler, Execution, Phase, created, starting, running, completing, Action, worker_request,
  same_token, or_token, cancel_async,
}

-- What the loop does next: another round, another round after the delay, or nothing.
pub data Round : Type 0 where
  next later stop : Round

unfoldable pub is_code : Option Text → Text → Bool
is_code none t = false
is_code (some s) t = same s t

unfoldable pub server_failed : Option Text → Error → Action Round
unfolding is_code
server_failed code e w =
    if w.closing
    then (ok stop, w)
    else if is_code code (codes "unknown_worker")
    then (ok next, record w { token = none })
    else if is_code code (codes "claim_in_progress")
    then (ok later, w)
    else (err e, w)

-- The `except` clauses of a round: ConnectionLost, ServerError and its subclasses, and the rest.
unfoldable pub round_failed : Error → Action Round
unfolding server_failed
round_failed connection_lost w = (ok (if w.closing then stop else later), w)
round_failed (server code) w = server_failed code (server code) w
round_failed (remote_task code) w = server_failed code (remote_task code) w
round_failed (job_cancelled code) w = server_failed code (job_cancelled code) w
round_failed (result_missing code) w = server_failed code (result_missing code) w
round_failed e w = (err e, w)

abbrev pub is_running : Option Execution → Bool
is_running none = false
is_running (some e) = true

abbrev pub is_sync_handler : Option Handler → Bool
is_sync_handler none = false
is_sync_handler (some h) = not h.is_coroutine

abbrev pub create : Text → Fields → Value → Action Round
create key message (str task_name) w = (
  ok next,
  record w {
    invoked = w.invoked ++ (key ∷ []);
    is_sync = set key (is_sync_handler (find task_name w.tasks)) w.is_sync;
    executions =
        set key (record { message = message; session = w.token; phase = created }) w.executions;
  },
)
create key message _ w = (err protocol, w)

unfoldable pub accept : Value → Fields → Action Round
accept (str key) message w =
    if is_running (find key w.executions)
    then (ok next, w)
    else create key message (get (codes "task") message) w
accept _ message w = (err protocol, w)

unfoldable pub cancel : Value → Action Round
cancel (str key) w = (ok next, cancel_async key w)
cancel _ w = (err protocol, w)

abbrev pub is_empty_message : Fields → Bool
is_empty_message end = true
is_empty_message (field k v fs) = false

-- The reply to a claim.
unfoldable pub claimed : Outcome Fields → Action Round
unfolding round_failed accept cancel cancel_async
claimed (err e) w = round_failed e w
claimed (ok message) w =
    let kind = get (codes "type") message in
    if w.closing
    then (ok stop, w)
    else if equals kind (codes "execute")
    then accept (get (codes "execution_id") message) message w
    else if equals kind (codes "cancel_execution")
    then cancel (get (codes "execution_id") message) w
    else if is_empty_message message
    then (ok next, w)
    else (err protocol, w)

-- `POST /queues/…/claim`
unfoldable pub claim : Action Unit
unfolding worker_request
claim w = worker_request (codes "POST") (codes "/queues/" ++ w.queue ++ codes "/claim") end none w

-- The task is done: `_execution_finished`
unfoldable pub execution_finished : Text → Worker → Worker
execution_finished key w = record w {
  executions = drop key w.executions;
  is_sync = drop key w.is_sync;
  invoked = discard key w.invoked;
}

-- `self._execution_is_sync[key] = False`
unfoldable pub mark_async : Text → Worker → Worker
mark_async key w = record w { is_sync = set key false w.is_sync }

-- Whether an execution waits or has ended, by a return or an exception.
abbrev pub end_with : Text → Worker → Worker
end_with key w = execution_finished key w

abbrev pub wait_in : Text → Execution → Phase → Worker → Worker
wait_in key e phase w = record w { executions = set key (record e { phase = phase }) w.executions }

abbrev pub after_request : Text → Execution → Phase → Outcome (Unit {0}) × Worker → Worker
after_request key e phase (ok u, w) = wait_in key e phase w
after_request key e phase (err x, w) = end_with key w

unfoldable pub context : Fields → Outcome Fields
context message = elim (lookup (codes "reservation_id") message) [
  | none ↦ err key_error
  | some reservation ↦ elim (lookup (codes "execution_id") message) [
    | none ↦ err key_error
    | some execution ↦ ok (
        field (name (codes "reservation_id")) reservation
          (field (name (codes "execution_id")) execution end))
  ]
]

abbrev pub failure : Fields → Fields → Fields
failure ids error =
    put (codes "error") (dict error) (put (codes "outcome") (str (codes "failure")) ids)

abbrev pub success : Fields → Value → Fields
success ids result = put (codes "result") result (put (codes "outcome") (str (codes "success")) ids)

abbrev pub complete : Text → Execution → Fields → Worker → Worker
complete key e body w =
    after_request key e completing
      (worker_request (codes "POST") (codes "/workers/complete") body e.session w)

abbrev pub start_handler : Text → Execution → Fields → Option Handler → Worker → Worker
start_handler key e ids none w =
    complete key e (failure ids (field (name (codes "type")) (str (codes "TaskNotRegistered")) end))
      w
start_handler key e ids (some h) w =
    after_request key e starting
      (worker_request (codes "POST") (codes "/workers/started") ids e.session w)

abbrev pub start_named : Text → Execution → Fields → Value → Worker → Worker
start_named key e ids (str task_name) w = start_handler key e ids (find task_name w.tasks) w
start_named key e ids _ w = end_with key w

abbrev pub start_with : Text → Execution → Outcome Fields → Worker → Worker
start_with key e (err x) w = end_with key w
start_with key e (ok ids) w = start_named key e ids (get (codes "task") e.message) w

-- `_execute` up to its first wait
unfoldable pub begin : Text → Execution → Worker → Worker
unfolding worker_request same_token context execution_finished
begin key e w =
    let session = or_token e.session w.token in
    if same_token session w.token
    then start_with key (record e { session = session }) (context e.message) w
    else end_with key w

abbrev pub is_current : Execution → Worker → Bool
is_current e w = same_token e.session w.token && not w.closing

-- The reply to "started": the task runs, unless the session is over.
unfoldable pub started_reply : Text → Execution → Outcome Fields → Worker → Worker
unfolding same_token execution_finished
started_reply key e (err x) w = end_with key w
started_reply key e (ok reply) w =
    if is_current e w then wait_in key e running w else end_with key w

abbrev pub submit : Text → Execution → Fields → Worker → Worker
submit key e body w = if is_current e w then complete key e body w else end_with key w

module _ (json : Json) (describe : Error → Raised) where
  abbrev pub completion : Fields → Outcome Value → Fields
  completion ids (ok result) = success ids result
  completion ids (err x) =
      failure ids (to_fields (error_details (describe x) false (some 128) (some 1024)))

  abbrev pub finish_with : Text → Execution → Outcome Value → Outcome Fields → Worker → Worker
  finish_with key e given (err x) w = end_with key w
  finish_with key e given (ok ids) w =
      submit key e (completion ids (run_task json given 65536 validation)) w

  -- The task has returned or raised.
  unfoldable pub task_done : Text → Execution → Outcome Value → Worker → Worker
  unfolding worker_request same_token context execution_finished run_task
  task_done key e given w = finish_with key e given (context e.message) w

abbrev pub cancelled_error : Fields
cancelled_error =
    field (name (codes "type")) (str (codes "CancelledError"))
      (field (name (codes "message")) (str (codes "cancelled")) end)

abbrev pub cancel_with : Text → Execution → Outcome Fields → Worker → Worker
cancel_with key e (err x) w = end_with key w
cancel_with key e (ok ids) w = submit key e (failure ids cancelled_error) w

-- The task was cancelled, while it ran.
unfoldable pub task_cancelled : Text → Execution → Worker → Worker
unfolding worker_request same_token context execution_finished
task_cancelled key e w =
    if w.closing then end_with key w else cancel_with key e (context e.message) w

-- `_awaitable_started`: the call gave an awaitable, and a session that is over cancels it.
unfoldable pub awaitable_started : Text → Execution → Worker → Worker
unfolding mark_async task_cancelled
awaitable_started key e w =
    let w' = mark_async key w in if is_current e w' then w' else task_cancelled key e w'

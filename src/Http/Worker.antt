-- ===== src/Http/Worker.antt =====
-- `TayHTTPWorker` of clients/python/tay/http.py: its state, its session, and the claims that it gets.
-- A method runs from one wait to the next as one step; what runs between is another step.
pub mod Settings
pub mod Executions
pub mod Orderly
pub mod Runs
use tay.Prelude.{
  ℕ, Bool, true, false, not, ◌&&◌, ◌||◌, Option, none, some, List, [], ◌∷◌, ◌++◌, ◌==◌, length, leb,
  if◌then◌else◌,
}
use tay.Prelude.Outcome.{
  Error, Outcome, ok, err, protocol, connection_lost, validation, reject, ◌>>=◌, ◌>>◌,
}
use tay.Text.{Text, codes, same, mem}
use tay.Number.{ℤ, pos, negsuc, within}
use tay.Value.{Value, str, int, list, dict, Items, nil, cons, Fields, end, field, name, get}
use tay.Responses.{equals}
use tay.Table.{Table, find, set, drop, keys, add}

-- A handler: whether its function is a coroutine function, and its static declaration, with its id.
pub record Handler : Type 0 where
  pub is_coroutine : Bool
  pub declaration : Option (Text × Fields)

-- The waits of `_execute`: before it began, for the reply to "started", for the task, and for the
-- reply to "complete".
pub data Phase : Type 0 where
  created starting running completing : Phase

-- A task that runs `_execute`, with the message and the session it was created in.
pub record Execution : Type 0 where
  pub message : Fields
  pub session : Option Text
  pub phase : Phase

-- A request that a worker sent, with the session that the worker had when it sent it.
pub record Sent : Type 0 where
  pub method : Text
  pub path : Text
  pub body : Fields
  pub bearer : Option Text
  pub session : Option Text

-- `opening` is the token of a session whose schedules are still being declared, `locked` whether
-- `close` holds its lock, and `revoking` the token that it is to revoke. `sent` lists the
-- requests, last first, and `cancelled` the executions whose task was cancelled. `invoked` lists the
-- tasks that `_run_loop` created and that have not finished, by execution id.
pub record Worker : Type 0 where
  pub runtime_id : Text
  pub queue : Text
  pub capacity : ℕ
  pub tasks : Table Handler
  pub withdrawn : List Text
  pub token : Option Text
  pub opening : Option Text
  pub executions : Table Execution
  pub is_sync : Table Bool
  pub serving : Bool
  pub closing : Bool
  pub locked : Bool
  pub revoking : Option Text
  pub sent : List Sent
  pub cancelled : List Text
  pub invoked : List Text

abbrev pub max_worker_capacity : ℕ
max_worker_capacity = 256

abbrev pub worker_token_length : ℕ
worker_token_length = 43

abbrev pub Action : Type 0 → Type 0
Action A = Worker → Outcome A × Worker

unfoldable pub post : Text → Text → Fields → Option Text → Worker → Worker
post method path body bearer w = record w {
  sent =
      record { method = method; path = path; body = body; bearer = bearer; session = w.token }
      ∷ w.sent;
}

unfoldable pub same_token : Option Text → Option Text → Bool
same_token none none = true
same_token (some s) (some t) = same s t
same_token _ _ = false

abbrev pub is_some : Option Text → Bool
is_some none = false
is_some (some t) = true

abbrev pub or_token : Option Text → Option Text → Option Text
or_token none token = token
or_token (some s) token = some s

-- `_worker_request(method, path, body, session_token=…)`, up to the wait for the reply
unfoldable pub worker_request : Text → Text → Fields → Option Text → Action Unit
unfolding post same_token
worker_request method path body session w =
    if is_some session && not (same_token session w.token)
    then (err connection_lost, w)
    else elim (or_token session w.token) [
      | none ↦ (err connection_lost, w)
      | some token ↦ (ok tt, post method path body (some token) w)
    ]

abbrev pub sync_of : Option Bool → Bool
sync_of none = false
sync_of (some b) = b

-- `cancel_async_execution(execution, self._execution_is_sync.get(key, False))`
unfoldable pub cancel_async : Text → Worker → Worker
cancel_async key w = elim (find key w.executions) [
  | none ↦ w
  | some e ↦
      if sync_of (find key w.is_sync) then w else record w { cancelled = add key w.cancelled }
]

unfoldable pub cancel_each : List Text → Worker → Worker
cancel_each [] w = w
cancel_each (key ∷ rest) w = cancel_each rest (cancel_async key w)

-- `register()` before it waits for the executions of the session that is retired
unfoldable pub retire : Worker → Worker
unfolding cancel_each cancel_async
retire w = if is_some w.token then w else cancel_each (keys w.executions) w

unfoldable pub name_items : List Text → Items
name_items [] = nil
name_items (t ∷ ts) = cons (str t) (name_items ts)

abbrev pub no_tasks : Table Handler → Bool
no_tasks [] = true
no_tasks (t ∷ ts) = false

-- `_register_session()` up to the reply; the Boolean is whether a request was sent.
unfoldable pub register_session : Action Bool
unfolding post name_items
register_session w =
    if w.closing
    then (err connection_lost, w)
    else if is_some w.token
    then (ok false, w)
    else if no_tasks w.tasks
    then (err validation, w)
    else (
      ok true,
      post (codes "POST") (codes "/workers")
          (field (name (codes "runtime_id")) (str w.runtime_id) (
            field (name (codes "tasks")) (list (name_items (keys w.tasks))) (
              field (name (codes "capacity")) (int (pos w.capacity))
                (field (name (codes "queue")) (str w.queue) end))))
          none w,
    )

unfoldable pub worker_token : Value → Outcome Text
worker_token (str t) = do reject (not (length t == worker_token_length)) protocol; ok t
worker_token _ = err protocol

abbrev pub opened_with : Outcome Text → Action Unit
opened_with (err e) w = (err e, w)
opened_with (ok token) w = (ok tt, record w { opening = some token })

-- The reply to the registration: a token, unless the worker was closed meanwhile.
unfoldable pub session_reply : Outcome Fields → Action Unit
unfolding worker_token
session_reply (err e) w = (err e, w)
session_reply (ok reply) w =
    if w.closing
    then (err connection_lost, w)
    else opened_with (worker_token (get (codes "worker_token") reply)) w

abbrev pub revoke : Text → Error → Action Unit
revoke token e w =
    (err e, post (codes "DELETE") (codes "/workers") end (some token) (record w { opening = none }))

-- The declarations of the handlers, but for the schedules that were withdrawn.
unfoldable pub to_declare : List Text → Table Handler → List Fields
to_declare withdrawn [] = []
to_declare withdrawn ((t, h) ∷ hs) =
    let rest = to_declare withdrawn hs in
    elim h.declaration [
      | none ↦ rest
      | some (id, fs) ↦ if mem id withdrawn then rest else fs ∷ rest
    ]

-- One request after another, with the replies that they get, up to the first that raises.
unfoldable pub declare_each : List Fields → List (Outcome Fields) → Action Unit
unfolding post
declare_each [] replies w = (ok tt, w)
declare_each (fs ∷ rest) [] w =
    (err connection_lost, post (codes "POST") (codes "/schedules") fs none w)
declare_each (fs ∷ rest) (err e ∷ replies) w =
    (err e, post (codes "POST") (codes "/schedules") fs none w)
declare_each (fs ∷ rest) (ok reply ∷ replies) w =
    declare_each rest replies (post (codes "POST") (codes "/schedules") fs none w)

abbrev pub install : Text → Outcome (Unit {0}) → Action Unit
install token (err e) w = revoke token e w
install token (ok u) w =
    if w.closing
    then revoke token connection_lost w
    else (ok tt, record w { token = some token; opening = none })

-- The schedules are declared, and the session is installed or revoked.
unfoldable pub session_declared : List (Outcome Fields) → Action Unit
unfolding to_declare declare_each
session_declared replies w = elim w.opening [
  | none ↦ (ok tt, w)
  | some token ↦
      let (r, w') = declare_each (to_declare w.withdrawn w.tasks) replies w in install token r w'
]

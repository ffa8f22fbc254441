-- ===== src/Http/Worker/Orderly/Activities.antt =====
-- Claims, the steps of an execution, and their ends keep the invariant.
use tay.Prelude.{
  ◌≡◌, ap, sym, ◌∙◌, true, false, Option, none, some, List, [], ◌∷◌, ◌++◌, refl, Bool-cases,
  if_intro, if_cases, inl, inr,
}
use tay.Prelude.Outcome.{
  Error, Outcome, ok, err, validation, connection_lost, server, remote_task, job_cancelled,
  result_missing,
}
use tay.Text.{Text, codes, mem}
use tay.Value.{Value, null, str, Fields, end, get}
use tay.Protocol.Codec.{Json}
use tay.Execution.{Raised}
use tay.Execution.Runs.{run_task}
use tay.Responses.{equals}
use tay.Table.{Table, find, set, keys, add, discard}
use tay.Table.Laws.{keys-set, keys-set_new, keys-drop, nodup-add, nodup-discard, add-of_mem}
use tay.Http.Worker.{
  Worker, Handler, Execution, Phase, created, starting, running, completing, worker_request,
  same_token, or_token,
}
use tay.Http.Worker.Orderly.{IsOrderly, worker_request-IsOrderly, worker_request-executions}
use tay.Http.Worker.Orderly.Sessions.{cancel_async-IsOrderly}
use tay.Http.Worker.Executions.{
  Round, server_failed, is_code, round_failed, create, accept, cancel, claimed, claim,
  execution_finished, mark_async, wait_in, after_request, context, failure, start_handler,
  start_named, start_with, begin, is_current, started_reply, submit, completion, finish_with,
  task_done, cancel_with, task_cancelled, cancelled_error, awaitable_started, is_running,
  is_empty_message, is_sync_handler,
}

pub execution_finished-IsOrderly :
    (key : Text) (w : Worker) → IsOrderly w → IsOrderly (execution_finished key w)
unfolding execution_finished
execution_finished-IsOrderly key w i = record {
  aligned = keys-drop key w.is_sync ∙ ap (discard key) i.aligned ∙ sym (keys-drop key w.executions);
  distinct = rw keys-drop (nodup-discard key (keys w.executions) i.distinct);
  tracked = ap (discard key) i.tracked ∙ sym (keys-drop key w.executions);
  token = i.token;
  opening = i.opening;
  fences = i.fences;
}

-- An entry of a key that is there leaves the keys as they are.
keys-set_there :
    {V : Type 0} (key : Text) (v : V) (d : Table V)
    → mem key (keys d) ≡ true
    → keys (set key v d) ≡ keys d
keys-set_there key v d h = keys-set key v d ∙ add-of_mem key (keys d) h

wait_in-IsOrderly :
    (key : Text) (e : Execution) (phase : Phase) (w : Worker)
    → mem key (keys w.executions) ≡ true
    → IsOrderly w
    → IsOrderly (wait_in key e phase w)
wait_in-IsOrderly key e phase w h i =
    let k = keys-set_there key (record e { phase = phase }) w.executions h in
    record {
      aligned = i.aligned ∙ sym k;
      distinct = rw k i.distinct;
      tracked = i.tracked ∙ sym k;
      token = i.token;
      opening = i.opening;
      fences = i.fences;
    }

after_request-IsOrderly :
    (key : Text) (e : Execution) (phase : Phase) (r : Outcome (Unit {0})) (w : Worker)
    → mem key (keys w.executions) ≡ true
    → IsOrderly w
    → IsOrderly (after_request key e phase (r, w))
after_request-IsOrderly key e phase (ok u) w h i = wait_in-IsOrderly key e phase w h i
after_request-IsOrderly key e phase (err x) w h i = execution_finished-IsOrderly key w i

module _ (key : Text) (w : Worker) (there : mem key (keys w.executions) ≡ true)
    (i : IsOrderly w) where
  request-IsOrderly :
      (e : Execution) (phase : Phase) (path : Text) (body : Fields)
      → IsOrderly (after_request key e phase (worker_request (codes "POST") path body e.session w))
  request-IsOrderly e phase path body =
      let r = worker_request (codes "POST") path body e.session w in
      after_request-IsOrderly key e phase r.0 r.1
        (rw (worker_request-executions (codes "POST") path body e.session w) there)
        (worker_request-IsOrderly (codes "POST") path body e.session w i)

  ended : IsOrderly (execution_finished key w)
  ended = execution_finished-IsOrderly key w i

  start_handler-IsOrderly :
      (e : Execution) (ids : Fields) (h : Option Handler) → IsOrderly (start_handler key e ids h w)
  start_handler-IsOrderly e ids none = request-IsOrderly e completing _ _
  start_handler-IsOrderly e ids (some h) = request-IsOrderly e starting _ ids

  start_with-IsOrderly : (e : Execution) (ids : Outcome Fields) → IsOrderly (start_with key e ids w)
  start_with-IsOrderly e (err x) = ended
  start_with-IsOrderly e (ok ids) = named (get (codes "task") e.message)
    where
      named : (v : Value) → IsOrderly (start_named key e ids v w)
      named (str t) = start_handler-IsOrderly e ids (find t w.tasks)
      named null = ended
      named _ = ended

  pub begin-IsOrderly : (e : Execution) → IsOrderly (begin key e w)
  unfolding begin
  begin-IsOrderly e = elim (Bool-cases (same_token (or_token e.session w.token) w.token)) [
    | inl s ↦ rw s (
        start_with-IsOrderly (record e { session = or_token e.session w.token })
          (context e.message))
    | inr s ↦ rw s ended
  ]

  pub started_reply-IsOrderly :
      (e : Execution) (r : Outcome Fields) → IsOrderly (started_reply key e r w)
  unfolding started_reply
  started_reply-IsOrderly e (err x) = ended
  started_reply-IsOrderly e (ok reply) = elim (Bool-cases (is_current e w)) [
    | inl c ↦ rw c (wait_in-IsOrderly key e running w there i)
    | inr c ↦ rw c ended
  ]

  submit-IsOrderly : (e : Execution) (body : Fields) → IsOrderly (submit key e body w)
  submit-IsOrderly e body = elim (Bool-cases (is_current e w)) [
    | inl c ↦ rw (c, submit) (request-IsOrderly e completing _ body)
    | inr c ↦ rw (c, submit) ended
  ]

  pub task_cancelled-IsOrderly : (e : Execution) → IsOrderly (task_cancelled key e w)
  unfolding task_cancelled
  task_cancelled-IsOrderly e = if_intro IsOrderly w.closing _ _ ended (with (context e.message))
    where
      with : (ids : Outcome Fields) → IsOrderly (cancel_with key e ids w)
      with (err x) = ended
      with (ok ids) = submit-IsOrderly e (failure ids cancelled_error)

  pub task_done-IsOrderly :
      (json : Json) (describe : Error → Raised) (e : Execution) (given : Outcome Value)
      → IsOrderly (task_done json describe key e given w)
  unfolding task_done
  task_done-IsOrderly json describe e given = with (context e.message)
    where
      with : (ids : Outcome Fields) → IsOrderly (finish_with json describe key e given ids w)
      with (err x) = ended
      with (ok ids) =
          submit-IsOrderly e (completion json describe ids (run_task json given 65536 validation))

  mark_async-IsOrderly : IsOrderly (mark_async key w)
  unfolding mark_async
  mark_async-IsOrderly = record {
    aligned = keys-set_there key false w.is_sync (rw i.aligned there) ∙ i.aligned;
    distinct = i.distinct;
    tracked = i.tracked;
    token = i.token;
    opening = i.opening;
    fences = i.fences;
  }

pub awaitable_started-IsOrderly :
    (key : Text) (w : Worker) (e : Execution)
    → mem key (keys w.executions) ≡ true
    → IsOrderly w
    → IsOrderly (awaitable_started key e w)
unfolding awaitable_started mark_async
awaitable_started-IsOrderly key w e there i =
    let j = mark_async-IsOrderly key w there i in
    elim (Bool-cases (is_current e (mark_async key w))) [
      | inl c ↦ rw c j
      | inr c ↦ rw c (task_cancelled-IsOrderly key (mark_async key w) there j e)
    ]

-- The worker that a round of the loop leaves.
abbrev Leaves : Outcome Round × Worker → Type 0
Leaves r = IsOrderly r.1

server_failed-IsOrderly :
    (code : Option Text) (e : Error) (w : Worker)
    → IsOrderly w
    → IsOrderly (server_failed code e w).1
unfolding server_failed
server_failed-IsOrderly code e w i = if_intro Leaves w.closing _ _ i (
    if_intro Leaves (is_code code (codes "unknown_worker")) _ _ retired
      (if_intro Leaves (is_code code (codes "claim_in_progress")) _ _ i i))
  where
    retired : IsOrderly (record w { token = none })
    retired = record {
      aligned = i.aligned;
      distinct = i.distinct;
      tracked = i.tracked;
      token = tt;
      opening = i.opening;
      fences = i.fences;
    }

round_failed-IsOrderly : (e : Error) (w : Worker) → IsOrderly w → IsOrderly (round_failed e w).1
unfolding round_failed
round_failed-IsOrderly connection_lost w i = i
round_failed-IsOrderly (server code) w i = server_failed-IsOrderly code (server code) w i
round_failed-IsOrderly (remote_task code) w i = server_failed-IsOrderly code (remote_task code) w i
round_failed-IsOrderly (job_cancelled code) w i =
    server_failed-IsOrderly code (job_cancelled code) w i
round_failed-IsOrderly (result_missing code) w i =
    server_failed-IsOrderly code (result_missing code) w i
round_failed-IsOrderly validation w i = i
round_failed-IsOrderly _ w i = i

not_running : (o : Option Execution) → is_running o ≡ false → o ≡ none
not_running none h = refl
not_running (some e) h = cc

create-IsOrderly :
    (key : Text) (message : Fields) (v : Value) (w : Worker)
    → find key w.executions ≡ none
    → IsOrderly w
    → IsOrderly (create key message v w).1
create-IsOrderly key message (str t) w new i =
    let e : Execution = record { message = message; session = w.token; phase = created } in
    let flag = is_sync_handler (find t w.tasks) in
    record {
      aligned =
          keys-set key flag w.is_sync ∙ ap (add key) i.aligned ∙ sym (keys-set key e w.executions);
      distinct = rw keys-set (nodup-add key (keys w.executions) i.distinct);
      tracked =
          ap (λ (l : List Text). l ++ (key ∷ [])) i.tracked
          ∙ sym (keys-set_new key e w.executions new);
      token = i.token;
      opening = i.opening;
      fences = i.fences;
    }
create-IsOrderly key message null w new i = i
create-IsOrderly key message _ w new i = i

accept-IsOrderly :
    (v : Value) (message : Fields) (w : Worker) → IsOrderly w → IsOrderly (accept v message w).1
unfolding accept
accept-IsOrderly (str key) message w i =
    if_cases Leaves (is_running (find key w.executions)) _ _ (λ there. i)
      λ new.
        create-IsOrderly key message (get (codes "task") message) w
          (not_running (find key w.executions) new) i
accept-IsOrderly null message w i = i
accept-IsOrderly _ message w i = i

cancel-IsOrderly : (v : Value) (w : Worker) → IsOrderly w → IsOrderly (cancel v w).1
unfolding cancel
cancel-IsOrderly (str key) w i = cancel_async-IsOrderly key w i
cancel-IsOrderly null w i = i
cancel-IsOrderly _ w i = i

pub claimed-IsOrderly : (r : Outcome Fields) (w : Worker) → IsOrderly w → IsOrderly (claimed r w).1
unfolding claimed
claimed-IsOrderly (err e) w i = round_failed-IsOrderly e w i
claimed-IsOrderly (ok message) w i =
    let kind = get (codes "type") message in
    let id = get (codes "execution_id") message in
    if_intro Leaves w.closing _ _ i (
      if_intro Leaves (equals kind (codes "execute")) _ _ (accept-IsOrderly id message w i) (
        if_intro Leaves (equals kind (codes "cancel_execution")) _ _ (cancel-IsOrderly id w i)
          (if_intro Leaves (is_empty_message message) _ _ i i)))

pub claim-IsOrderly : (w : Worker) → IsOrderly w → IsOrderly (claim w).1
unfolding claim
claim-IsOrderly w i = worker_request-IsOrderly (codes "POST") _ end none w i

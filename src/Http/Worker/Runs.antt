-- ===== src/Http/Worker/Runs.antt =====
-- The HTTP worker as a machine: `serve_forever`, `close`, and runs of any events in any order.
pub mod Invariant
use tay.Prelude.{ℕ, Bool, true, false, ◌||◌, Option, none, some, List, [], ◌∷◌, ◌++◌, if◌then◌else◌}
use tay.Prelude.Outcome.{Error, Outcome}
use tay.Text.{Text, codes}
use tay.Value.{Value, Fields, end}
use tay.Protocol.Codec.{Json}
use tay.Execution.{Raised}
use tay.Table.{find, keys}
use tay.Http.Worker.{
  Worker, Execution, Phase, created, starting, running, completing, post, retire, register_session,
  session_reply, session_declared,
}
use tay.Http.Worker.Executions.{
  claim, claimed, begin, started_reply, task_done, task_cancelled, awaitable_started,
  execution_finished,
}

-- What happens at a wait of the loop, of an execution, or of `close`. `aborted` is a cancellation that
-- reaches an execution before or after its task runs.
pub data Event : Type 0 where
  served serve_ended retired registering claiming close_begun closed : Event
  opened replied : Outcome Fields → Event
  declared : List (Outcome Fields) → Event
  begun awaited cancelled aborted : Text → Event
  started completed : Text → Outcome Fields → Event
  returned : Text → Outcome Value → Event

abbrev pub is_phase : Phase → Phase → Bool
is_phase created created = true
is_phase starting starting = true
is_phase running running = true
is_phase completing completing = true
is_phase _ _ = false

abbrev pub on_execution : Option Execution → (Execution → Worker → Worker) → Worker → Worker
on_execution none f w = w
on_execution (some e) f w = f e w

-- The execution under the key, where it waits in that phase.
unfoldable pub in_phase : Text → Phase → (Execution → Worker → Worker) → Worker → Worker
in_phase key phase f w =
    on_execution (find key w.executions) (λ e v. if is_phase phase e.phase then f e v else v) w

-- `serve_forever()` up to the loop: it raises where it serves already, or is closing.
unfoldable pub serve : Worker → Worker
serve w = if w.serving || w.locked then w else record w { closing = false; serving = true }

-- `close()` up to the wait for the executions, and under its lock
unfoldable pub close_begin : Worker → Worker
close_begin w = if w.locked then record w { closing = true } else record w {
  closing = true;
  locked = true;
  revoking = w.token;
  token = none;
  cancelled = keys w.executions ++ w.cancelled;
}

abbrev pub revoke_session : Option Text → Worker → Worker
revoke_session none w = w
revoke_session (some token) w = post (codes "DELETE") (codes "/workers") end (some token) w

-- The rest of `close()`, after the executions have ended
unfoldable pub close_end : Worker → Worker
unfolding post
close_end w =
    if w.locked
    then revoke_session w.revoking
        (record w { executions = []; is_sync = []; invoked = []; locked = false; revoking = none })
    else w

module _ (json : Json) (describe : Error → Raised) where
  unfoldable pub step : Event → Worker → Worker
  step served w = serve w
  step serve_ended w = record w { serving = false }
  step retired w = retire w
  step registering w = (register_session w).1
  step (opened r) w = (session_reply r w).1
  step (declared rs) w = (session_declared rs w).1
  step claiming w = (claim w).1
  step (replied r) w = (claimed r w).1
  step (begun key) w = in_phase key created (begin key) w
  step (started key r) w = in_phase key starting (λ e v. started_reply key e r v) w
  step (awaited key) w = in_phase key running (awaitable_started key) w
  step (returned key given) w =
      in_phase key running (λ e v. task_done json describe key e given v) w
  step (cancelled key) w = in_phase key running (task_cancelled key) w
  step (completed key r) w = in_phase key completing (λ e v. execution_finished key v) w
  step (aborted key) w = execution_finished key w
  step close_begun w = close_begin w
  step closed w = close_end w

  unfoldable pub run : List Event → Worker → Worker
  run [] w = w
  run (e ∷ es) w = run es (step e w)

-- ===== src/Client/Runs.antt =====
-- The client as a machine: `_handle_message`, `_read_loop`, the connection, the parts of `close`, and runs of any
-- events in any order.
pub mod Invariant
pub mod Answers
pub mod Refinement
use tay.Prelude.{ℕ, Bool, true, false, ◌&&◌, Option, none, some, List, [], ◌∷◌, ◌++◌, if◌then◌else◌}
use tay.Prelude.Outcome.{Error, Outcome, ok, err, connection_lost, protocol}
use tay.Text.{Text, codes}
use tay.Value.{Value, str, Fields, end, field, name, get}
use tay.Responses.{equals}
use tay.Table.{Table, keys}
use tay.Client.{World, Client, Action, raise}
use tay.Client.Sending.{is_writer, send_event}
use tay.Client.Requests.{
  exchange_begin, send_request, drain_failed, exchange_end, handle_reply, read_loop_end,
  fail_pending,
}
use tay.Client.Executions.{
  accept_execution, cancel_execution, execution_finished, detach_connection,
}

-- A method that waits is a step for each part between its waits. The parts of `_exchange` are
-- `requested`, `sending`, where the drain did not have to wait or still waits, `undrained`, where it
-- waited and failed, and `waited`; those of `close` are `close_begun`, `close_cleared` and
-- `close_ended`. A run may hold any parts in any order, so also the orders that the locks rule out.
-- `finished` is for a task in `invoked`: what the callback of a task that `close` gave up does to a
-- later one of the same id is not modelled.
pub data Event : Type 0 where
  received : ℕ → Fields → Event
  requested sending : Text → Fields → Event
  undrained waited finished : Text → Event
  connected read_ended detached : ℕ → Event
  close_begun close_cleared close_ended : Event

-- `close()` under its lock
unfoldable pub close_begin : Client → Client
close_begin c = record c { running = false; shutting = true; connected = false; lost = true }

-- `close()` after the supervisor and the reader have stopped, up to the wait for the writer
unfoldable pub close_clear : Client → Client
close_clear c =
    let failed = fail_pending connection_lost c in
    record failed {
      cancelled = keys failed.executions ++ failed.cancelled;
      executions = [];
      is_sync = [];
      connections = [];
      event_ids = [];
      invoked = [];
    }

-- The end of `close()`
unfoldable pub close_end : Client → Client
close_end c = record c { writer = none }

module _ (world : World) where
  unfoldable pub handle_request_id : Value → Fields → Action Unit
  handle_request_id (str id) message = handle_reply world id message
  handle_request_id _ message = raise protocol

  -- `_handle_message(message)`
  unfoldable pub handle_message : Fields → Action Unit
  handle_message message =
      let kind = get (codes "type") message in
      if equals kind (codes "execute")
      then accept_execution world message
      else if equals kind (codes "cancel_execution")
      then cancel_execution message
      else if equals kind (codes "ping")
      then send_event world (codes "pong")
          (field (name (codes "ping_id")) (get (codes "ping_id") message) end) none
      else handle_request_id (get (codes "request_id") message) message

  abbrev pub loop_on : ℕ → Outcome (Unit {0}) → Client → Client
  loop_on w (ok u) c = c
  loop_on w (err e) c = read_loop_end w c

  -- One round of `_read_loop` on connection `w`: an exception ends the loop.
  unfoldable pub read_round : ℕ → Fields → Client → Client
  read_round w message c =
      let (r, c') = handle_message message c in
      if c.running && is_writer w c.writer then loop_on w r c' else c

  unfoldable pub step : Event → Client → Client
  step (received w message) c = read_round w message c
  step (requested message_type fields) c = (exchange_begin world message_type fields c).1
  step (sending id envelope) c = (send_request world id envelope c).1
  step (undrained id) c = drain_failed id c
  step (waited id) c = (exchange_end world id c).1
  step (finished id) c = execution_finished id c
  step (connected w) c = record c { writer = some w; lost = false }
  step (read_ended w) c = read_loop_end w c
  step (detached w) c = detach_connection w c
  step close_begun c = close_begin c
  step close_cleared c = close_clear c
  step close_ended c = close_end c

  unfoldable pub run : List Event → Client → Client
  run [] c = c
  run (e ∷ es) c = run es (step e c)

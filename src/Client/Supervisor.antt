-- ===== src/Client/Supervisor.antt =====
-- `start`, `_connection_supervisor` and `close` of clients/python/tay/client.py, as a machine around the
-- client: the supervisor runs from one wait to the next as one step, and `close` is a step for each
-- part between its waits, so that a `start` and other work may come between. `_detach_connection` is
-- one step, since it changes nothing after its first wait.
pub mod Frame
pub mod Held
pub mod Linked
pub mod Overtaken
pub mod Invariant
pub mod Delays
use tay.Prelude.{
  ℕ, Bool, true, false, not, ◌&&◌, ◌||◌, Option, none, some, List, [], ◌∷◌, ◌++◌, ◌==◌,
  if◌then◌else◌,
}
use tay.Prelude.Outcome.{Outcome, ok, err, connection_lost, runtime_error}
use tay.Text.{Text}
use tay.Number.{Float}
use tay.Value.{Fields}
use tay.Client.{World, Client}
use tay.Client.Backoff.{next_delay}
use tay.Client.Executions.{detach_connection}
use tay.Client.Runs as Runs

-- Where the supervisor waits: it was created and has not run, for the socket to open, for the
-- handshake on a connection, for the loss of a connection, or for the pause to end.
pub data Phase : Type 0 where
  stopped created opening sleeping : Phase
  greeting watching : ℕ → Phase

-- `delay` is the local variable of the supervisor, `pauses` lists the arguments of its `sleep`, last
-- first, and `loop` is the event loop of the first `start`. `retiring` holds a supervisor that `close`
-- has cancelled and that has yet to end, by the connection that it has to detach.
pub record Link : Type 0 where
  pub client : Client
  pub phase : Phase
  pub delay : Float
  pub pauses : List Float
  pub retiring : List (Option ℕ)
  pub loop : Option ℕ
  pub initial_delay : Float
  pub max_delay : Float

-- `_ensure_event_loop()`, in that event loop
unfoldable pub ensure_event_loop : ℕ → Option ℕ → Outcome (Option ℕ)
ensure_event_loop current none = ok (some current)
ensure_event_loop current (some l) = if l == current then ok (some l) else err runtime_error

-- The property `connected`
abbrev pub has_writer : Option ℕ → Bool
has_writer none = false
has_writer (some w) = true

unfoldable pub is_connected : Client → Bool
is_connected c = c.connected && has_writer c.writer

-- `_wait_until_connected()`, where the event is set before the timeout, or is not
unfoldable pub wait_until_connected : Bool → Client → Outcome (Unit {0})
unfolding is_connected
wait_until_connected in_time c = if is_connected c || in_time then ok tt else err connection_lost

abbrev pub launch : Link → Link
launch s = if s.client.running then s else record s {
  client = record s.client { running = true; shutting = false };
  phase = created;
  delay = s.initial_delay;
}

abbrev pub in_loop : Outcome (Option ℕ) → (Link → Link) → Link → Outcome (Unit {0}) × Link
in_loop (ok l) f s = (ok tt, f (record s { loop = l }))
in_loop (err e) f s = (err e, s)

-- `start()` up to the wait for the connection
unfoldable pub start : ℕ → Link → Outcome (Unit {0}) × Link
unfolding ensure_event_loop
start current s = in_loop (ensure_event_loop current s.loop) launch s

-- The head of the loop, up to the wait for the socket
unfoldable pub begin_round : Link → Link
begin_round s =
    if s.client.running
    then record s { client = record s.client { lost = false }; phase = opening }
    else record s { phase = stopped }

-- The end of a round, from its `finally` to the pause
unfoldable pub end_round : Client → Link → Link
end_round c s =
    if c.running
    then record s { client = c; phase = sleeping; pauses = s.delay ∷ s.pauses }
    else record s { client = c; phase = stopped }

abbrev pub disconnect : Client → Client
disconnect c = record c { connected = false }

-- `open_unix_connection` gives a connection
unfoldable pub opened : ℕ → Link → Link
opened w s =
    if s.client.running
    then record s { client = record s.client { writer = some w }; phase = greeting w }
    else record s { phase = stopped }

-- `_bootstrap` returns or raises.
unfoldable pub greeted : ℕ → Outcome (Unit {0}) → Link → Link
unfolding end_round
greeted w (ok u) s = record s {
  client = record s.client { connected = true };
  delay = s.initial_delay;
  phase = watching w;
}
greeted w (err e) s = end_round (detach_connection w (disconnect s.client)) s

-- The wait for `_connection_lost` ends once it is set.
unfoldable pub noticed : ℕ → Link → Link
unfolding end_round
noticed w s = if s.client.lost then end_round (detach_connection w (disconnect s.client)) s else s

-- The pause ends.
unfoldable pub slept : Link → Link
unfolding begin_round next_delay
slept s = begin_round (record s { delay = next_delay s.max_delay s.delay })

-- What a supervisor has yet to do when it is cancelled. One that has not run or that sleeps ends at
-- once.
abbrev pub unfinished : Phase → List (Option ℕ)
unfinished opening = none ∷ []
unfinished (greeting w) = some w ∷ []
unfinished (watching w) = some w ∷ []
unfinished _ = []

-- `close()` up to its first wait: the supervisor is cancelled.
abbrev pub shut : Link → Link
shut s = record s {
  client = Runs.close_begin s.client;
  phase = stopped;
  retiring = unfinished s.phase ++ s.retiring;
}

abbrev pub shut_in : Outcome (Option ℕ) → Link → Outcome (Unit {0}) × Link
shut_in (ok l) s = (ok tt, shut s)
shut_in (err e) s = (err e, s)

-- `close()`: the event loop is looked at only after a `start`.
unfoldable pub close : ℕ → Link → Outcome (Unit {0}) × Link
unfolding ensure_event_loop
close current s = elim s.loop [
  | none ↦ (ok tt, shut s)
  | some l ↦ shut_in (ensure_event_loop current (some l)) s
]

abbrev pub same_connection : Option ℕ → Option ℕ → Bool
same_connection none none = true
same_connection (some v) (some w) = v == w
same_connection _ _ = false

abbrev pub listed : Option ℕ → List (Option ℕ) → Bool
listed o [] = false
listed o (p ∷ ps) = same_connection o p || listed o ps

abbrev pub removed : Option ℕ → List (Option ℕ) → List (Option ℕ)
removed o [] = []
removed o (p ∷ ps) = if same_connection o p then ps else p ∷ removed o ps

-- The `finally` of a round
unfoldable pub cancelled : Option ℕ → Client → Client
cancelled none c = disconnect c
cancelled (some w) c = detach_connection w (disconnect c)

-- A supervisor that was cancelled comes to its end.
unfoldable pub gave_up : Option ℕ → Link → Link
unfolding cancelled
gave_up o s =
    if listed o s.retiring
    then record s { client = cancelled o s.client; retiring = removed o s.retiring }
    else s

-- What happens at a wait of the supervisor, and in the client next to it.
pub data Event : Type 0 where
  starting closing : ℕ → Event
  scheduled refused resumed lost : Event
  accepted : ℕ → Event
  answered : Outcome (Unit {0}) → Event
  received : ℕ → Fields → Event
  requested sending : Text → Fields → Event
  undrained waited finished : Text → Event
  read_ended : ℕ → Event
  left : Option ℕ → Event
  close_cleared close_ended : Event

-- A step of the supervisor, where it waits for that.
unfoldable pub supervise : Event → Phase → Link → Link
unfolding begin_round end_round opened greeted noticed slept
supervise scheduled created s = begin_round s
supervise (accepted w) opening s = opened w s
supervise refused opening s = end_round (disconnect s.client) s
supervise (answered r) (greeting w) s = greeted w r s
supervise lost (watching w) s = noticed w s
supervise resumed sleeping s = slept s
supervise _ _ s = s

module _ (world : World) where
  abbrev pub work : Runs.Event → Link → Link
  work e s = record s { client = Runs.step world e s.client }

  unfoldable pub step : Event → Link → Link
  unfolding start close supervise gave_up
  step (starting current) s = (start current s).1
  step (closing current) s = (close current s).1
  step (received w message) s = work (Runs.received w message) s
  step (requested message_type fields) s = work (Runs.requested message_type fields) s
  step (sending id envelope) s = work (Runs.sending id envelope) s
  step (undrained id) s = work (Runs.undrained id) s
  step close_cleared s = work Runs.close_cleared s
  step close_ended s = work Runs.close_ended s
  step (left o) s = gave_up o s
  step (waited id) s = work (Runs.waited id) s
  step (finished id) s = work (Runs.finished id) s
  step (read_ended w) s = work (Runs.read_ended w) s
  step e s = supervise e s.phase s

  unfoldable pub run : List Event → Link → Link
  unfolding step
  run [] s = s
  run (e ∷ es) s = run es (step e s)

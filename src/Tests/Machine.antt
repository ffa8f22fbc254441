-- ===== src/Tests/Machine.antt =====
-- The socket client at concrete inputs: a world with made up ids, and one run through a connection, a
-- request, a message, a loss and a closing.
use tay.Prelude.{◌≤◌, ◌≡◌, refl, true, false, none, some, List, [], ◌∷◌, ◌++◌, arith, length}
use tay.Prelude.Outcome.{connection_lost, ok}
use tay.Text.{codes, mem, same, utf8_size, has_nul}
use tay.Number.{pos, finite}
use tay.Validation.{positive_finite, identifier}
use tay.Client.Runs.Answers.{status, answered}
use tay.Client.Runs.Refinement.{run-keeps_answer}
use tay.Client.Bootstrap.{with_static, sort_entries, sort_texts, bootstrap_messages, hello}
use tay.Client.Bootstrap.Sorting.{ascending}
use tay.Client.Bootstrap.Order.{as_messages, tasks_message, declaration_of, bootstrap_order}
use tay.Client.Settings.{Arguments, Settings, construct, less, modes, construct_bounds}
use tay.Value.{Value, int, float, str, Fields, end, field, name}
use tay.Protocol.Codec.{Json}
use tay.Execution.{Raised}
use tay.Table.{find, keys}
use tay.Table.Laws.{nodup}
use tay.Client.{World, Client, embedded}
use tay.Client.Requests.{fail_pending}
use tay.Client.Requests.Invariant.{Distinct, failed_or, find-fail_pending}
use tay.Client.Runs.{
  Event, received, requested, sending, waited, connected, read_ended, close_begun, close_cleared,
  close_ended, run,
}
use tay.Client.Runs.Invariant.{IsSound, run-IsSound}

-- A codec that writes everything in two bytes.
abbrev pub brief : Json
brief = record { dumps = λ v. some (b'{' ∷ b'}' ∷ []); loads = λ b. none }

abbrev pub quiet : Raised
quiet = record { class_name = codes "OSError"; message = none; formatted = none }

abbrev pub world : World
world = record {
  json = brief;
  show = λ v. [];
  describe = λ e. quiet;
  uuid = λ n. n ∷ [];
  closing = λ w. false;
  writes = λ w. true;
}

abbrev pub fresh_client : Client
fresh_client = record {
  mode = embedded;
  capacity = 1;
  max_frame_bytes = 1024;
  max_error_bytes = 256;
  include_traceback = false;
  tasks = (codes "work", record { function = 1; is_coroutine = true }) ∷ [];
  registered = [];
  declarations = [];
  withdrawn = [];
  running = true;
  shutting = false;
  connected = false;
  lost = true;
  writer = none;
  pending = [];
  settled = [];
  event_ids = [];
  executions = [];
  is_sync = [];
  connections = [];
  sent = [];
  cancelled = [];
  invoked = [];
  drawn = 0;
}

abbrev execute : Fields
execute = field (name (codes "type")) (str (codes "execute")) (
    field (name (codes "execution_id")) (str (codes "e")) (
      field (name (codes "reservation_id")) (str (codes "v")) (
        field (name (codes "job_id")) (str (codes "j"))
          (field (name (codes "task")) (str (codes "work")) end))))

abbrev story : List Event
story =
    connected 1
    ∷ requested (codes "ping") end
    ∷ sending (0 ∷ []) end
    ∷ received 1 execute
    ∷ read_ended 1
    ∷ waited (0 ∷ [])
    ∷ close_begun
    ∷ close_cleared
    ∷ close_ended
    ∷ []

world-Distinct : Distinct world
world-Distinct = record { apart = λ m n h. ground arith }

fresh_client-IsSound : IsSound world fresh_client
unfolding keys nodup mem find
fresh_client-IsSound = record {
  bounded = record {
    fits = omega arith;
    tracked = refl;
    aligned = refl;
    distinct = refl;
    idle = λ h. refl;
  };
  correlated = record {
    distinct = refl;
    waiting = λ id h. refl;
    fresh_pending = λ k h. refl;
    fresh_settled = λ k h. refl;
  };
}

run-IsSound_example : IsSound world (run world story fresh_client)
run-IsSound_example = run-IsSound world world-Distinct story fresh_client fresh_client-IsSound

abbrev waiting_client : Client
waiting_client = record fresh_client { pending = (0 ∷ []) ∷ (1 ∷ []) ∷ [] }

find-fail_pending_example :
    ((fail_pending connection_lost waiting_client).pending ≡ [])
    × (find (1 ∷ []) (fail_pending connection_lost waiting_client).settled
        ≡ failed_or
            (find (1 ∷ []) waiting_client.settled)
            (mem (1 ∷ []) waiting_client.pending)
            connection_lost)
find-fail_pending_example = find-fail_pending (1 ∷ []) connection_lost waiting_client

abbrev answered_client : Client
answered_client = record fresh_client { settled = ((0 ∷ []), ok end) ∷ [] }

answer_there : status (0 ∷ []) answered_client ≡ answered (ok end)
unfolding status find same
answer_there = refl

run-keeps_answer_example : status (0 ∷ []) (run world story answered_client) ≡ answered (ok end)
run-keeps_answer_example =
    run-keeps_answer (0 ∷ []) world story answered_client (ok end) answer_there

abbrev retaining_client : Client
retaining_client = record fresh_client {
  declarations = (codes "b", execute) ∷ (codes "a", end) ∷ [];
  registered = codes "work" ∷ codes "rest" ∷ [];
}

bootstrap_order_example :
    let declared =
      sort_entries (with_static (λ t. none) [] (codes "work" ∷ []) retaining_client.declarations) in
    let order = sort_texts retaining_client.registered in
    (bootstrap_messages (λ t. none) retaining_client (codes "r")
      ≡ hello retaining_client (codes "r")
        ∷ (as_messages declared ++ tasks_message retaining_client order))
    × (ascending (keys declared) ≡ true)
    × (nodup (keys declared) ≡ true)
    × (find (codes "a") declared ≡ declaration_of (λ t. none) retaining_client (codes "a"))
    × (ascending order ≡ true)
    × (mem (codes "a") order ≡ mem (codes "a") retaining_client.registered)
    × (length order ≡ length retaining_client.registered)
unfolding keys
bootstrap_order_example =
    bootstrap_order (λ t. none) retaining_client (codes "r") (codes "a")
      (unfold nodup mem same in refl)

abbrev second : Value
second = float (finite false 8)

abbrev arguments : Arguments
arguments = record {
  mode = str (codes "worker");
  socket_path = ok (codes "/run/tay.sock");
  capacity = int (pos 4);
  max_frame_bytes = int (pos 4096);
  max_result_bytes = int (pos 512);
  max_error_bytes = int (pos 512);
  request_timeout = second;
  connect_timeout = second;
  reconnect_initial_delay = second;
  reconnect_max_delay = second;
  client_id = str (codes "w");
}

abbrev built : Settings
built = record {
  mode = codes "worker";
  socket_path = codes "/run/tay.sock";
  capacity = 4;
  max_frame_bytes = 4096;
  max_result_bytes = 512;
  max_error_bytes = 512;
  request_timeout = finite false 8;
  connect_timeout = finite false 8;
  reconnect_initial_delay = finite false 8;
  reconnect_max_delay = finite false 8;
  client_id = codes "w";
}

construct-built : construct arguments ≡ ok built
unfolding construct positive_finite identifier less mem same utf8_size has_nul tay.Number.is_finite
    tay.Number.not_positive
construct-built = refl

construct_bounds_example :
    (mem (codes "worker") modes ≡ true)
    × (1 ≤ 4)
    × (4 ≤ 65535)
    × (256 ≤ 4096)
    × (1 ≤ 512)
    × (128 ≤ 512)
    × (less (finite false 8) (finite false 8) ≡ false)
construct_bounds_example = construct_bounds arguments built construct-built

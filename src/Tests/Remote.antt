-- ===== src/Tests/Remote.antt =====
-- The HTTP client and its worker, the wait for a result, and the arguments of a job at concrete inputs.
use tay.Prelude.{
  ℕ, ◌≡◌, ◌↔◌, ◌⊎◌, refl, true, false, none, some, List, [], ◌∷◌, ◌==◌, if◌then◌else◌,
}
use tay.Prelude.Outcome.{Outcome, ok, err, protocol, server}
use tay.Text.{Text, codes, mem, same}
use tay.Number.{Float, finite}
use tay.Value.{
  Value, null, bool, float, str, Items, nil, cons, Fields, end, field, name, has, lookup,
}
use tay.Protocol.Codec.{Json}
use tay.Execution.{Raised}
use tay.Validation.{positive_finite}
use tay.Results.{Poll, units, wait_result}
use tay.Results.Ends.{Decides, wait_result_ends}
use tay.Table.Laws.{nodup}
use tay.Http.{Listener, response, answer}
use tay.Http.Settings.{
  Url, Credentials, bundle, pem, plain, is_loopback, is_https, IsPort, settings, settings_secure,
}
use tay.Http.Answers.{IsReply, IsFault, answer_exact, answer_errors}
use tay.Http.Worker.{Worker}
use tay.Http.Worker.Runs.{
  Event, served, registering, opened, declared, claiming, replied, begun, started, returned,
  completed, close_begun, closed,
}
use tay.Tasks.Arguments.{
  Parameter, positional_only, positional_or_keyword, keyword_only, var_positional,
  arguments_from_call, bind, call_from_arguments,
}
use tay.Tasks.Arguments.Replay.{labels, replayable}
use tay.Tasks.Arguments.Calls.{arguments_round_trip}
use tay.Tasks.Arguments.Varargs.{varargs_lost}

abbrev pub tiny : Json
tiny = record { dumps = λ v. some (b'{' ∷ b'}' ∷ []); loads = λ b. none }

abbrev pub silent_error : Raised
silent_error = record { class_name = codes "OSError"; message = none; formatted = none }

-- A listener that always answers with a body that is no JSON.
abbrev pub listener : Listener ℕ
listener = record {
  json = tiny;
  parse = λ b. none;
  show = λ v. [];
  quote = λ t. t;
  urlencode = λ fs. [];
  exchange = λ r n. (response 200 [], n);
}

abbrev pub origin : Url
origin = record {
  scheme = codes "https";
  hostname = some (codes "tay.example");
  path = [];
  query = [];
  fragment = [];
  username = none;
  password = none;
  port = ok (some 8443);
}

abbrev pub with_bundle : Credentials
with_bundle = record {
  ca_file = false;
  cert_file = false;
  key_file = false;
  pkcs12_file = true;
  pkcs12_password = true;
}

abbrev pub small : Float
small = finite false 8

constructed : settings (λ t. none) origin (float small) with_bundle ≡ ok (small, bundle)
unfolding settings positive_finite mem same tay.Number.is_finite tay.Number.not_positive is_loopback
constructed = refl

settings_secure_example :
    ((is_loopback (λ t. none) origin ≡ true)
      ⊎ ((is_https origin ≡ true) × ((bundle ≡ pem) ⊎ (bundle ≡ bundle))))
    × ((is_https origin ≡ true) ⊎ (bundle ≡ plain))
    × IsPort origin.port
settings_secure_example =
    settings_secure (λ t. none) origin (float small) with_bundle small bundle constructed

answer_exact_example :
    (answer listener 200 (b'{' ∷ []) ≡ ok end) ↔ IsReply listener 200 (b'{' ∷ []) end
answer_exact_example = answer_exact listener 200 (b'{' ∷ []) end

no_json : answer listener 200 (b'{' ∷ []) ≡ err protocol
unfolding answer
no_json = refl

answer_errors_example : IsFault listener 200 (b'{' ∷ []) protocol
answer_errors_example = answer_errors listener 200 (b'{' ∷ []) protocol no_json

abbrev token : Text
token = codes "0123456789012345678901234567890123456789abc"

abbrev idle_worker : Worker
idle_worker = record {
  runtime_id = codes "w";
  queue = codes "default";
  capacity = 1;
  tasks = (codes "work", record { is_coroutine = true; declaration = none }) ∷ [];
  withdrawn = [];
  token = none;
  opening = none;
  executions = [];
  is_sync = [];
  serving = false;
  closing = false;
  locked = false;
  revoking = none;
  sent = [];
  cancelled = [];
  invoked = [];
}

abbrev job : Fields
job = field (name (codes "type")) (str (codes "execute")) (
    field (name (codes "execution_id")) (str (codes "e")) (
      field (name (codes "reservation_id")) (str (codes "v"))
        (field (name (codes "task")) (str (codes "work")) end)))

abbrev shift : List Event
shift =
    served
    ∷ registering
    ∷ opened (ok (field (name (codes "worker_token")) (str token) end))
    ∷ declared []
    ∷ claiming
    ∷ replied (ok job)
    ∷ begun (codes "e")
    ∷ started (codes "e") (ok end)
    ∷ returned (codes "e") (ok null)
    ∷ completed (codes "e") (ok end)
    ∷ close_begun
    ∷ closed
    ∷ []

-- A job whose result is there at the third poll.
abbrev third : ℕ → Poll
third n = record {
  result = if n == 2 then ok null else err (server (some (codes "result_not_ready")));
  took = 1;
  late = 0;
}

accepted : positive_finite (float small) ≡ ok small
unfolding positive_finite tay.Number.is_finite tay.Number.not_positive
accepted = refl

wait_result_ends_example :
    (k : ℕ) × (r : Outcome Value) × (wait_result third (float small) (float small) ≡ some r)
    × Decides third (units small) (units small) k r
wait_result_ends_example =
    wait_result_ends third (float small) (float small) small small accepted accepted

abbrev parameters : List Parameter
parameters =
    record { label = codes "a"; kind = positional_only; default = none }
    ∷ record { label = codes "b"; kind = positional_or_keyword; default = some null }
    ∷ record { label = codes "c"; kind = keyword_only; default = none }
    ∷ []

abbrev given : Fields
given = field (name (codes "c")) (bool true) end

abbrev bound_arguments : Fields
bound_arguments =
    field (name (codes "a")) (bool false)
      (field (name (codes "b")) null (field (name (codes "c")) (bool true) end))

bound_call :
    arguments_from_call (some parameters) (cons (bool false) nil) given
    ≡ ok (Value.dict bound_arguments)
unfolding arguments_from_call lookup same tay.Value.remove tay.Protocol.normalize_json
    tay.Value.count_fields
bound_call = refl

labels_differ : nodup (labels parameters) ≡ true
unfolding nodup labels mem same
labels_differ = refl

may_replay : replayable parameters ≡ true
unfolding replayable
may_replay = refl

arguments_round_trip_example :
    (positional : Items) × (keyword : Fields) × (call_from_arguments
        (some parameters)
        (Value.dict bound_arguments)
      ≡ ok (positional, keyword))
    × (arguments_from_call (some parameters) positional keyword ≡ ok (Value.dict bound_arguments))
arguments_round_trip_example =
    arguments_round_trip parameters (cons (bool false) nil) given (Value.dict bound_arguments)
      labels_differ may_replay bound_call

abbrev first : Parameter
first = record { label = codes "a"; kind = positional_or_keyword; default = none }

abbrev others : Parameter
others = record { label = codes "args"; kind = var_positional; default = none }

abbrev starred_call : Value
starred_call = Value.dict (
    field (name (codes "a")) null
      (field (name (codes "args")) (Value.list (cons (bool true) nil)) end))

labels_apart : same (codes "args") (codes "a") ≡ false
unfolding same
labels_apart = refl

starred :
    arguments_from_call (some (first ∷ others ∷ [])) (cons null (cons (bool true) nil)) end
    ≡ ok starred_call
unfolding arguments_from_call has tay.Protocol.normalize_json tay.Value.count_fields
    tay.Value.count_items
starred = refl

varargs_lost_example :
    (positional : Items) × (keyword : Fields) × (call_from_arguments
        (some (first ∷ others ∷ []))
        starred_call
      ≡ ok (positional, keyword))
    × (bind (first ∷ others ∷ []) positional keyword ≡ none)
varargs_lost_example =
    varargs_lost first others refl refl labels_apart null (bool true) nil starred_call starred

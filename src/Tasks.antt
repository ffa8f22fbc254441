-- ===== src/Tasks.antt =====
-- clients/python/tay/task.py: the declaration of tasks and their registry. A callable is its identity,
-- with the names that Python gives it.
pub mod Registry
pub mod Arguments
pub mod Static
use tay.Prelude.{
  ℕ, Bool, true, false, not, ◌&&◌, ◌||◌, Option, none, some, List, [], ◌∷◌, ◌++◌, ◌==◌,
  if◌then◌else◌,
}
use tay.Prelude.Outcome.{Outcome, ok, err, validation, registration, ◌>>=◌, ◌>>◌, reject}
use tay.Text.{Text, codes, mem}
use tay.Value.{
  Key, name, odd, Value, null, str, dict, Fields, end, field, is_none, get, put, remove, update,
}
use tay.Protocol.{validate_task_name}
use tay.Options.{validate_execution_options, enqueue_option_names, merge_enqueue_options}
use tay.Schedules.{ScheduleOptions, validate_cron, validate_every, validate_schedule_options}
use tay.Table.{Table, find, set}

pub record TaskConfig : Type 0 where
  pub retries : Value
  pub backoff : Value
  pub durability : Value
  pub cron : Value
  pub every : Value
  pub overlap : Value
  pub declaration_id : Value

unfoldable pub put_given : Text → Value → Fields → Fields
put_given t null options = options
put_given t v options = put t v options

unfoldable pub execution_options : TaskConfig → Fields
unfolding put_given
execution_options config =
    put_given (codes "durability") config.durability
      (put_given (codes "backoff") config.backoff (put_given (codes "retries") config.retries end))

unfoldable pub has_schedule : TaskConfig → Bool
has_schedule config = not (is_none config.cron) || not (is_none config.every)

unfoldable pub check_cron : Value → Outcome (Unit {0})
check_cron null = ok tt
check_cron v = validate_cron v

unfoldable pub check_every : Value → Outcome (Unit {0})
check_every null = ok tt
check_every v = do fs ← validate_every v; ok tt

-- `TaskConfig.__post_init__`
unfoldable pub validate_config : (ℕ → Bool) → TaskConfig → Outcome (Unit {0})
validate_config is_decimal config = do
  validate_execution_options (execution_options config)
  reject (not (is_none config.cron) && not (is_none config.every)) validation
  check_cron config.cron
  check_every config.every
  validate_schedule_options is_decimal (record {
    declaration_id = config.declaration_id;
    timezone = str (codes "+00");
    catch_up = str (codes "latest");
    overlap = config.overlap;
    delay = null;
    start_at = null;
  })

-- `module` and `function_name` are the attributes `__module__` and `__name__`.
pub record Callable : Type 0 where
  pub identity : ℕ
  pub callable : Bool
  pub module_name : Value
  pub function_name : Value

pub record Task : Type 0 where
  pub function : ℕ
  pub task_name : Text
  pub config : TaskConfig

unfoldable pub qualified : Value → Value → Outcome Value
qualified (str m) (str f) = ok (str (m ++ codes "." ++ f))
qualified m f = err registration

unfoldable pub chosen_name : Callable → Value → Outcome Value
unfolding qualified
chosen_name function null = qualified function.module_name function.function_name
chosen_name function given = ok given

-- Under a validated name: the task that is there, or a new one.
unfoldable pub enter : Table Task → Callable → Text → TaskConfig → Outcome (Task × Table Task)
enter registry function key config = elim (find key registry) [
  | some existing ↦
      if existing.function == function.identity then ok (existing, registry) else err registration
  | none ↦
      let task : Task = record { function = function.identity; task_name = key; config = config } in
      ok (task, set key task registry)
]

-- `register_task(owner, registry, function, name=…, config=…)`: the task and the registry after it
unfoldable pub register_task :
    Table Task → Callable → Value → TaskConfig → Outcome (Task × Table Task)
unfolding enter
register_task registry function given config = do
  reject (not function.callable) registration
  chosen ← chosen_name function given
  key ← validate_task_name chosen
  enter registry function key config

-- `_split_enqueue_kwargs`: the keyword arguments that are options and no parameters of the function.
unfoldable pub is_option : List Text → Key → Bool
is_option parameters (name t) = mem t enqueue_option_names && not (mem t parameters)
is_option parameters (odd n) = false

unfoldable pub task_keywords : List Text → Fields → Fields
unfolding is_option
task_keywords parameters end = end
task_keywords parameters (field k v fs) =
    let rest = task_keywords parameters fs in
    if is_option parameters k then rest else field k v rest

unfoldable pub option_keywords : List Text → Fields → Fields
unfolding is_option
option_keywords parameters end = end
option_keywords parameters (field k v fs) =
    let rest = option_keywords parameters fs in
    if is_option parameters k then field k v rest else rest

-- `parameters` are the names of the signature, none if it has no inspectable one.
unfoldable pub split_enqueue_kwargs : List Text → Fields → Outcome (Fields × Fields)
split_enqueue_kwargs parameters kwargs =
    let keywords = remove (codes "options") kwargs in
    do
      options ←
          merge_enqueue_options (get (codes "options") kwargs) (option_keywords parameters keywords)
            null
      ok (task_keywords parameters keywords, options)

-- The options of `Task.enqueue`: those of the call go over those of the declaration.
unfoldable pub enqueue_options : TaskConfig → Fields → Fields
enqueue_options config options = update (execution_options config) options

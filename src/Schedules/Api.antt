-- ===== src/Schedules/Api.antt =====
-- `Scheduling` of clients/python/tay/schedules.py over a transport: the payloads of schedules and what
-- is remembered of them. The transport supplies one request hook, and its own state.
use tay.Prelude.{ℕ, Bool, not, ◌&&◌, List}
use tay.Prelude.Outcome.{Outcome, ok, err, validation, mode_error, protocol, ◌>>=◌, ◌>>◌, reject}
use tay.Text.{Text, codes}
use tay.Value.{Value, null, str, dict, Fields, end, field, name, get, put, is_none}
use tay.Protocol.{normalize_json}
use tay.Options.{job_arguments, merge_enqueue_options}
use tay.Responses.{extract_identifier}
use tay.Validation.{identifier}
use tay.Table.{add, discard}
use tay.Schedules.{ScheduleOptions, validate_schedule_options, validate_cron, validate_every}

-- What a transport supplies: the hook `_schedule_request`, `_schedule_task_name`, `_retain_schedule`,
-- and whether its mode is "worker".
pub record Transport (S : Type 0) : Type 0 where
  pub request : Text → Fields → S → Outcome Fields × S
  pub task_name : Value → Outcome Text
  pub retain : Text → Fields → S → S
  pub is_worker : Bool
  pub is_decimal : ℕ → Bool

pub record Scheduling (S : Type 0) : Type 0 where
  pub transport : S
  pub withdrawn : List Text

-- `if value is not None: payload[name] = value`
unfoldable pub put_given : Text → Value → Fields → Fields
put_given t null payload = payload
put_given t v payload = put t v payload

abbrev pub first_given : Value → Value → Value
first_given null args = args
first_given kwargs args = kwargs

module _ {S : Type 0} (t : Transport S) where
  abbrev pub Call : Type 0 → Type 0
  Call A = Scheduling S → Outcome A × Scheduling S

  -- `_schedule_payload`
  unfoldable pub schedule_payload :
      Value → Value → Value → ScheduleOptions → Fields → Outcome Fields
  schedule_payload task kwargs args o options = do
    reject (not (is_none kwargs) && not (is_none args)) validation
    validate_schedule_options t.is_decimal o
    task_name ← t.task_name task
    arguments ← job_arguments (first_given kwargs args)
    merged ← merge_enqueue_options (dict options) end null
    normalized ← normalize_json (dict merged)
    ok (
        put_given (codes "start_at") o.start_at (
          put_given (codes "delay") o.delay (
            put_given (codes "overlap") o.overlap (
              put_given (codes "declaration_id") o.declaration_id (
                field (name (codes "task")) (str task_name) (
                  field (name (codes "args")) arguments (
                    field (name (codes "catch_up")) o.catch_up
                      (field (name (codes "options")) normalized end))))))))

  unfoldable pub request : Text → Fields → Call Fields
  request operation payload s =
      let (r, inner) = t.request operation payload s.transport in
      (r, record s { transport = inner })

  -- The rest of `_declare_schedule`, once the reply has named the schedule.
  unfoldable pub declared : Fields → Outcome Text → Call Text
  declared payload (err e) s = (err e, s)
  declared payload (ok id) s = (
    ok id,
    record s {
      transport = t.retain id (put (codes "declaration_id") (str id) payload) s.transport;
      withdrawn = discard id s.withdrawn;
    },
  )

  abbrev identified : Outcome Fields → Outcome Text
  identified (err e) = err e
  identified (ok reply) = extract_identifier reply (codes "schedule_id") (codes "schedule")

  -- `_declare_schedule(payload)`
  unfoldable pub declare_schedule : Fields → Call Text
  unfolding request declared
  declare_schedule payload s =
      let (r, s') = request (codes "schedule") payload s in declared payload (identified r) s'

  abbrev declare_built : Outcome Fields → Call Text
  declare_built (err e) s = (err e, s)
  declare_built (ok payload) s = declare_schedule payload s

  abbrev check_mode : Outcome (Unit {0})
  check_mode = reject t.is_worker mode_error

  -- `schedule(task, cron=…, …)`
  unfoldable pub schedule : Value → Value → Value → Value → ScheduleOptions → Fields → Call Text
  unfolding declare_schedule
  schedule task cron kwargs args o options = declare_built (do
    check_mode
    validate_cron cron
    payload ← schedule_payload task kwargs args o options
    ok (put (codes "timezone") o.timezone (put (codes "cron") cron payload)))

  -- `every(task, seconds=…, minutes=…, hours=…, days=…, …)`
  unfoldable pub every : Value → Fields → Value → Value → ScheduleOptions → Fields → Call Text
  unfolding declare_schedule
  every task units kwargs args o options = declare_built (do
    check_mode
    interval ← validate_every (dict units)
    payload ← schedule_payload task kwargs args (record o { timezone = str (codes "+00") }) options
    ok (put (codes "every") (dict interval) payload))

  abbrev requested : Outcome Text → Text → Call Fields
  requested (err e) operation s = (err e, s)
  requested (ok id) operation s =
      request operation (field (name (codes "schedule_id")) (str id) end) s

  abbrev withdraw : Outcome Text → Scheduling S → Scheduling S
  withdraw (err e) s = s
  withdraw (ok id) s = record s { withdrawn = add id s.withdrawn }

  -- `_cancel_schedule(schedule_id)`: withdrawn before the request, whatever comes of it
  unfoldable pub cancel_schedule : Value → Call Fields
  unfolding request
  cancel_schedule schedule_id s =
      requested (identifier schedule_id) (codes "cancel_schedule")
        (withdraw (identifier schedule_id) s)

  abbrev the_schedule : Outcome Fields → Outcome Fields
  the_schedule (err e) = err e
  the_schedule (ok reply) = elim (get (codes "schedule") reply) [
    | dict fs ↦ ok fs
    | _ ↦ err protocol
  ]

  -- `get_schedule(schedule_id)`
  unfoldable pub get_schedule : Value → Call Fields
  unfolding request
  get_schedule schedule_id s =
      let (r, s') = requested (identifier schedule_id) (codes "schedule_status") s in
      (the_schedule r, s')

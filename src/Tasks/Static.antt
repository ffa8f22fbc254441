-- ===== src/Tasks/Static.antt =====
-- `Task.static_schedule_declaration` of clients/python/tay/task.py. The fingerprint, the first 24
-- characters of the SHA-256 of the JSON text, comes from outside.
use tay.Prelude.{ℕ, Option, none, some, ltb, ◌++◌, if◌then◌else◌}
use tay.Prelude.Outcome.{Outcome, ok, err, value_error, ◌>>=◌}
use tay.Text.{Text, codes, utf8_size}
use tay.Value.{Value, null, str, dict, Fields, end, field, name, put}
use tay.Protocol.{normalize_json}
use tay.Tasks.{TaskConfig, put_given, execution_options, has_schedule}

-- The schedule without its id.
unfoldable pub static_schedule : Text → TaskConfig → Fields
unfolding execution_options put_given
static_schedule task_name config = put_given (codes "overlap") config.overlap (
    put_given (codes "every") config.every (
      put_given (codes "cron") config.cron (
        field (name (codes "task")) (str task_name) (
          field (name (codes "args")) (dict end)
            (field (name (codes "options")) (dict (execution_options config)) end)))))

abbrev pub sized_id : Option ℕ → Text → Text → Outcome Text
sized_id none long short = err value_error
sized_id (some size) long short = ok (if ltb 128 size then short else long)

-- `python:<name>:<digest>`, or without the name where that is longer than 128 bytes
unfoldable pub derived_id : Text → Text → Outcome Text
derived_id task_name digest =
    let long = codes "python:" ++ task_name ++ codes ":" ++ digest in
    sized_id (utf8_size long) long (codes "python:" ++ digest)

abbrev pub id_of : Value → Outcome Text → Outcome Value
id_of null derived = do t ← derived; ok (str t)
id_of given derived = ok given

module _ (fingerprint : Fields → Text) where
  abbrev pub some_value : Outcome Value → Outcome (Option Value)
  some_value (err e) = err e
  some_value (ok v) = ok (some v)

  unfoldable pub static_schedule_declaration : Text → TaskConfig → Outcome (Option Value)
  unfolding static_schedule derived_id has_schedule
  static_schedule_declaration task_name config =
      let schedule = static_schedule task_name config in
      if has_schedule config
      then some_value (do
        id ← id_of config.declaration_id (derived_id task_name (fingerprint schedule))
        normalize_json (dict (put (codes "declaration_id") id schedule)))
      else ok none

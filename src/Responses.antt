-- ===== src/Responses.antt =====
-- clients/python/tay/responses.py. `show` is `str` of a value, for an error code that is no text.
pub mod Laws
use tay.Prelude.{Bool, false, ◌||◌, Option, none, some, List, [], ◌∷◌, if◌then◌else◌}
use tay.Prelude.Outcome.{
  Error, Outcome, ok, err, protocol, server, remote_task, job_cancelled, result_missing, ◌>>◌,
  reject,
}
use tay.Text.{Text, codes, same, mem, is_empty}
use tay.Value.{Value, null, str, dict, Fields, get, has, truthy}
use tay.Options.{durability_modes}

-- `a or b`
abbrev pub either : Value → Value → Value
either a b = if truthy a then a else b

-- `value == text`
unfoldable pub equals : Value → Text → Bool
equals (str t) s = same t s
equals _ s = false

-- `isinstance(code, str) and code in {…}`
unfoldable pub is_one_of : Value → List Text → Bool
is_one_of (str t) ss = mem t ss
is_one_of _ ss = false

-- `type(value) is not str or not value` raises a ProtocolError
unfoldable pub require_text : Value → Outcome Text
require_text (str t) = do reject (is_empty t) protocol; ok t
require_text _ = err protocol

unfoldable pub nested_id : Value → Value
nested_id (dict fs) = get (codes "id") fs
nested_id _ = null

unfoldable pub extract_identifier : Fields → Text → Text → Outcome Text
unfolding require_text nested_id
extract_identifier reply key nested_key =
    require_text (elim (get key reply) [ null ↦ nested_id (get nested_key reply) | v ↦ v ])

unfoldable pub as_durability : Value → Option Text
as_durability (str t) = if mem t durability_modes then some t else none
as_durability _ = none

unfoldable pub extract_job_durability : Fields → Option Text
unfolding as_durability
extract_job_durability reply = elim (get (codes "job") reply) [
  | dict job ↦ as_durability (get (codes "durability") job)
  | _ ↦ none
]

module _ (show : Value → Text) where
  unfoldable pub text_of : Value → Text
  text_of (str t) = t
  text_of v = show v

  -- `str(code) if code else None`
  unfoldable pub code_text : Value → Option Text
  unfolding text_of
  code_text code = if truthy code then some (text_of code) else none

  unfoldable pub server_error_from_fields : Fields → Error
  unfolding code_text equals is_one_of
  server_error_from_fields payload =
      let code = either (get (codes "code") payload) (get (codes "type") payload) in
      if equals code (codes "task_cancelled")
      then job_cancelled (code_text code)
      else if equals code (codes "result_missing")
      then result_missing (code_text code)
      else if truthy (get (codes "remote_task") payload)
          || is_one_of code (codes "task_failed" ∷ codes "TaskFailed" ∷ [])
      then remote_task (code_text code)
      else server (code_text code)

  unfoldable pub server_error_from_payload : Value → Error
  unfolding server_error_from_fields
  server_error_from_payload (dict payload) = server_error_from_fields payload
  server_error_from_payload _ = server none

  unfoldable pub extract_result : Fields → Outcome Value
  extract_result reply =
      if truthy (get (codes "error") reply)
      then err (server_error_from_payload (get (codes "error") reply))
      else if has (codes "result") reply
      then ok (get (codes "result") reply)
      else err protocol

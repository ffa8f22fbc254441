-- ===== src/Options.antt =====
-- clients/python/tay/job_options.py: the options of a job submission.
pub mod Seconds
pub mod Merging
use tay.Prelude.{
  ℕ, ◌*◌, Bool, true, false, not, ◌&&◌, ◌||◌, Option, none, some, List, [], ◌∷◌, leb, ltb, ◌==◌,
  all, length, if◌then◌else◌,
}
use tay.Prelude.Outcome.{Outcome, ok, err, validation, ◌>>=◌, ◌>>◌, reject}
use tay.Text.{Text, codes, same, mem, is_empty, has_nul, utf8_size}
use tay.Number.{
  ℤ, pos, negsuc, Float, nan, inf, finite, within, exact, is_finite, negative, exceeds, times,
  true_div, round_half_up,
}
use tay.Value.{
  Key, name, odd, Value, null, int, float, str, dict, Fields, end, field, get, has, put, update,
  is_none,
}
use tay.Protocol.{normalize_json}
use tay.Validation.{identifier}

abbrev pub durability_modes : List Text
durability_modes = codes "persistent" ∷ codes "volatile" ∷ []

abbrev pub enqueue_option_names : List Text
enqueue_option_names =
    codes "id"
    ∷ codes "submission_id"
    ∷ codes "delay"
    ∷ codes "delay_ms"
    ∷ codes "run_at"
    ∷ codes "retries"
    ∷ codes "timeout"
    ∷ codes "timeout_ms"
    ∷ codes "backoff"
    ∷ codes "queue"
    ∷ codes "durability"
    ∷ []

abbrev pub max_time : ℕ
max_time = 9223372036854775807

-- `bound / 1000` of two ints, in the units of a float
unfoldable pub seconds_limit : ℕ → ℕ
seconds_limit bound = elim (true_div bound 1000) [ finite s n ↦ n | _ ↦ 0 ]

-- The milliseconds of a float of seconds, and `minimum <= converted <= maximum`.
unfoldable pub converted_within : ℕ → ℕ → Float → Bool
converted_within minimum maximum (finite s n) =
    leb minimum (round_half_up n) && leb (round_half_up n) maximum
converted_within minimum maximum _ = false

unfoldable pub scaled_within : ℕ → ℕ → ℤ → Bool
scaled_within minimum maximum (pos n) = leb minimum (n * 1000) && leb (n * 1000) maximum
scaled_within minimum maximum (negsuc n) = false

-- `_milliseconds(value, maximum, minimum, name)`
unfoldable pub milliseconds : Value → ℕ → ℕ → Outcome (Unit {0})
unfolding converted_within scaled_within
milliseconds (int z) maximum minimum = do
  reject (negative (exact z)) validation
  reject (exceeds (exact z) (seconds_limit maximum)) validation
  reject (not (scaled_within minimum maximum z)) validation
milliseconds (float x) maximum minimum = do
  reject (negative x) validation
  reject (not (is_finite x)) validation
  reject (exceeds x (seconds_limit maximum)) validation
  reject (not (converted_within minimum maximum (times x 1000))) validation
milliseconds _ maximum minimum = err validation

-- `value is not None and (type(value) is not int or not lo <= value <= hi)`
unfoldable pub bad_int : ℕ → ℕ → Value → Bool
bad_int lo hi null = false
bad_int lo hi (int z) = not (within lo hi z)
bad_int lo hi _ = true

unfoldable pub validate_durability : Value → Outcome (Unit {0})
validate_durability null = ok tt
validate_durability (str t) = reject (not (mem t durability_modes)) validation
validate_durability _ = err validation

unfoldable pub bad_backoff : Value → Bool
bad_backoff null = false
bad_backoff (str t) = not (same t (codes "exponential"))
bad_backoff _ = true

unfoldable pub validate_execution_options : Fields → Outcome (Unit {0})
unfolding bad_int bad_backoff validate_durability
validate_execution_options options = do
  reject (bad_int 0 65534 (get (codes "retries") options)) validation
  reject (bad_backoff (get (codes "backoff") options)) validation
  validate_durability (get (codes "durability") options)

-- `options.keys() - ENQUEUE_OPTION_NAMES` is empty
unfoldable pub known : Fields → Bool
known end = true
known (field (odd n) v fs) = false
known (field (name t) v fs) = mem t enqueue_option_names && known fs

-- `re.fullmatch("[0-9a-f]{32}", t)`, and `int(t, 16) == 0` for such a text
unfoldable pub is_hex_id : Text → Bool
is_hex_id t = length t == 32 && all (λ c. leb b'0' c && leb c b'9' || (leb b'a' c && leb c b'f')) t

unfoldable pub bad_job_id : Value → Bool
unfolding is_hex_id
bad_job_id null = false
bad_job_id (str t) = not (is_hex_id t) || all (λ c. c == b'0') t
bad_job_id _ = true

-- The checks of an option that is there, `identifier` and `_milliseconds`, skipped at None.
unfoldable pub check_submission_id : Value → Outcome (Unit {0})
check_submission_id null = ok tt
check_submission_id v = do id ← identifier v; ok tt

unfoldable pub check_seconds : Value → ℕ → ℕ → Outcome (Unit {0})
check_seconds null maximum minimum = ok tt
check_seconds v maximum minimum = milliseconds v maximum minimum

unfoldable pub check_queue_size : Option ℕ → Outcome (Unit {0})
check_queue_size none = err validation
check_queue_size (some size) = reject (ltb 255 size) validation

unfoldable pub check_queue : Value → Outcome (Unit {0})
unfolding check_queue_size
check_queue (str t) = do reject (is_empty t || has_nul t) validation; check_queue_size (utf8_size t)
check_queue _ = err validation

abbrev pub given : Text → Fields → Bool
given t options = not (is_none (get t options))

-- The parts of `validate_submission_options`, in its order.
unfoldable pub check_ids : Fields → Outcome (Unit {0})
check_ids options = do
  reject (bad_job_id (get (codes "id") options)) validation
  check_submission_id (get (codes "submission_id") options)
  reject (given (codes "submission_id") options && given (codes "id") options) validation

unfoldable pub check_start : Fields → Outcome (Unit {0})
check_start options = do
  check_seconds (get (codes "delay") options) max_time 0
  reject (bad_int 0 max_time (get (codes "delay_ms") options)) validation
  reject (given (codes "delay") options && given (codes "delay_ms") options) validation
  reject (bad_int 0 max_time (get (codes "run_at") options)) validation
  reject
      (given (codes "run_at") options
        && (given (codes "delay") options || given (codes "delay_ms") options))
      validation

unfoldable pub check_timeout : Fields → Outcome (Unit {0})
check_timeout options = do
  check_seconds (get (codes "timeout") options) 86400000 1
  reject (bad_int 1 86400000 (get (codes "timeout_ms") options)) validation
  reject (given (codes "timeout") options && given (codes "timeout_ms") options) validation

unfoldable pub check_presence : Fields → Outcome (Unit {0})
check_presence options = do
  (if has (codes "queue") options then check_queue (get (codes "queue") options) else ok tt)
  reject (has (codes "retries") options && is_none (get (codes "retries") options)) validation

unfoldable pub validate_submission_options : Fields → Outcome (Unit {0})
validate_submission_options options = do
  reject (not (known options)) validation
  validate_execution_options options
  check_ids options
  check_start options
  check_timeout options
  check_presence options

unfoldable pub job_arguments : Value → Outcome Value
job_arguments null = normalize_json (dict end)
job_arguments (dict fs) = normalize_json (dict fs)
job_arguments _ = err validation

unfoldable pub has_key : Key → Fields → Bool
has_key (name t) fs = has t fs
has_key (odd n) fs = false

-- `merged.keys() & keywords.keys()`, for keyword arguments
unfoldable pub overlap : Fields → Fields → Bool
unfolding has_key
overlap merged end = false
overlap merged (field k v fs) = has_key k merged || overlap merged fs

unfoldable pub as_mapping : Value → Outcome Fields
as_mapping null = ok end
as_mapping (dict fs) = ok fs
as_mapping _ = err validation

-- `if durability is not None: …`
unfoldable pub with_durability : Value → Fields → Outcome Fields
with_durability null merged = ok merged
with_durability durability merged = do
  reject (has (codes "durability") merged) validation
  ok (put (codes "durability") durability merged)

unfoldable pub merge_enqueue_options : Value → Fields → Value → Outcome Fields
unfolding as_mapping with_durability
merge_enqueue_options options keywords durability = do
  base ← as_mapping options
  reject (overlap base keywords) validation
  merged ← with_durability durability (update base keywords)
  validate_submission_options merged
  ok merged

unfoldable pub enqueue_payload : Text → Value → Value → Fields → Value → Outcome Fields
enqueue_payload task_name args options keywords durability = do
  arguments ← job_arguments args
  merged ← merge_enqueue_options options keywords durability
  normalized ← normalize_json (dict merged)
  ok (
      field (name (codes "task")) (str task_name)
        (field (name (codes "args")) arguments (field (name (codes "options")) normalized end)))

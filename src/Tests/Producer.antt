-- ===== src/Tests/Producer.antt =====
-- The checks of submissions, schedules, socket paths and registrations at concrete inputs.
use tay.Prelude.{
  ℕ, suc, ◌↔◌, ◌*◌, ◌≤◌, ◌≡◌, ◌≢◌, ◌⊎◌, if◌then◌else◌, refl, true, false, none, some, [], ◌∷◌, ◌==◌,
  arith, length,
}
use tay.Prelude.Outcome.{Outcome, ok}
use tay.Text.{Text, codes, mem, same, utf8_size, has_nul}
use tay.Number.{pos}
use tay.Value.{
  Value, null, int, str, list, dict, nil, Items, Fields, end, field, name, lookup, get, has, update,
  put,
}
use tay.Value.Laws.{named}
use tay.Protocol.{validate_task_name}
use tay.Validation.{identifier}
use tay.Validation.Laws.{IsIdentifier, identifier_exact}
use tay.Options.{milliseconds, max_time, merge_enqueue_options, known, given}
use tay.Options.Merging.{
  durability_entry, From, Exclusive, merge_enqueue_options-lookup, merge_enqueue_options-Exclusive,
}
use tay.Options.Seconds.{milliseconds_int_exact}
use tay.Schedules.{check_delay}
use tay.Schedules.Limits.{schedule_delay_beyond}
use tay.Schedules.Pages.{schedules}
use tay.Schedules.Pages.Ends.{ServesFrom, schedules_total}
use tay.SocketPath.{Host, discover_socket_path, valid_path}
use tay.SocketPath.Laws.{discover_socket_path-valid}
use tay.Table.{Table, find}
use tay.Tasks.{Task, TaskConfig, Callable, register_task, chosen_name}
use tay.Tasks.Registry.{IsEntry, register_task_exact}

identifier_exact_example :
    (identifier (str (codes "job")) ≡ ok (codes "job"))
    ↔ ((str (codes "job") ≡ str (codes "job")) × IsIdentifier (codes "job"))
identifier_exact_example = identifier_exact (str (codes "job")) (codes "job")

milliseconds_int_exact_example :
    ((milliseconds (int (pos 5)) max_time 0 ≡ ok tt)
      ↔ ((n : ℕ) × (pos 5 ≡ pos n) × (0 ≤ n * 1000) × (n * 1000 ≤ max_time)))
    × ((milliseconds (int (pos 5)) 86400000 1 ≡ ok tt)
        ↔ ((n : ℕ) × (pos 5 ≡ pos n) × (1 ≤ n * 1000) × (n * 1000 ≤ 86400000)))
milliseconds_int_exact_example = milliseconds_int_exact (pos 5)

schedule_delay_beyond_example :
    ((check_delay (int (pos 9223372036854776)) ≡ ok tt)
      × (milliseconds (int (pos 9223372036854776)) max_time 0 ≢ ok tt))
    ↔ (pos 9223372036854776 ≡ pos 9223372036854776)
schedule_delay_beyond_example = schedule_delay_beyond (pos 9223372036854776)

abbrev base : Fields
base = field (name (codes "queue")) (str (codes "mail")) end

abbrev keywords : Fields
keywords = field (name (codes "retries")) (int (pos 3)) end

abbrev merged : Fields
merged = field (name (codes "queue")) (str (codes "mail")) (
    field (name (codes "retries")) (int (pos 3))
      (field (name (codes "durability")) (str (codes "volatile")) end))

merge_mail : merge_enqueue_options (dict base) keywords (str (codes "volatile")) ≡ ok merged
unfolding merge_enqueue_options tay.Options.overlap has same update
    tay.Options.validate_submission_options known mem tay.Options.validate_execution_options get
    tay.Number.within tay.Options.check_ids tay.Options.bad_job_id tay.Options.check_submission_id
    tay.Options.check_start tay.Options.check_seconds tay.Options.check_timeout
    tay.Options.check_presence tay.Options.check_queue tay.Options.check_queue_size has_nul
    utf8_size lookup put
merge_mail = refl

merge_enqueue_options-lookup_example :
    (From
      (lookup (codes "retries") merged)
      (lookup (codes "retries") base)
      (lookup (codes "retries") keywords)
      (lookup (codes "retries") (durability_entry (str (codes "volatile")))))
    ⊎ (From
        (lookup (codes "retries") merged)
        (lookup (codes "retries") keywords)
        (lookup (codes "retries") base)
        (lookup (codes "retries") (durability_entry (str (codes "volatile")))))
    ⊎ (From
        (lookup (codes "retries") merged)
        (lookup (codes "retries") (durability_entry (str (codes "volatile"))))
        (lookup (codes "retries") base)
        (lookup (codes "retries") keywords))
merge_enqueue_options-lookup_example =
    merge_enqueue_options-lookup base keywords (str (codes "volatile")) merged (codes "retries")
      (unfold named in refl) merge_mail

merge_enqueue_options-Exclusive_example : (known merged ≡ true) × Exclusive merged
merge_enqueue_options-Exclusive_example =
    merge_enqueue_options-Exclusive base keywords (str (codes "volatile")) merged (dict base)
      merge_mail

-- A server with two pages.
abbrev first_page : Fields
first_page =
    field (name (codes "schedules")) (list nil)
      (field (name (codes "next_cursor")) (str (codes "a")) end)

abbrev last_page : Fields
last_page = field (name (codes "schedules")) (list nil) end

serve : Text → Fields → ℕ → Outcome Fields × ℕ
serve operation payload n = if n == 0 then (ok first_page, 1) else (ok last_page, 2)

serve-ServesFrom : ServesFrom serve (codes "a" ∷ [])
unfolding serve get mem same
serve-ServesFrom = record { cursors = λ payload s reply t h e. ground arith }

schedules_total_example :
    (r : Outcome Items × ℕ) × (schedules serve (suc (length (codes "a" ∷ []))) 0 ≡ some r)
schedules_total_example = schedules_total serve (codes "a" ∷ []) serve-ServesFrom 0

abbrev host : Host
host = record {
  abspath = λ t. t;
  decimal = λ n. codes "0";
  usable = λ t. true;
  exists = λ t. false;
  environment = λ t. none;
  uid = pos 0;
}

discovered :
    discover_socket_path host none ≡ ok (codes "/tmp/tay-0/tay.sock", codes "fallback /tmp")
unfolding discover_socket_path tay.SocketPath.configured tay.SocketPath.automatic
    tay.SocketPath.private_path tay.SocketPath.from_variable tay.SocketPath.fallback
    tay.SocketPath.validated_path valid_path tay.SocketPath.candidate tay.SocketPath.join has_nul
    tay.SocketPath.user_directory utf8_size
discovered = refl

discover_socket_path-valid_example : valid_path (codes "/tmp/tay-0/tay.sock") ≡ true
discover_socket_path-valid_example =
    discover_socket_path-valid host (codes "/tmp/tay-0/tay.sock") (codes "fallback /tmp") none
      discovered

abbrev plain : TaskConfig
plain = record {
  retries = null;
  backoff = null;
  durability = null;
  cron = null;
  every = null;
  overlap = str (codes "skip");
  declaration_id = null;
}

abbrev send_mail : Callable
send_mail = record {
  identity = 2;
  callable = true;
  module_name = str (codes "app");
  function_name = str (codes "send_mail");
}

abbrev older : Task
older = record { function = 1; task_name = codes "older"; config = plain }

abbrev newer : Task
newer = record { function = 2; task_name = codes "app.send_mail"; config = plain }

abbrev both : Table Task
both = (codes "older", older) ∷ (codes "app.send_mail", newer) ∷ []

registered : register_task ((codes "older", older) ∷ []) send_mail null plain ≡ ok (newer, both)
unfolding register_task tay.Tasks.chosen_name tay.Protocol.validate_task_name utf8_size find same
    tay.Table.set
registered = refl

register_task_exact_example :
    (chosen : Value) × (key : Text) × (send_mail.callable ≡ true)
    × (chosen_name send_mail null ≡ ok chosen)
    × (validate_task_name chosen ≡ ok key)
    × IsEntry ((codes "older", older) ∷ []) send_mail plain newer both key
    × (newer.function ≡ send_mail.identity)
    × (find (codes "older") both ≡ (
        if same (codes "older") key
        then some newer
        else find (codes "older") ((codes "older", older) ∷ [])))
register_task_exact_example =
    register_task_exact ((codes "older", older) ∷ []) send_mail plain newer both null
      (codes "older") registered

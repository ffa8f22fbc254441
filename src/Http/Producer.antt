-- ===== src/Http/Producer.antt =====
-- The calls of `TayHTTP` (clients/python/tay/http.py): `enqueue`, the hook of the schedules, and the
-- methods of `HTTPJobHandle`.
pub mod Agreement
use tay.Prelude.{ℕ, Bool, false, if◌then◌else◌, Option, none, some, ◌++◌}
use tay.Prelude.Outcome.{Outcome, ok, err, type_error, ◌>>=◌}
use tay.Text.{Text, codes, same}
use tay.Value.{Value, str, dict, Fields, end, field, get, get_or}
use tay.Protocol.{validate_task_name}
use tay.Options.{enqueue_payload}
use tay.Responses.{extract_identifier, extract_job_durability, extract_result}
use tay.Schedules.Api.{Transport}
use tay.Http.{Listener, request}

-- `HTTPJobHandle`
pub record JobHandle : Type 0 where
  pub id : Text
  pub durability : Option Text

abbrev pub query_of : (Fields → Text) → Fields → Text
query_of urlencode end = codes ""
query_of urlencode (field k v fs) = codes "?" ++ urlencode (field k v fs)

-- `quote(payload["schedule_id"], safe="")`, which raises for what is no text
unfoldable pub quoted : (Text → Text) → Value → Outcome Text
quoted quote (str t) = ok (quote t)
quoted quote _ = err type_error

unfoldable pub handle_of : Fields → Outcome JobHandle
handle_of reply = do
  id ← extract_identifier reply (codes "job_id") (codes "job")
  ok (record { id = id; durability = extract_job_durability reply })

module _ {S : Type 0} (listener : Listener S) where
  abbrev pub handled : Outcome Fields → Outcome JobHandle
  handled (err e) = err e
  handled (ok reply) = handle_of reply

  abbrev post_job : Outcome Fields → S → Outcome JobHandle × S
  post_job (err e) s = (err e, s)
  post_job (ok payload) s =
      let (r, s') = request listener (codes "POST") (codes "/jobs") (some payload) none s in
      (handled r, s')

  -- `enqueue(task, args, options=…, durability=…, …)`
  unfoldable pub enqueue : Value → Value → Value → Fields → Value → S → Outcome JobHandle × S
  unfolding handle_of
  enqueue task args options keywords durability = post_job (do
    task_name ← validate_task_name task
    enqueue_payload task_name args options keywords durability)

  abbrev on_schedule : Text → Outcome Text → S → Outcome Fields × S
  on_schedule method (err e) s = (err e, s)
  on_schedule method (ok id) s = request listener method (codes "/schedules/" ++ id) none none s

  -- `_schedule_request(operation, payload)`
  unfoldable pub schedule_request : Text → Fields → S → Outcome Fields × S
  unfolding quoted
  schedule_request operation payload s =
      if same operation (codes "schedule")
      then request listener (codes "POST") (codes "/schedules") (some payload) none s
      else if same operation (codes "schedules")
      then request listener (codes "GET")
          (codes "/schedules" ++ query_of listener.urlencode payload) none none s
      else on_schedule
          (if same operation (codes "cancel_schedule") then codes "DELETE" else codes "GET")
          (quoted listener.quote (get (codes "schedule_id") payload)) s

  -- The transport of `Scheduling`: nothing is retained, and the client has no mode.
  unfoldable pub transport : (ℕ → Bool) → Transport S
  unfolding schedule_request
  transport is_decimal = record {
    request = schedule_request;
    task_name = validate_task_name;
    retain = λ id payload s. s;
    is_worker = false;
    is_decimal = is_decimal;
  }

  abbrev job_path : Text → Text
  job_path id = codes "/jobs/" ++ id

  abbrev with_reply : (Fields → Outcome Value) → Outcome Fields → Outcome Value
  with_reply f (err e) = err e
  with_reply f (ok reply) = f reply

  -- `HTTPJobHandle.status`, `.cancel` and `.result`
  unfoldable pub status : JobHandle → S → Outcome Value × S
  status job s =
      let (r, s') = request listener (codes "GET") (job_path job.id) none none s in
      (
        with_reply
            (λ reply. ok (get_or (codes "status") (get_or (codes "job") (dict reply) reply) reply))
            r,
        s',
      )

  unfoldable pub cancel : JobHandle → S → Outcome Value × S
  cancel job s =
      let (r, s') = request listener (codes "DELETE") (job_path job.id) none none s in
      (with_reply (λ reply. ok (get_or (codes "status") (dict reply) reply)) r, s')

  unfoldable pub result : JobHandle → S → Outcome Value × S
  result job s =
      let (r, s') =
        request listener (codes "GET") (job_path job.id ++ codes "/result") none none s in
      (with_reply (extract_result listener.show) r, s')

-- ===== src/Client/Handles.antt =====
-- `JobHandle` and the reply to `enqueue` in clients/python/tay/client.py. A method is its request, up
-- to the wait, and what it makes of the reply.
use tay.Prelude.{Option}
use tay.Prelude.Outcome.{Outcome, ok, ◌>>=◌}
use tay.Text.{Text, codes}
use tay.Value.{Value, str, dict, Fields, end, field, name, get_or}
use tay.Responses.{extract_identifier, extract_job_durability, extract_result}
use tay.Client.{World, Action}
use tay.Client.Requests.{exchange}

pub record JobHandle : Type 0 where
  pub id : Text
  pub durability : Option Text

-- The end of `enqueue`
unfoldable pub handle_of : Fields → Outcome JobHandle
handle_of reply = do
  id ← extract_identifier reply (codes "job_id") (codes "job")
  ok (record { id = id; durability = extract_job_durability reply })

abbrev pub job_fields : JobHandle → Fields
job_fields job = field (name (codes "job_id")) (str job.id) end

unfoldable pub status_reply : Fields → Value
status_reply reply = get_or (codes "status") (get_or (codes "job") (dict reply) reply) reply

unfoldable pub cancel_reply : Fields → Value
cancel_reply reply = get_or (codes "status") (dict reply) reply

module _ (world : World) where
  unfoldable pub request_status : JobHandle → Action Text
  request_status job = exchange world (codes "status") (job_fields job)

  unfoldable pub request_cancel : JobHandle → Action Text
  request_cancel job = exchange world (codes "cancel") (job_fields job)

  unfoldable pub request_result : JobHandle → Action Text
  request_result job = exchange world (codes "result") (job_fields job)

  unfoldable pub result_reply : Fields → Outcome Value
  result_reply reply = extract_result world.show reply

-- ===== src/Client/Registration.antt =====
-- `register_tasks`, `unregister_tasks` and `enqueue` of clients/python/tay/client.py, on a client that
-- has started, up to the wait for the reply: the request id, and none where nothing was sent.
use tay.Prelude.{Option, none, some, List, [], ◌∷◌}
use tay.Prelude.Outcome.{mode_error}
use tay.Text.{Text, codes}
use tay.Value.{Value, list, Fields, end, field, name}
use tay.Options.{enqueue_payload}
use tay.Table.{add, discard}
use tay.Client.{World, client, worker, Action, ◌>>=◌, ◌>>◌, pure, raise, lift, modify}
use tay.Client.Requests.{exchange}
use tay.Client.Names.{TaskArgument, task_name, distinct_names, name_items}

-- `self._registered_task_names.update(names)` and `.difference_update(names)`
unfoldable pub advertise : List Text → List Text → List Text
advertise [] registered = registered
advertise (t ∷ ts) registered = advertise ts (add t registered)

unfoldable pub withdraw_names : List Text → List Text → List Text
withdraw_names [] registered = registered
withdraw_names (t ∷ ts) registered = withdraw_names ts (discard t registered)

abbrev tasks_field : List Text → Fields
tasks_field names = field (name (codes "tasks")) (list (name_items names)) end

module _ (world : World) where
  unfoldable pub send_names :
      Text → (List Text → List Text → List Text) → List TaskArgument → Action (Option Text)
  unfolding ◌>>=◌
  send_names operation change [] c = pure none c
  send_names operation change arguments c =
      (do
        names ← lift (distinct_names c arguments)
        modify (λ d. record d { registered = change names d.registered })
        id ← exchange world operation (tasks_field names)
        pure (some id))
        c

  unfoldable pub register_tasks : List TaskArgument → Action (Option Text)
  register_tasks arguments c = elim c.mode [
    | client ↦ raise mode_error c
    | _ ↦ send_names (codes "register_tasks") advertise arguments c
  ]

  unfoldable pub unregister_tasks : List TaskArgument → Action (Option Text)
  unregister_tasks arguments c = elim c.mode [
    | client ↦ raise mode_error c
    | _ ↦ send_names (codes "unregister_tasks") withdraw_names arguments c
  ]

  unfoldable pub submit : TaskArgument → Value → Value → Fields → Value → Action Text
  unfolding ◌>>=◌
  submit argument args options keywords durability = do
    chosen ← lift (task_name argument)
    payload ← lift (enqueue_payload chosen args options keywords durability)
    exchange world (codes "enqueue") payload

  unfoldable pub enqueue : TaskArgument → Value → Value → Fields → Value → Action Text
  enqueue argument args options keywords durability c = elim c.mode [
    | worker ↦ raise mode_error c
    | _ ↦ submit argument args options keywords durability c
  ]

-- ===== src/Client/Names.antt =====
-- Tasks by name: `_task_name` and `_registered_task_name` of clients/python/tay/client.py.
use tay.Prelude.{Bool, not, List, [], ◌∷◌}
use tay.Prelude.Outcome.{Outcome, ok, validation, registration, ◌>>=◌, ◌>>◌, reject}
use tay.Text.{Text}
use tay.Value.{Value, str, Items, nil, cons}
use tay.Protocol.{validate_task_name}
use tay.Table.{find, discard}
use tay.Client.{Client}
use tay.Client.Executions.{is_running}

-- A `Task`, with whether this client created it, or any other value.
pub data TaskArgument : Type 0 where
  task : Bool → Text → TaskArgument
  named : Value → TaskArgument

unfoldable pub task_name : TaskArgument → Outcome Text
task_name (task mine name) = do reject (not mine) validation; ok name
task_name (named v) = validate_task_name v

unfoldable pub registered_task_name : Client → TaskArgument → Outcome Text
unfolding task_name
registered_task_name c argument = do
  name ← task_name argument
  reject (not (is_running (find name c.tasks))) registration
  ok name

-- `tuple(dict.fromkeys(self._registered_task_name(task) for task in tasks))`
unfoldable pub distinct_names : Client → List TaskArgument → Outcome (List Text)
unfolding registered_task_name
distinct_names c [] = ok []
distinct_names c (argument ∷ arguments) = do
  name ← registered_task_name c argument
  names ← distinct_names c arguments
  ok (name ∷ discard name names)

unfoldable pub name_items : List Text → Items
name_items [] = nil
name_items (t ∷ ts) = cons (str t) (name_items ts)

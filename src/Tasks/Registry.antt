-- ===== src/Tasks/Registry.antt =====
-- Registering a task, and its options.
use tay.Prelude.{◌≡◌, ◌⊎◌, true, none, some, arith, if◌then◌else◌, Option-cases, inl, inr}
use tay.Prelude.Outcome.{ok, Outcome-cases}
use tay.Text.{Text, same}
use tay.Text.Laws.{same_iff}
use tay.Value.{Value}
use tay.Table.{Table, find}
use tay.Table.Laws.{find-set}
use tay.Tasks.{Task, Callable, TaskConfig, enter, register_task, chosen_name}
use tay.Protocol.{validate_task_name}

module _ (registry : Table Task) (function : Callable) (config : TaskConfig) (task : Task)
    (after : Table Task) where
  -- The task is a new one under a free key, or the one of that function that is there.
  abbrev pub IsEntry : Text → Type 0
  IsEntry key =
      ((find key registry ≡ none) × (task.task_name ≡ key) × (task.config ≡ config))
      ⊎ (find key registry ≡ some task)

  enter_exact :
      (key t : Text)
      → enter registry function key config ≡ ok (task, after)
      → IsEntry key
        × (task.function ≡ function.identity)
        × (find t after ≡ (if same t key then some task else find t registry))
  unfolding enter
  enter_exact key t h = elim (Option-cases (find key registry)) [
    | inl e ↦ (
      inl (e, ground arith, ground arith),
      ground arith,
      ground (arith, find-set t key task registry),
    )
    | inr (old, e) ↦ (inr (ground arith), ground arith, ground (arith, same_iff t key))
  ]

  -- A registration that succeeds is of a callable. It gives a task of that function under the name
  -- that was chosen and validated: a new task with the given options where the name was free, and
  -- otherwise the task that is registered there. Afterwards the name stands for that task, and every
  -- other name for what it stood for before.
  pub register_task_exact :
      (given : Value) (t : Text)
      → register_task registry function given config ≡ ok (task, after)
      → (chosen : Value) × (key : Text) × (function.callable ≡ true)
        × (chosen_name function given ≡ ok chosen)
        × (validate_task_name chosen ≡ ok key)
        × IsEntry key
        × (task.function ≡ function.identity)
        × (find t after ≡ (if same t key then some task else find t registry))
  unfolding register_task
  register_task_exact given t h = elim (Outcome-cases (chosen_name function given)) [
    | inr (e, p) ↦ absurd (ground arith)
    | inl (v, p) ↦ elim (Outcome-cases (validate_task_name v)) [
      | inr (e, q) ↦ absurd (ground arith)
      | inl (key, q) ↦
          let (a, b, c) = enter_exact key t (ground arith) in (v, key, ground arith, p, q, a, b, c)
    ]
  ]

-- ===== src/Client/Bootstrap.antt =====
-- `_bootstrap` of clients/python/tay/client.py: what a new connection sends before it is ready.
pub mod Sorting
pub mod Order
use tay.Prelude.{
  ℕ, ◌≡◌, refl, Bool, true, false, not, ◌&&◌, Option, none, some, List, [], ◌∷◌, ◌++◌,
  if◌then◌else◌,
}
use tay.Text.{Text, codes, mem, text_le}
use tay.Number.{pos}
use tay.Value.{int, str, list, Items, nil, cons, Fields, end, field, name}
use tay.Table.{Table, set, keys}
use tay.Client.{Client, Mode, client, embedded, worker, TaskInfo}
use tay.Client.Names.{name_items}

abbrev pub mode_text : Mode → Text
mode_text client = codes "client"
mode_text embedded = codes "embedded"
mode_text worker = codes "worker"

abbrev pub is_client : Mode → Bool
is_client client = true
is_client _ = false

-- `sorted(…)` of texts, and of a dict by its keys
unfoldable pub insert_text : Text → List Text → List Text
insert_text t [] = t ∷ []
insert_text t (s ∷ ss) = if text_le t s then t ∷ s ∷ ss else s ∷ insert_text t ss

unfoldable pub sort_texts : List Text → List Text
unfolding insert_text
sort_texts [] = []
sort_texts (t ∷ ts) = insert_text t (sort_texts ts)

unfoldable pub insert_entry : Text → Fields → Table Fields → Table Fields
insert_entry t fs [] = (t, fs) ∷ []
insert_entry t fs ((s, gs) ∷ d) =
    if text_le t s then (t, fs) ∷ (s, gs) ∷ d else (s, gs) ∷ insert_entry t fs d

unfoldable pub sort_entries : Table Fields → Table Fields
unfolding insert_entry
sort_entries [] = []
sort_entries ((t, fs) ∷ d) = insert_entry t fs (sort_entries d)

abbrev pub declare : List Text → Option (Text × Fields) → Table Fields → Table Fields
declare withdrawn none declarations = declarations
declare withdrawn (some (id, fs)) declarations =
    if mem id withdrawn then declarations else set id fs declarations

-- The static declarations of the tasks, over the retained ones, but for the withdrawn ones. `static` is
-- the declaration of a task, with its id.
unfoldable pub with_static :
    (Text → Option (Text × Fields)) → List Text → List Text → Table Fields → Table Fields
with_static static withdrawn [] declarations = declarations
with_static static withdrawn (t ∷ ts) declarations =
    with_static static withdrawn ts (declare withdrawn (static t) declarations)

unfoldable pub schedule_messages : Table Fields → List (Text × Fields)
schedule_messages [] = []
schedule_messages ((id, fs) ∷ d) = (codes "schedule", fs) ∷ schedule_messages d

abbrev pub no_names : List Text → Bool
no_names [] = true
no_names (t ∷ ts) = false

unfoldable pub hello : Client → Text → Text × Fields
hello c runtime_id = (
  codes "hello",
  field (name (codes "mode")) (str (mode_text c.mode)) (
      field (name (codes "runtime_id")) (str runtime_id) (
        field (name (codes "max_concurrency"))
          (int (pos (if is_client c.mode then 0 else c.capacity))) end)),
)

unfoldable pub registration_messages : Client → List (Text × Fields)
unfolding sort_texts
registration_messages c =
    if not (is_client c.mode) && not (no_names c.registered)
    then (
      codes "register_tasks",
      field (name (codes "tasks")) (list (name_items (sort_texts c.registered))) end,
    )
      ∷ []
    else []

-- The requests, in the order in which each waits for the reply to the one before.
unfoldable pub bootstrap_messages :
    (Text → Option (Text × Fields)) → Client → Text → List (Text × Fields)
unfolding hello with_static sort_entries schedule_messages registration_messages
bootstrap_messages static c runtime_id =
    hello c runtime_id
    ∷ (schedule_messages
          (sort_entries (with_static static c.withdrawn (keys c.tasks) c.declarations))
        ++ registration_messages c)

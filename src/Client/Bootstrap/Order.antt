-- ===== src/Client/Bootstrap/Order.antt =====
-- What a new connection declares, and in which order.
use tay.Prelude.{
  ◌≡◌, refl, ap, ◌∙◌, true, not, ◌&&◌, Option, none, some, List, [], ◌∷◌, ◌++◌, map, arith, length,
  if◌then◌else◌, if_intro,
}
use tay.Text.{Text, codes, mem, same}
use tay.Text.Laws.{same_iff}
use tay.Value.{list, Fields, end, field, name}
use tay.Table.{Table, find, keys}
use tay.Table.Laws.{find-set, keys-set, nodup, nodup-add}
use tay.Client.{Client}
use tay.Client.Names.{name_items}
use tay.Client.Bootstrap.{
  is_client, sort_texts, sort_entries, declare, with_static, schedule_messages, no_names, hello,
  registration_messages, bootstrap_messages,
}
use tay.Client.Bootstrap.Sorting.{
  ascending, ascending-sort_texts, keys-sort_entries, find-sort_entries, mem-sort_texts,
  nodup-sort_texts, length-sort_texts,
}

nodup-with_static :
    (static : Text → Option (Text × Fields)) (withdrawn ts : List Text) (d : Table Fields)
    → nodup (keys d) ≡ true
    → nodup (keys (with_static static withdrawn ts d)) ≡ true
unfolding with_static
nodup-with_static static withdrawn [] d n = n
nodup-with_static static withdrawn (t ∷ ts) d n =
    nodup-with_static static withdrawn ts (declare withdrawn (static t) d) (one (static t))
  where
    one : (o : Option (Text × Fields)) → nodup (keys (declare withdrawn o d)) ≡ true
    one none = n
    one (some (id, fs)) =
        if_intro (λ (x : Table Fields). nodup (keys x) ≡ true) (mem id withdrawn) _ _ n
          (rw keys-set (nodup-add id (keys d) n))

-- What one task declares under the id.
abbrev pub declares : Text → Option (Text × Fields) → Option Fields
declares s none = none
declares s (some (id, fs)) = if same s id then some fs else none

abbrev pub first_some : Option Fields → Option Fields → Option Fields
first_some (some fs) o = some fs
first_some none o = o

-- The declaration of the last of the tasks that declares the id.
unfoldable pub last_declared : (Text → Option (Text × Fields)) → Text → List Text → Option Fields
last_declared static s [] = none
last_declared static s (t ∷ ts) = first_some (last_declared static s ts) (declares s (static t))

-- What a connection declares under the id: what was retained for it, if it was withdrawn, and
-- otherwise what a task declares, before what was retained.
abbrev pub declaration_of : (Text → Option (Text × Fields)) → Client → Text → Option Fields
declaration_of static c s =
    if mem s c.withdrawn
    then find s c.declarations
    else first_some (last_declared static s (keys c.tasks)) (find s c.declarations)

find-declare :
    (s : Text) (withdrawn : List Text) (o : Option (Text × Fields)) (d : Table Fields)
    → find s (declare withdrawn o d)
      ≡ (if mem s withdrawn then find s d else first_some (declares s o) (find s d))
find-declare s withdrawn none d = ground arith
find-declare s withdrawn (some (id, fs)) d = ground (arith, find-set s id fs d, same_iff s id)

find-with_static :
    (s : Text) (static : Text → Option (Text × Fields)) (withdrawn ts : List Text)
    (d : Table Fields)
    → find s (with_static static withdrawn ts d)
      ≡ (if mem s withdrawn then find s d else first_some (last_declared static s ts) (find s d))
unfolding with_static last_declared
find-with_static s static withdrawn [] d = ground arith
find-with_static s static withdrawn (t ∷ ts) d = ground (
  arith,
  find-with_static s static withdrawn ts (declare withdrawn (static t) d),
  find-declare s withdrawn (static t) d,
)

-- One message for each declaration.
abbrev pub as_messages : Table Fields → List (Text × Fields)
as_messages d = map (λ (e : Text × Fields). (codes "schedule", e.1)) d

-- One message with the tasks, where the client executes and has any.
abbrev pub tasks_message : Client → List Text → List (Text × Fields)
tasks_message c [] = []
tasks_message c (t ∷ ts) =
    if is_client c.mode
    then []
    else (codes "register_tasks", field (name (codes "tasks")) (list (name_items (t ∷ ts))) end)
      ∷ []

schedule_messages_lem : (d : Table Fields) → schedule_messages d ≡ as_messages d
unfolding schedule_messages
schedule_messages_lem [] = refl
schedule_messages_lem ((id, fs) ∷ d) =
    ap (λ l. (codes "schedule", fs) ∷ l) (schedule_messages_lem d)

registration_messages_lem :
    (c : Client) → registration_messages c ≡ tasks_message c (sort_texts c.registered)
unfolding registration_messages
registration_messages_lem c =
    at c.registered (sort_texts c.registered) (length-sort_texts c.registered)
  where
    at :
        (ts order : List Text)
        → length order ≡ length ts
        → (if not (is_client c.mode) && not (no_names ts)
            then (
              codes "register_tasks",
              field (name (codes "tasks")) (list (name_items order)) end,
            )
              ∷ []
            else [])
          ≡ tasks_message c order
    at [] [] h = ground arith
    at [] (s ∷ order) h = absurd (omega arith)
    at (t ∷ ts) [] h = absurd (omega arith)
    at (t ∷ ts) (s ∷ order) h = ground arith

-- A new connection sends its greeting, then a message for each schedule in the ascending order of
-- their ids, no id twice, and then, where the client executes tasks and has any, one message with
-- the registered tasks in ascending order, each as often as it is registered. Under an id stands
-- what the last task that declares it declares, or what was retained for it; of a schedule that was
-- withdrawn only what was retained again. The retained declarations have distinct ids.
pub bootstrap_order :
    (static : Text → Option (Text × Fields)) (c : Client) (runtime_id s : Text)
    → nodup (keys c.declarations) ≡ true
    → let declared = sort_entries (with_static static c.withdrawn (keys c.tasks) c.declarations) in
      let order = sort_texts c.registered in
      (bootstrap_messages static c runtime_id
        ≡ hello c runtime_id ∷ (as_messages declared ++ tasks_message c order))
      × (ascending (keys declared) ≡ true)
      × (nodup (keys declared) ≡ true)
      × (find s declared ≡ declaration_of static c s)
      × (ascending order ≡ true)
      × (mem s order ≡ mem s c.registered)
      × (length order ≡ length c.registered)
unfolding bootstrap_messages
bootstrap_order static c runtime_id s n =
    let entries = with_static static c.withdrawn (keys c.tasks) c.declarations in
    (
      rw (schedule_messages_lem (sort_entries entries), registration_messages_lem c) refl,
      rw keys-sort_entries (ascending-sort_texts (keys entries)),
      rw keys-sort_entries (
          nodup-sort_texts (keys entries)
            (nodup-with_static static c.withdrawn (keys c.tasks) c.declarations n)),
      find-sort_entries s entries
          ∙ find-with_static s static c.withdrawn (keys c.tasks) c.declarations,
      ascending-sort_texts c.registered,
      mem-sort_texts s c.registered,
      length-sort_texts c.registered,
    )

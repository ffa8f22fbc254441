-- ===== src/Command.antt =====
-- clients/python/tay/__main__.py: the worker that a command names, and how the command ends. `argparse`
-- and the import of modules come from outside.
pub mod Selection
use tay.Prelude.{
  ℕ, Bool, true, false, not, ◌&&◌, ◌||◌, Option, none, some, List, [], ◌∷◌, ◌==◌, if◌then◌else◌,
}
use tay.Prelude.Outcome.{Outcome, ok, err, runtime_error, type_error, ◌>>=◌}
use tay.Text.{Text, codes, mem}
use tay.Value.{Value, bool, Fields, get}
use tay.Client.{Mode, worker}

-- An object of a module: a worker, by identity, or anything else.
pub data Member : Type 0 where
  instance_of : ℕ → Member
  unrelated : Member

-- What `importlib` gives for a module: the values of its names, and the value of one name.
pub record Module : Type 0 where
  pub values : List Member
  pub attribute : Text → Outcome Member

-- `specification.partition(":")`: the part before, and the part after where there is a colon
unfoldable pub partition : Text → Text × Option Text
partition [] = ([], none)
partition (c ∷ t) =
    let (before, after) = partition t in if c == b':' then ([], some t) else (c ∷ before, after)

unfoldable pub without : ℕ → List ℕ → List ℕ
without i [] = []
without i (j ∷ js) = let rest = without i js in if i == j then rest else j ∷ rest

-- `{id(value): value for value in … if isinstance(…)}`: each object once
unfoldable pub candidates : List Member → List ℕ
unfolding without
candidates [] = []
candidates (unrelated ∷ ms) = candidates ms
candidates (instance_of i ∷ ms) = i ∷ without i (candidates ms)

unfoldable pub only : List ℕ → Outcome ℕ
only (i ∷ []) = ok i
only _ = err runtime_error

unfoldable pub as_instance : Member → Outcome ℕ
as_instance (instance_of i) = ok i
as_instance unrelated = err type_error

abbrev pub selected : Option Text → Module → Outcome ℕ
selected (some attribute) m = do v ← m.attribute attribute; as_instance v
selected none m = only (candidates m.values)

-- `_instance(specification)`
unfoldable pub instance_named : (Text → Outcome Module) → Text → Outcome ℕ
unfolding partition candidates only as_instance
instance_named import_module specification =
    let (module_name, attribute) = partition specification in
    import_module module_name >>= λ m. selected attribute m

-- `values.insert(0, "worker")`
abbrev pub commands : List Text
commands = codes "worker" ∷ codes "doctor" ∷ codes "-h" ∷ codes "--help" ∷ []

unfoldable pub with_command : List Text → List Text
with_command [] = []
with_command (v ∷ vs) = if mem v commands then v ∷ vs else codes "worker" ∷ v ∷ vs

-- `0 if report["ok"] else 1`, for a report whose "ok" is a bool
unfoldable pub exit_code : Value → ℕ
exit_code (bool true) = 0
exit_code _ = 1

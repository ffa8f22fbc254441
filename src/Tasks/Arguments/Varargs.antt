-- ===== src/Tasks/Arguments/Varargs.antt =====
-- A call with extra positional arguments, where an ordinary parameter stands before `*args`.
use tay.Prelude.{◌≡◌, refl, false, none, some, List, [], ◌∷◌}
use tay.Prelude.Outcome.{ok}
use tay.Text.{same}
use tay.Text.Laws.{same_refl}
use tay.Value.{Value, list, dict, Items, cons, Fields, end, field, name, lookup, has, put}
use tay.Protocol.{normalize_json}
use tay.Protocol.Safe.{normalize_json-ok}
use tay.Schedules.Pages.{extend}
use tay.Tasks.Arguments.{
  Parameter, positional_or_keyword, var_positional, bind, arguments_from_call, call_from_arguments,
}

module _ (p q : Parameter) (ordinary : p.kind ≡ positional_or_keyword)
    (starred : q.kind ≡ var_positional) (apart : same q.label p.label ≡ false) where
  abbrev parameters : List Parameter
  parameters = p ∷ q ∷ []

  -- The arguments of a call with `a`, `b` and more.
  abbrev starred_arguments : Value → Value → Items → Fields
  starred_arguments a b rest =
      field (name p.label) a (field (name q.label) (list (cons b rest)) end)

  bind-starred :
      (a b : Value) (rest : Items)
      → bind parameters (cons a (cons b rest)) end ≡ some (starred_arguments a b rest)
  unfolding bind has
  bind-starred a b rest = rw (ordinary, starred) refl

  call-starred :
      (a b : Value) (rest : Items)
      → call_from_arguments (some parameters) (dict (starred_arguments a b rest))
        ≡ ok (cons b rest, field (name p.label) a end)
  unfolding call_from_arguments lookup put extend
  call-starred a b rest = rw (ordinary, starred, same_refl p.label, same_refl q.label, apart) refl

  rebind-starred :
      (a b : Value) (rest : Items)
      → bind parameters (cons b rest) (field (name p.label) a end) ≡ none
  unfolding bind has
  rebind-starred a b rest = rw (ordinary, same_refl) refl

  -- For a task whose signature is an ordinary parameter followed by `*args`, a call with more than one
  -- positional argument is accepted for submission where its values are JSON values, and the worker
  -- then calls the function with arguments that do not fit its signature.
  pub varargs_lost :
      (a b : Value) (rest : Items) (v : Value)
      → arguments_from_call (some parameters) (cons a (cons b rest)) end ≡ ok v
      → (positional : Items) × (keyword : Fields) × (call_from_arguments (some parameters) v
          ≡ ok (positional, keyword))
        × (bind parameters positional keyword ≡ none)
  unfolding arguments_from_call
  varargs_lost a b rest v h =
      let n : normalize_json (dict (starred_arguments a b rest)) ≡ ok v = rw bind-starred at h in
      let e : v ≡ dict (starred_arguments a b rest) = normalize_json-ok _ v n in
      (
        cons b rest,
        field (name p.label) a end,
        rw e (call-starred a b rest),
        rebind-starred a b rest,
      )

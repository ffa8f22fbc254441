-- ===== src/Tasks/Arguments.antt =====
-- The arguments of a job: `_arguments_from_call` and `_call_from_arguments` of
-- clients/python/tay/task.py, over the parameters of a signature.
pub mod Replay
pub mod Calls
pub mod Varargs
use tay.Prelude.{Bool, true, false, Option, none, some, List, [], ◌∷◌, if◌then◌else◌}
use tay.Prelude.Outcome.{Outcome, ok, err, validation, ◌>>=◌}
use tay.Text.{Text}
use tay.Value.{
  Value, list, dict, Items, nil, cons, Fields, end, field, name, lookup, has, put, remove, update,
}
use tay.Protocol.{normalize_json}
use tay.Schedules.Pages.{extend}

pub data Kind : Type 0 where
  positional_only positional_or_keyword var_positional keyword_only var_keyword : Kind

pub record Parameter : Type 0 where
  pub label : Text
  pub kind : Kind
  pub default : Option Value

abbrev pub entry : Text → Value → Option Fields → Option Fields
entry t v none = none
entry t v (some fs) = some (field (name t) v fs)

abbrev pub or_default : Option Value → Option Value → Option Value
or_default none d = d
or_default (some v) d = some v

abbrev pub entry_of : Text → Option Value → Option Fields → Option Fields
entry_of t none rest = none
entry_of t (some v) rest = entry t v rest

-- One parameter of `bind`, over the binding of the parameters behind it.
abbrev pub bind_as :
    Kind → Parameter → (Items → Fields → Option Fields) → Items → Fields → Option Fields
bind_as positional_only p rest (cons v vs) kwargs = entry p.label v (rest vs kwargs)
bind_as positional_only p rest nil kwargs = entry_of p.label p.default (rest nil kwargs)
bind_as positional_or_keyword p rest (cons v vs) kwargs =
    if has p.label kwargs then none else entry p.label v (rest vs kwargs)
bind_as positional_or_keyword p rest nil kwargs =
    entry_of p.label (or_default (lookup p.label kwargs) p.default)
      (rest nil (remove p.label kwargs))
bind_as var_positional p rest args kwargs = entry p.label (list args) (rest nil kwargs)
bind_as keyword_only p rest args kwargs =
    entry_of p.label (or_default (lookup p.label kwargs) p.default)
      (rest args (remove p.label kwargs))
bind_as var_keyword p rest args kwargs = entry p.label (dict kwargs) (rest args end)

-- `signature.bind(*args, **kwargs)`, then `apply_defaults()`: the arguments in the order of the
-- parameters, where none is a TypeError. The tuple of `*args` is a list here.
unfoldable pub bind : List Parameter → Items → Fields → Option Fields
bind [] nil end = some end
bind [] args kwargs = none
bind (p ∷ ps) args kwargs = bind_as p.kind p (bind ps) args kwargs

abbrev pub no_items : Items → Bool
no_items nil = true
no_items (cons v vs) = false

abbrev pub bound : Option Fields → Outcome Value
bound none = err validation
bound (some arguments) = normalize_json (dict arguments)

-- `_arguments_from_call(args, kwargs)`; the signature is none where it cannot be inspected.
unfoldable pub arguments_from_call : Option (List Parameter) → Items → Fields → Outcome Value
unfolding bind
arguments_from_call none args kwargs =
    if no_items args then normalize_json (dict kwargs) else err validation
arguments_from_call (some parameters) args kwargs = bound (bind parameters args kwargs)

-- One round of the loop over the parameters, for a parameter that has an argument.
abbrev pub place : Kind → Text → Value → Items → Fields → Outcome (Items × Fields)
place positional_only t v positional keyword = ok (extend positional (cons v nil), keyword)
place var_positional t (list vs) positional keyword = ok (extend positional vs, keyword)
place var_positional t _ positional keyword = err validation
place var_keyword t (dict fs) positional keyword = ok (positional, update keyword fs)
place var_keyword t _ positional keyword = err validation
place _ t v positional keyword = ok (positional, put t v keyword)

abbrev pub place_given : Kind → Text → Option Value → Items → Fields → Outcome (Items × Fields)
place_given k t none positional keyword = ok (positional, keyword)
place_given k t (some v) positional keyword = place k t v positional keyword

-- The positional and keyword arguments that the function is called with.
unfoldable pub call_of : List Parameter → Fields → Items → Fields → Outcome (Items × Fields)
call_of [] arguments positional keyword = ok (positional, keyword)
call_of (p ∷ ps) arguments positional keyword = do
  (vs, ks) ← place_given p.kind p.label (lookup p.label arguments) positional keyword
  call_of ps arguments vs ks

-- `_call_from_arguments(arguments)`
unfoldable pub call_from_arguments : Option (List Parameter) → Value → Outcome (Items × Fields)
unfolding call_of
call_from_arguments none (dict fs) = ok (nil, fs)
call_from_arguments (some ps) (dict fs) = call_of ps fs nil end
call_from_arguments s _ = err validation

-- ===== src/Value.antt =====
-- Python values: what a caller can pass, and what a JSON document holds.
-- `dict` stands for every Mapping. Its entries have distinct keys in their insertion order, except
-- in a parsed document that has not yet passed `_no_duplicate_keys`. Instances of subclasses of
-- `str`, `int` and `float` are not modelled; `other` is any object of another type.
pub mod Laws
use tay.Prelude.{
  ℕ, ◌≡◌, Bool, true, false, not, Option, none, some, List, [], ◌∷◌, ◌==◌, if◌then◌else◌, suc, ◌&&◌,
}
use tay.Text.{Text, same, mem, is_empty}
use tay.Number.{ℤ, pos, Float, finite}

pub data Key : Type 0 where
  name : Text → Key
  odd : ℕ → Key

mutual
  pub data Value : Type 0 where
    null : Value
    bool : Bool → Value
    int : ℤ → Value
    float : Float → Value
    str : Text → Value
    list : Items → Value
    dict : Fields → Value
    other : ℕ → Value

  pub data Items : Type 0 where
    nil : Items
    cons : Value → Items → Items

  pub data Fields : Type 0 where
    end : Fields
    field : Key → Value → Fields → Fields

-- `len(value)`
unfoldable pub count_items : Items → ℕ
count_items nil = 0
count_items (cons v vs) = suc (count_items vs)

unfoldable pub count_fields : Fields → ℕ
count_fields end = 0
count_fields (field k v fs) = suc (count_fields fs)

unfoldable pub is_key : Text → Key → Bool
is_key t (name s) = same t s
is_key t (odd n) = false

-- `d.get(key)`, with `none` for a missing key and not for a stored None
unfoldable pub lookup : Text → Fields → Option Value
unfolding is_key
lookup t end = none
lookup t (field k v fs) = if is_key t k then some v else lookup t fs

unfoldable pub has : Text → Fields → Bool
unfolding is_key
has t end = false
has t (field k v fs) = if is_key t k then true else has t fs

-- `d.get(key)`: None stands for a missing key too
unfoldable pub get : Text → Fields → Value
unfolding lookup
get t fs = elim (lookup t fs) [ none ↦ null | some v ↦ v ]

-- `d.get(key, default)`
unfoldable pub get_or : Text → Value → Fields → Value
unfolding lookup
get_or t d fs = elim (lookup t fs) [ none ↦ d | some v ↦ v ]

-- `d[key] = value`
unfoldable pub put : Text → Value → Fields → Fields
unfolding is_key
put t v end = field (name t) v end
put t v (field k w fs) = if is_key t k then field k v fs else field k w (put t v fs)

-- `d.pop(key, None)`
unfoldable pub remove : Text → Fields → Fields
unfolding is_key
remove t end = end
remove t (field k v fs) = if is_key t k then fs else field k v (remove t fs)

-- `d.update(e)`, and `{**d, **e}`
unfoldable pub update : Fields → Fields → Fields
unfolding put
update d end = d
update d (field (name t) v fs) = update (put t v d) fs
update d (field (odd n) v fs) = field (odd n) v (update d fs)

-- Truth of a value, as `if value` and `or` test it.
unfoldable pub truthy : Value → Bool
truthy null = false
truthy (bool b) = b
truthy (int (pos n)) = not (n == 0)
truthy (float (finite s n)) = not (n == 0)
truthy (str t) = not (is_empty t)
truthy (list nil) = false
truthy (dict end) = false
truthy _ = true

-- `value is None`
abbrev pub is_none : Value → Bool
is_none null = true
is_none _ = false

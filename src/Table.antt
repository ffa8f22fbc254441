-- ===== src/Table.antt =====
-- Python's dicts and sets with text keys, inside the client: insertion order, distinct keys.
pub mod Laws
use tay.Prelude.{ℕ, Bool, true, false, ◌||◌, Option, none, some, List, [], ◌∷◌, map, if◌then◌else◌}
use tay.Text.{Text, same}

abbrev pub Table {ℓ} : Type ℓ → Type ℓ
Table V = List (Text × V)

module _ {ℓ} {V : Type ℓ} where
  -- `d.get(key)`
  unfoldable pub find : Text → Table V → Option V
  find t [] = none
  find t ((s, v) ∷ d) = if same t s then some v else find t d

  -- `d[key] = value`
  unfoldable pub set : Text → V → Table V → Table V
  set t v [] = (t, v) ∷ []
  set t v ((s, w) ∷ d) = if same t s then (s, v) ∷ d else (s, w) ∷ set t v d

  -- `d.pop(key, None)`
  unfoldable pub drop : Text → Table V → Table V
  drop t [] = []
  drop t ((s, w) ∷ d) = if same t s then d else (s, w) ∷ drop t d

  unfoldable pub keys : Table V → List Text
  keys [] = []
  keys ((s, w) ∷ d) = s ∷ keys d

-- `s.add(t)`
unfoldable pub add : Text → List Text → List Text
add t [] = t ∷ []
add t (s ∷ ss) = if same t s then s ∷ ss else s ∷ add t ss

-- `s.discard(t)`
unfoldable pub discard : Text → List Text → List Text
discard t [] = []
discard t (s ∷ ss) = if same t s then ss else s ∷ discard t ss

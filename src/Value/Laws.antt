-- ===== src/Value/Laws.antt =====
-- The laws of a dict's operations.
use tay.Prelude.{◌≡◌, refl, Bool, true, false, not, ◌&&◌, Option, none, some, arith, if◌then◌else◌}
use tay.Text.{Text, same}
use tay.Text.Laws.{same_iff}
use tay.Value.{name, odd, Value, Fields, end, field, lookup, has, put, update}

abbrev pub or_else : Option Value → Option Value → Option Value
or_else none o = o
or_else (some v) o = some v

abbrev pub is_some : Option Value → Bool
is_some none = false
is_some (some v) = true

pub has-lookup : (t : Text) (fs : Fields) → has t fs ≡ is_some (lookup t fs)
unfolding has lookup
has-lookup t end = refl
has-lookup t (field k v fs) = ground (arith, has-lookup t fs)

pub lookup-put :
    (t s : Text) (v : Value) (fs : Fields)
    → lookup t (put s v fs) ≡ (if same t s then some v else lookup t fs)
unfolding lookup put
lookup-put t s v end = ground arith
lookup-put t s v (field (odd n) w fs) = ground (arith, lookup-put t s v fs)
lookup-put t s v (field (name r) w fs) =
    ground (arith, lookup-put t s v fs, same_iff s r, same_iff t r, same_iff t s)

-- The keys of keyword arguments and of JSON objects: texts, and none twice.
unfoldable pub named : Fields → Bool
unfolding has
named end = true
named (field (odd n) v fs) = false
named (field (name t) v fs) = not (has t fs) && named fs

pub lookup-update :
    (t : Text) (d fs : Fields)
    → named fs ≡ true
    → lookup t (update d fs) ≡ or_else (lookup t fs) (lookup t d)
unfolding update lookup named
lookup-update t d end h = refl
lookup-update t d (field (odd n) v fs) h = cc
lookup-update t d (field (name s) v fs) h = ground (
  arith,
  lookup-update t (put s v d) fs,
  lookup-put t s v d,
  same_iff t s,
  has-lookup s fs,
  has-lookup t fs,
)

-- ===== src/Protocol/Codec/Duplicates.antt =====
-- The hook against duplicate keys, over every document.
use tay.Prelude.{◌≡◌, refl, sym, ap, Bool, true, false, ◌&&◌, not, arith, if◌then◌else◌}
use tay.Prelude.Outcome.{ok, err, protocol}
use tay.Text.{Text, same}
use tay.Text.Laws.{same_sym}
use tay.Value.{
  Key, name, odd, Value, null, bool, int, float, str, list, dict, other, Items, nil, cons, Fields,
  end, field, has, put,
}
use tay.Protocol.Codec.{no_duplicate_keys, hooked, hooked_items, hooked_fields}

unfoldable pub append : Fields → Fields → Fields
append end gs = gs
append (field k v fs) gs = field k v (append fs gs)

unfoldable pub has_key : Key → Fields → Bool
has_key (name t) fs = has t fs
has_key (odd n) fs = true

-- Every key is a text, and none is there twice.
unfoldable pub unique : Fields → Bool
unfolding has_key has
unique end = true
unique (field k v fs) = not (has_key k fs) && unique fs

-- No key of the second is one of the first, and all of them are texts.
disjoint : Fields → Fields → Bool
unfolding has_key
disjoint acc end = true
disjoint acc (field k v fs) = not (has_key k acc) && disjoint acc fs

put-append :
    (t : Text) (v : Value) (fs : Fields)
    → has t fs ≡ false
    → put t v fs ≡ append fs (field (name t) v end)
unfolding put append has
put-append t v end h = refl
put-append t v (field k w fs) h = ground (arith, put-append t v fs)

has-append :
    (t s : Text) (v : Value) (fs : Fields)
    → has t (append fs (field (name s) v end)) ≡ (if has t fs then true else same t s)
unfolding append has
has-append t s v end = ground arith
has-append t s v (field j w fs) = ground (arith, has-append t s v fs)

append-field :
    (fs gs : Fields) (k : Key) (v : Value)
    → append (append fs (field k v end)) gs ≡ append fs (field k v gs)
unfolding append
append-field end gs k v = refl
append-field (field j w fs) gs k v = ap (field j w) (append-field fs gs k v)

append-end : (fs : Fields) → append fs end ≡ fs
unfolding append
append-end end = refl
append-end (field k v fs) = ap (field k v) (append-end fs)

disjoint-append :
    (acc fs : Fields) (t : Text) (v : Value)
    → disjoint (append acc (field (name t) v end)) fs ≡ (disjoint acc fs && not (has t fs))
unfolding disjoint has
disjoint-append acc end t v = refl
disjoint-append acc (field (odd n) w fs) t v = refl
disjoint-append acc (field (name s) w fs) t v =
    ground (arith, disjoint-append acc fs t v, has-append s t v acc, same_sym s t)

no_duplicate_keys_from :
    (acc fs : Fields)
    → no_duplicate_keys acc fs
      ≡ (if unique fs && disjoint acc fs then ok (append acc fs) else err protocol)
unfolding no_duplicate_keys unique disjoint append
no_duplicate_keys_from end end = refl
no_duplicate_keys_from (field k v acc) end = ap (λ r. ok (field k v r)) (sym (append-end acc))
no_duplicate_keys_from acc (field (odd n) v fs) = refl
no_duplicate_keys_from acc (field (name t) v fs) = ground (
  arith,
  no_duplicate_keys_from (put t v acc) fs,
  put-append t v acc,
  disjoint-append acc fs t v,
  append-field acc fs (name t) v,
)

disjoint-end : (fs : Fields) → unique fs ≡ true → disjoint end fs ≡ true
unfolding disjoint unique has
disjoint-end end h = refl
disjoint-end (field (odd n) v fs) h = cc
disjoint-end (field (name t) v fs) h = ground (arith, disjoint-end fs)

-- Every dict of the value, at any depth, has text keys and none twice; and there is no constant.
unfoldable mutual
  pub distinct : Value → Bool
  distinct null = true
  distinct (bool b) = true
  distinct (int z) = true
  distinct (float x) = true
  distinct (str t) = true
  distinct (list vs) = distinct_items vs
  distinct (dict fs) = distinct_fields fs && unique fs
  distinct (other n) = false

  pub distinct_items : Items → Bool
  distinct_items nil = true
  distinct_items (cons v vs) = distinct v && distinct_items vs

  pub distinct_fields : Fields → Bool
  distinct_fields end = true
  distinct_fields (field k v fs) = distinct v && distinct_fields fs

from_end : (fs : Fields) → no_duplicate_keys end fs ≡ (if unique fs then ok fs else err protocol)
unfolding append
from_end fs = ground (arith, no_duplicate_keys_from end fs, disjoint-end fs)

mutual
  unfolding hooked distinct

  hooked_at : (v : Value) → hooked v ≡ (if distinct v then ok v else err protocol)
  hooked_at null = refl
  hooked_at (bool b) = refl
  hooked_at (int z) = refl
  hooked_at (float x) = refl
  hooked_at (str t) = refl
  hooked_at (list vs) = ground (arith, hooked_items_at vs)
  hooked_at (dict fs) = ground (arith, hooked_fields_at fs, from_end fs)
  hooked_at (other n) = refl

  hooked_items_at :
      (vs : Items) → hooked_items vs ≡ (if distinct_items vs then ok vs else err protocol)
  hooked_items_at nil = refl
  hooked_items_at (cons v vs) = ground (arith, hooked_at v, hooked_items_at vs)

  hooked_fields_at :
      (fs : Fields) → hooked_fields fs ≡ (if distinct_fields fs then ok fs else err protocol)
  hooked_fields_at end = refl
  hooked_fields_at (field k v fs) = ground (arith, hooked_at v, hooked_fields_at fs)

-- The hooks give a parsed document back unchanged exactly when no dict in it, at any depth,
-- repeats a key and no NaN or Infinity constant stands in it; every other document is refused with
-- a ProtocolError.
pub hooked_exact : (v : Value) → hooked v ≡ (if distinct v then ok v else err protocol)
hooked_exact v = hooked_at v

-- ===== src/Protocol/Codec/Sorted.antt =====
-- Sorting the keys of a value changes no entry of it.
use tay.Prelude.{suc, ◌≡◌, refl, ◌&&◌, Option, none, some, arith}
use tay.Text.{Text}
use tay.Text.Laws.{same_iff, same_sym, same_of_not_le}
use tay.Value.{
  Key, name, odd, Value, null, bool, int, float, str, list, dict, other, Items, nil, cons, Fields,
  end, field, has, count_fields, count_items, lookup,
}
use tay.Protocol.Safe.{
  depth, depth_items, depth_fields, widest, widest_items, widest_fields, is_json, json_items,
  json_fields,
}
use tay.Protocol.Codec.{sorted, sorted_items, sorted_fields, insert_sorted}
use tay.Protocol.Codec.Duplicates.{distinct, distinct_items, distinct_fields, unique}

module _ (k : Key) (v : Value) where
  insert-depth : (fs : Fields) → depth_fields (insert_sorted k v fs) ≡ depth_fields (field k v fs)
  unfolding insert_sorted depth
  insert-depth end = refl
  insert-depth (field j w fs) = ground (arith, insert-depth fs)

  insert-widest :
      (fs : Fields) → widest_fields (insert_sorted k v fs) ≡ widest_fields (field k v fs)
  unfolding insert_sorted widest
  insert-widest end = refl
  insert-widest (field j w fs) = ground (arith, insert-widest fs)

  insert-count : (fs : Fields) → count_fields (insert_sorted k v fs) ≡ suc (count_fields fs)
  unfolding insert_sorted count_fields
  insert-count end = refl
  insert-count (field j w fs) = ground (arith, insert-count fs)

  insert-distinct :
      (fs : Fields) → distinct_fields (insert_sorted k v fs) ≡ (distinct v && distinct_fields fs)
  unfolding insert_sorted distinct
  insert-distinct end = refl
  insert-distinct (field j w fs) = ground (arith, insert-distinct fs)

insert-json :
    (k : Key) (v : Value) (fs : Fields)
    → json_fields (insert_sorted k v fs) ≡ json_fields (field k v fs)
unfolding insert_sorted is_json
insert-json k v end = refl
insert-json (odd m) v (field (odd n) w fs) = ground (arith, insert-json (odd m) v fs)
insert-json (odd m) v (field (name t) w fs) = ground (arith, insert-json (odd m) v fs)
insert-json (name s) v (field (odd n) w fs) = ground (arith, insert-json (name s) v fs)
insert-json (name s) v (field (name t) w fs) = ground (arith, insert-json (name s) v fs)

insert-has :
    (t : Text) (k : Key) (v : Value) (fs : Fields)
    → has t (insert_sorted k v fs) ≡ has t (field k v fs)
unfolding insert_sorted has
insert-has t k v end = refl
insert-has t k v (field j w fs) = ground (arith, insert-has t k v fs)

insert-unique :
    (k : Key) (v : Value) (fs : Fields) → unique (insert_sorted k v fs) ≡ unique (field k v fs)
unfolding insert_sorted unique
insert-unique k v end = refl
insert-unique (odd m) v (field (odd n) w fs) = ground (arith, insert-unique (odd m) v fs)
insert-unique (odd m) v (field (name t) w fs) = ground (arith, insert-unique (odd m) v fs)
insert-unique (name s) v (field (odd n) w fs) = ground (arith, insert-unique (name s) v fs)
insert-unique (name s) v (field (name t) w fs) =
    ground (arith, insert-unique (name s) v fs, insert-has t (name s) v fs, same_sym s t)

mutual
  unfolding sorted depth widest is_json

  pub depth-sorted : (v : Value) → depth (sorted v) ≡ depth v
  depth-sorted null = refl
  depth-sorted (bool b) = refl
  depth-sorted (int z) = refl
  depth-sorted (float x) = refl
  depth-sorted (str t) = refl
  depth-sorted (list vs) = depth_items-sorted vs
  depth-sorted (dict fs) = depth_fields-sorted fs
  depth-sorted (other n) = refl

  depth_items-sorted : (vs : Items) → depth_items (sorted_items vs) ≡ depth_items vs
  depth_items-sorted nil = refl
  depth_items-sorted (cons v vs) = omega (arith, depth-sorted v, depth_items-sorted vs)

  depth_fields-sorted : (fs : Fields) → depth_fields (sorted_fields fs) ≡ depth_fields fs
  depth_fields-sorted end = refl
  depth_fields-sorted (field k v fs) =
      omega (
        arith,
        insert-depth k (sorted v) (sorted_fields fs),
        depth-sorted v,
        depth_fields-sorted fs,
      )

has-sorted : (t : Text) (fs : Fields) → has t (sorted_fields fs) ≡ has t fs
unfolding sorted has
has-sorted t end = refl
has-sorted t (field k v fs) =
    ground (arith, insert-has t k (sorted v) (sorted_fields fs), has-sorted t fs)

unique-sorted : (fs : Fields) → unique (sorted_fields fs) ≡ unique fs
unfolding sorted unique
unique-sorted end = refl
unique-sorted (field (odd n) v fs) = insert-unique (odd n) (sorted v) (sorted_fields fs)
unique-sorted (field (name t) v fs) =
    ground (
      arith,
      insert-unique (name t) (sorted v) (sorted_fields fs),
      has-sorted t fs,
      unique-sorted fs,
    )

count-sorted : (fs : Fields) → count_fields (sorted_fields fs) ≡ count_fields fs
unfolding sorted count_fields
count-sorted end = refl
count-sorted (field k v fs) =
    omega (arith, insert-count k (sorted v) (sorted_fields fs), count-sorted fs)

count_items-sorted : (vs : Items) → count_items (sorted_items vs) ≡ count_items vs
unfolding sorted count_items
count_items-sorted nil = refl
count_items-sorted (cons v vs) = omega (arith, count_items-sorted vs)

mutual
  unfolding sorted widest

  pub widest-sorted : (v : Value) → widest (sorted v) ≡ widest v
  widest-sorted null = refl
  widest-sorted (bool b) = refl
  widest-sorted (int z) = refl
  widest-sorted (float x) = refl
  widest-sorted (str t) = refl
  widest-sorted (list vs) = omega (arith, count_items-sorted vs, widest_items-sorted vs)
  widest-sorted (dict fs) = omega (arith, count-sorted fs, widest_fields-sorted fs)
  widest-sorted (other n) = refl

  widest_items-sorted : (vs : Items) → widest_items (sorted_items vs) ≡ widest_items vs
  widest_items-sorted nil = refl
  widest_items-sorted (cons v vs) = omega (arith, widest-sorted v, widest_items-sorted vs)

  widest_fields-sorted : (fs : Fields) → widest_fields (sorted_fields fs) ≡ widest_fields fs
  widest_fields-sorted end = refl
  widest_fields-sorted (field k v fs) = omega (
    arith,
    insert-widest k (sorted v) (sorted_fields fs),
    widest-sorted v,
    widest_fields-sorted fs,
  )

mutual
  unfolding sorted is_json

  pub json-sorted : (v : Value) → is_json (sorted v) ≡ is_json v
  json-sorted null = refl
  json-sorted (bool b) = refl
  json-sorted (int z) = refl
  json-sorted (float x) = refl
  json-sorted (str t) = refl
  json-sorted (list vs) = json_items-sorted vs
  json-sorted (dict fs) = json_fields-sorted fs
  json-sorted (other n) = refl

  json_items-sorted : (vs : Items) → json_items (sorted_items vs) ≡ json_items vs
  json_items-sorted nil = refl
  json_items-sorted (cons v vs) = ground (arith, json-sorted v, json_items-sorted vs)

  json_fields-sorted : (fs : Fields) → json_fields (sorted_fields fs) ≡ json_fields fs
  json_fields-sorted end = refl
  json_fields-sorted (field (odd n) v fs) = insert-json (odd n) (sorted v) (sorted_fields fs)
  json_fields-sorted (field (name t) v fs) = ground (
    arith,
    insert-json (name t) (sorted v) (sorted_fields fs),
    json-sorted v,
    json_fields-sorted fs,
  )

mutual
  unfolding sorted distinct

  pub distinct-sorted : (v : Value) → distinct (sorted v) ≡ distinct v
  distinct-sorted null = refl
  distinct-sorted (bool b) = refl
  distinct-sorted (int z) = refl
  distinct-sorted (float x) = refl
  distinct-sorted (str t) = refl
  distinct-sorted (list vs) = distinct_items-sorted vs
  distinct-sorted (dict fs) = ground (arith, distinct_fields-sorted fs, unique-sorted fs)
  distinct-sorted (other n) = refl

  distinct_items-sorted : (vs : Items) → distinct_items (sorted_items vs) ≡ distinct_items vs
  distinct_items-sorted nil = refl
  distinct_items-sorted (cons v vs) = ground (arith, distinct-sorted v, distinct_items-sorted vs)

  distinct_fields-sorted : (fs : Fields) → distinct_fields (sorted_fields fs) ≡ distinct_fields fs
  distinct_fields-sorted end = refl
  distinct_fields-sorted (field k v fs) = ground (
    arith,
    insert-distinct k (sorted v) (sorted_fields fs),
    distinct-sorted v,
    distinct_fields-sorted fs,
  )

abbrev pub sorted? : Option Value → Option Value
sorted? none = none
sorted? (some v) = some (sorted v)

insert-lookup :
    (t : Text) (k : Key) (v : Value) (fs : Fields)
    → lookup t (insert_sorted k v fs) ≡ lookup t (field k v fs)
unfolding insert_sorted lookup
insert-lookup t k v end = refl
insert-lookup t (odd m) v (field (odd n) w fs) = ground (arith, insert-lookup t (odd m) v fs)
insert-lookup t (odd m) v (field (name s) w fs) = ground (arith, insert-lookup t (odd m) v fs)
insert-lookup t (name r) v (field (odd n) w fs) = ground (arith, insert-lookup t (name r) v fs)
insert-lookup t (name r) v (field (name s) w fs) =
    ground (arith, insert-lookup t (name r) v fs, same_of_not_le r s, same_iff t r, same_iff t s)

-- Looking a key up commutes with sorting.
pub lookup-sorted : (t : Text) (fs : Fields) → lookup t (sorted_fields fs) ≡ sorted? (lookup t fs)
unfolding sorted lookup
lookup-sorted t end = refl
lookup-sorted t (field k v fs) =
    ground (arith, insert-lookup t k (sorted v) (sorted_fields fs), lookup-sorted t fs)

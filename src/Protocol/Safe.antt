-- ===== src/Protocol/Safe.antt =====
-- `normalize_json` against an independent description of the values that it lets through.
use tay.Prelude.{ℕ, suc, ◌+◌, ◌≤◌, ◌≡◌, max, Bool, true, false, ◌&&◌, arith, leb, if◌then◌else◌}
use tay.Prelude.Outcome.{ok, err, validation}
use tay.Number.{is_finite}
use tay.Value.{
  name, odd, Value, null, bool, int, float, str, list, dict, other, Items, nil, cons, Fields, end,
  field, count_items, count_fields,
}
use tay.Protocol.{normalize, normalize_items, normalize_fields, normalize_json}

-- How deep the deepest value lies below this one.
unfoldable mutual
  pub depth : Value → ℕ
  depth (list vs) = depth_items vs
  depth (dict fs) = depth_fields fs
  depth null = 0
  depth (bool b) = 0
  depth (int z) = 0
  depth (float x) = 0
  depth (str t) = 0
  depth (other n) = 0

  pub depth_items : Items → ℕ
  depth_items nil = 0
  depth_items (cons v vs) = max (suc (depth v)) (depth_items vs)

  pub depth_fields : Fields → ℕ
  depth_fields end = 0
  depth_fields (field k v fs) = max (suc (depth v)) (depth_fields fs)

-- The size of the largest list or dict in a value.
unfoldable mutual
  pub widest : Value → ℕ
  widest (list vs) = max (count_items vs) (widest_items vs)
  widest (dict fs) = max (count_fields fs) (widest_fields fs)
  widest null = 0
  widest (bool b) = 0
  widest (int z) = 0
  widest (float x) = 0
  widest (str t) = 0
  widest (other n) = 0

  pub widest_items : Items → ℕ
  widest_items nil = 0
  widest_items (cons v vs) = max (widest v) (widest_items vs)

  pub widest_fields : Fields → ℕ
  widest_fields end = 0
  widest_fields (field k v fs) = max (widest v) (widest_fields fs)

-- Nothing but null, booleans, ints, finite floats, texts, lists and dicts with text keys.
unfoldable mutual
  pub is_json : Value → Bool
  is_json null = true
  is_json (bool b) = true
  is_json (int z) = true
  is_json (float x) = is_finite x
  is_json (str t) = true
  is_json (list vs) = json_items vs
  is_json (dict fs) = json_fields fs
  is_json (other n) = false

  pub json_items : Items → Bool
  json_items nil = true
  json_items (cons v vs) = is_json v && json_items vs

  pub json_fields : Fields → Bool
  json_fields end = true
  json_fields (field (odd n) v fs) = false
  json_fields (field (name k) v fs) = is_json v && json_fields fs

module _ (md mi : ℕ) where
  abbrev safe : ℕ → ℕ → Bool → Bool
  safe d w j = leb d md && (leb w mi && j)

  mutual
    unfolding normalize depth widest is_json

    normalize_at :
        (d : ℕ) (v : Value)
        → normalize md mi d v
          ≡ (if safe (d + depth v) (widest v) (is_json v) then ok v else err validation)
    normalize_at d null = ground arith
    normalize_at d (bool b) = ground arith
    normalize_at d (int z) = ground arith
    normalize_at d (float x) = ground arith
    normalize_at d (str t) = ground arith
    normalize_at d (list vs) = ground (arith, normalize_items_at d vs)
    normalize_at d (dict fs) = ground (arith, normalize_fields_at d fs)
    normalize_at d (other n) = ground arith

    normalize_items_at :
        (d : ℕ) (vs : Items)
        → d ≤ md
        → normalize_items md mi (suc d) vs ≡ (
            if safe (d + depth_items vs) (widest_items vs) (json_items vs)
            then ok vs
            else err validation)
    normalize_items_at d nil h = ground arith
    normalize_items_at d (cons v vs) h =
        ground (arith, normalize_at (suc d) v, normalize_items_at d vs h)

    normalize_fields_at :
        (d : ℕ) (fs : Fields)
        → d ≤ md
        → normalize_fields md mi (suc d) fs ≡ (
            if safe (d + depth_fields fs) (widest_fields fs) (json_fields fs)
            then ok fs
            else err validation)
    normalize_fields_at d end h = ground arith
    normalize_fields_at d (field (odd n) v fs) h = ground arith
    normalize_fields_at d (field (name k) v fs) h =
        ground (arith, normalize_at (suc d) v, normalize_fields_at d fs h)

-- `normalize_json` returns the value itself, unchanged, exactly when it nests at most 32 deep,
-- holds no list or dict of more than 10000 entries, and consists of null, booleans, ints, finite
-- floats, texts, lists and dicts with text keys; it raises a ValidationError for every other value.
pub normalize_json_exact :
    (v : Value)
    → normalize_json v
      ≡ (if leb (depth v) 32 && (leb (widest v) 10000 && is_json v) then ok v else err validation)
unfolding normalize_json
normalize_json_exact v = ground (arith, normalize_at 32 10000 0 v)

pub normalize_json-ok : (v w : Value) → normalize_json v ≡ ok w → w ≡ v
normalize_json-ok v w h = ground (arith, normalize_json_exact v)

pub normalize_json-is_json : (v w : Value) → normalize_json v ≡ ok w → is_json v ≡ true
normalize_json-is_json v w h = ground (arith, normalize_json_exact v)

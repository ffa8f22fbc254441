-- ===== src/Protocol/Codec.antt =====
-- The json module as the client calls it, and the hook against duplicate keys
-- (clients/python/tay/protocol.py). `json.dumps` and `json.loads` are an interface.
pub mod Sorted
pub mod Duplicates
use tay.Prelude.{ℕ, ◌≡◌, Bool, true, false, Option, none, some, if◌then◌else◌}
use tay.Prelude.Outcome.{Outcome, ok, err, validation, protocol, ◌>>=◌}
use tay.Text.{Bytes, text_le}
use tay.Value.{
  Key, name, odd, Value, null, bool, int, float, str, list, dict, other, Items, nil, cons, Fields,
  end, field, has, put,
}
use tay.Protocol.Safe.{is_json}
use tay.Protocol.{normalize_json}
use tay.Prelude.{length}

-- The order of keys under `sort_keys=True`.
unfoldable pub key_le : Key → Key → Bool
unfolding text_le
key_le (name s) (name t) = text_le s t
key_le (odd m) k = true
key_le (name s) (odd n) = false

unfoldable pub insert_sorted : Key → Value → Fields → Fields
unfolding key_le
insert_sorted k v end = field k v end
insert_sorted k v (field j w fs) =
    if key_le k j then field k v (field j w fs) else field j w (insert_sorted k v fs)

-- The value with the entries of each dict in the order of their keys.
unfoldable mutual
  unfolding insert_sorted

  pub sorted : Value → Value
  sorted null = null
  sorted (bool b) = bool b
  sorted (int z) = int z
  sorted (float x) = float x
  sorted (str t) = str t
  sorted (list vs) = list (sorted_items vs)
  sorted (dict fs) = dict (sorted_fields fs)
  sorted (other n) = other n

  pub sorted_items : Items → Items
  sorted_items nil = nil
  sorted_items (cons v vs) = cons (sorted v) (sorted_items vs)

  pub sorted_fields : Fields → Fields
  sorted_fields end = end
  sorted_fields (field k v fs) = insert_sorted k (sorted v) (sorted_fields fs)

-- `json.dumps(value, ensure_ascii=False, allow_nan=False, separators=(",", ":"), sort_keys=True)`
-- encoded in UTF-8, where `none` is a TypeError or ValueError; and `json.loads` of decoded bytes,
-- where `none` is a UnicodeDecodeError or JSONDecodeError. A parsed dict lists its pairs in the
-- order of the document, repeated keys included, and a constant (NaN, Infinity) is an `other`.
pub record Json : Type 0 where
  pub dumps : Value → Option Bytes
  pub loads : Bytes → Option Value

-- Reading back what was written: the same JSON value with the keys in order.
pub record ReadsBack (json : Json) : Type 0 where
  pub loads-dumps :
      (v : Value) (b : Bytes)
      → is_json v ≡ true
      → json.dumps v ≡ some b
      → json.loads b ≡ some (sorted v)

-- `_no_duplicate_keys(pairs)`, with the dict built so far
unfoldable pub no_duplicate_keys : Fields → Fields → Outcome Fields
no_duplicate_keys result end = ok result
no_duplicate_keys result (field (odd n) v fs) = err protocol
no_duplicate_keys result (field (name k) v fs) =
    if has k result then err protocol else no_duplicate_keys (put k v result) fs

-- `object_pairs_hook` and `parse_constant` over a parsed document, inner objects first.
unfoldable mutual
  unfolding no_duplicate_keys

  pub hooked : Value → Outcome Value
  hooked null = ok null
  hooked (bool b) = ok (bool b)
  hooked (int z) = ok (int z)
  hooked (float x) = ok (float x)
  hooked (str t) = ok (str t)
  hooked (list vs) = do ws ← hooked_items vs; ok (list ws)
  hooked (dict fs) = do gs ← hooked_fields fs; hs ← no_duplicate_keys end gs; ok (dict hs)
  hooked (other n) = err protocol

  pub hooked_items : Items → Outcome Items
  hooked_items nil = ok nil
  hooked_items (cons v vs) = do w ← hooked v; ws ← hooked_items vs; ok (cons w ws)

  pub hooked_fields : Fields → Outcome Fields
  hooked_fields end = ok end
  hooked_fields (field k v fs) = do w ← hooked v; gs ← hooked_fields fs; ok (field k w gs)

module _ (json : Json) where
  unfoldable pub json_bytes : Value → Outcome Bytes
  json_bytes v = elim (json.dumps v) [ none ↦ err validation | some b ↦ ok b ]

  unfoldable pub encoded_json_size : Value → Outcome ℕ
  unfolding json_bytes
  encoded_json_size v = do w ← normalize_json v; b ← json_bytes w; ok (length b)

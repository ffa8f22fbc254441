-- ===== src/Protocol.antt =====
-- clients/python/tay/protocol.py: the vocabulary of JSON values and the names of tasks.
-- The envelope, the codec and the frames are in the children.
pub mod Safe
pub mod Codec
pub mod Envelope
pub mod Frame
use tay.Prelude.{
  ℕ, suc, Bool, true, false, not, ◌||◌, Option, none, some, List, [], ◌∷◌, ltb, ◌==◌, any,
  if◌then◌else◌,
}
use tay.Prelude.Outcome.{Outcome, ok, err, validation, value_error, ◌>>=◌, ◌>>◌, reject}
use tay.Text.{Text, is_empty, utf8_size}
use tay.Number.{is_finite}
use tay.Value.{
  Key, name, Value, null, bool, int, float, str, list, dict, other, Items, nil, cons, Fields, end,
  field, count_items, count_fields, odd,
}

abbrev pub default_max_json_depth : ℕ
default_max_json_depth = 32

abbrev pub default_max_collection_items : ℕ
default_max_collection_items = 10000

abbrev pub default_max_frame_bytes : ℕ
default_max_frame_bytes = 1048576

abbrev pub default_max_task_name_bytes : ℕ
default_max_task_name_bytes = 255

-- `normalize_json(value, max_depth=…, max_collection_items=…, _depth=…)`. The copy of a dict is
-- built in the order of its entries, whose keys are distinct.
unfoldable mutual
  pub normalize : ℕ → ℕ → ℕ → Value → Outcome Value
  normalize max_depth max_items depth null = do reject (ltb max_depth depth) validation; ok null
  normalize max_depth max_items depth (bool b) = do
    reject (ltb max_depth depth) validation
    ok (bool b)
  normalize max_depth max_items depth (int z) = do
    reject (ltb max_depth depth) validation
    ok (int z)
  normalize max_depth max_items depth (str t) = do
    reject (ltb max_depth depth) validation
    ok (str t)
  normalize max_depth max_items depth (float x) = do
    reject (ltb max_depth depth) validation
    reject (not (is_finite x)) validation
    ok (float x)
  normalize max_depth max_items depth (list vs) = do
    reject (ltb max_depth depth) validation
    reject (ltb max_items (count_items vs)) validation
    ws ← normalize_items max_depth max_items (suc depth) vs
    ok (list ws)
  normalize max_depth max_items depth (dict fs) = do
    reject (ltb max_depth depth) validation
    reject (ltb max_items (count_fields fs)) validation
    gs ← normalize_fields max_depth max_items (suc depth) fs
    ok (dict gs)
  normalize max_depth max_items depth (other n) = err validation

  pub normalize_items : ℕ → ℕ → ℕ → Items → Outcome Items
  normalize_items max_depth max_items depth nil = ok nil
  normalize_items max_depth max_items depth (cons v vs) = do
    w ← normalize max_depth max_items depth v
    ws ← normalize_items max_depth max_items depth vs
    ok (cons w ws)

  pub normalize_fields : ℕ → ℕ → ℕ → Fields → Outcome Fields
  normalize_fields max_depth max_items depth end = ok end
  normalize_fields max_depth max_items depth (field (odd n) v fs) = err validation
  normalize_fields max_depth max_items depth (field (name k) v fs) = do
    w ← normalize max_depth max_items depth v
    gs ← normalize_fields max_depth max_items depth fs
    ok (field (name k) w gs)

-- `normalize_json(value)`
unfoldable pub normalize_json : Value → Outcome Value
unfolding normalize
normalize_json v = normalize default_max_json_depth default_max_collection_items 0 v

-- The checks of a name's text; a lone surrogate raises a UnicodeEncodeError, a ValueError.
unfoldable pub check_name : Text → Option ℕ → Outcome Text
check_name t none = err value_error
check_name t (some size) = do
  reject (ltb default_max_task_name_bytes size) validation
  reject (any (λ c. ltb c 0x20) t) validation
  ok t

unfoldable pub validate_task_name : Value → Outcome Text
unfolding check_name
validate_task_name (str t) = do reject (is_empty t) validation; check_name t (utf8_size t)
validate_task_name _ = err validation

-- ===== src/Schedules.antt =====
-- clients/python/tay/schedules.py: what a schedule's options may be.
-- `is_decimal` is the test of `\d`, which holds for the decimal digits of every script.
pub mod Limits
pub mod Api
pub mod Pages
use tay.Prelude.{
  ℕ, ◌*◌, ◌/◌, Bool, true, false, not, ◌&&◌, ◌||◌, Option, none, some, List, [], ◌∷◌, leb, ltb,
  ◌==◌, all, any, if◌then◌else◌,
}
use tay.Prelude.Outcome.{Outcome, ok, err, validation, ◌>>=◌, ◌>>◌, reject}
use tay.Text.{Text, codes, same, mem, is_empty, utf8_size}
use tay.Number.{
  ℤ, pos, negsuc, Float, nan, inf, finite, within, exact, unit, is_finite, negative, not_positive,
  exceeds, between, times,
}
use tay.Value.{Key, name, odd, Value, null, int, float, str, dict, Fields, end, field, is_none}
use tay.Options.{max_time, seconds_limit, bad_int}
use tay.Validation.{identifier}

abbrev pub overlap_policies : List Text
overlap_policies = codes "allow" ∷ codes "skip" ∷ codes "queue" ∷ []

abbrev pub catch_up_policies : List Text
catch_up_policies = codes "latest" ∷ codes "all" ∷ []

-- `c.isspace()`
unfoldable pub is_space : ℕ → Bool
is_space c =
    leb 9 c && leb c 13
    || (leb 28 c && leb c 32)
    || (c == 133)
    || (c == 160)
    || (c == 5760)
    || (leb 8192 c && leb c 8202)
    || (c == 8232)
    || (c == 8233)
    || (c == 8239)
    || (c == 8287)
    || (c == 12288)

unfoldable pub check_cron_size : Option ℕ → Outcome (Unit {0})
check_cron_size none = err validation
check_cron_size (some size) = reject (ltb 128 size) validation

unfoldable pub validate_cron : Value → Outcome (Unit {0})
unfolding is_space check_cron_size
validate_cron (str t) = do reject (all is_space t) validation; check_cron_size (utf8_size t)
validate_cron _ = err validation

-- Milliseconds in a unit of time.
unfoldable pub unit_of : Text → Option ℕ
unit_of t =
    if same t (codes "seconds")
    then some 1000
    else if same t (codes "minutes")
    then some 60000
    else if same t (codes "hours")
    then some 3600000
    else if same t (codes "days")
    then some 86400000
    else none

abbrev is_unit : Key → Bool
is_unit (name t) = elim (unit_of t) [ none ↦ false | some n ↦ true ]
is_unit (odd n) = false

-- `set(value) - units.keys()` is empty
unfoldable pub known_units : Fields → Bool
unfolding unit_of
known_units end = true
known_units (field k v fs) = is_unit k && known_units fs

-- The entries that are not None.
unfoldable pub present : Fields → Fields
present end = end
present (field k v fs) = let rest = present fs in if is_none v then rest else field k v rest

abbrev pub milliseconds_in : Text → ℕ
milliseconds_in t = elim (unit_of t) [ none ↦ 0 | some n ↦ n ]

-- `0.5 <= scaled <= _MAX_TIME`
unfoldable pub in_range : Float → Bool
unfolding unit
in_range x = between (unit / 2) (max_time * unit) x

abbrev pub scaled_int : ℤ → ℕ → Float
scaled_int (pos n) k = exact (pos (n * k))
scaled_int (negsuc n) k = nan

unfoldable pub check_amount : ℕ → Value → Outcome (Unit {0})
unfolding in_range
check_amount k (int z) = do
  reject (not_positive (exact z)) validation
  reject (not (in_range (scaled_int z k))) validation
check_amount k (float x) = do
  reject (not_positive x) validation
  reject (not (is_finite x)) validation
  reject (not (in_range (times x k))) validation
check_amount k _ = err validation

unfoldable pub single : Fields → Outcome Fields
unfolding check_amount unit_of
single (field (name t) amount end) = do
  check_amount (milliseconds_in t) amount
  ok (field (name t) amount end)
single _ = err validation

unfoldable pub validate_every : Value → Outcome Fields
unfolding known_units present single
validate_every (dict value) = do reject (not (known_units value)) validation; single (present value)
validate_every _ = err validation

module _ (is_decimal : ℕ → Bool) where
  -- `[01]\d|2[0-3]`
  unfoldable pub is_hour : ℕ → ℕ → Bool
  is_hour a b =
      ((a == b'0' || a == b'1') && is_decimal b) || (a == b'2' && (leb b'0' b && leb b b'3'))

  -- `[0-5]\d`
  unfoldable pub is_minute : ℕ → ℕ → Bool
  is_minute a b = leb b'0' a && leb a b'5' && is_decimal b

  unfoldable pub is_offset : Text → Bool
  unfolding is_hour is_minute
  is_offset (s ∷ a ∷ b ∷ []) = (s == b'+' || s == b'-') && is_hour a b
  is_offset (s ∷ a ∷ b ∷ c ∷ d ∷ e ∷ []) =
      (s == b'+' || s == b'-') && (is_hour a b && (c == b':' && is_minute d e))
  is_offset _ = false

  unfoldable pub is_timezone : Value → Bool
  unfolding is_offset
  is_timezone (str t) = same t (codes "UTC") || same t (codes "Z") || is_offset t
  is_timezone _ = false

abbrev pub is_policy : List Text → Value → Bool
is_policy policies (str t) = mem t policies
is_policy policies _ = false

-- `delay is not None` and the checks of a delay in seconds.
unfoldable pub check_delay : Value → Outcome (Unit {0})
check_delay null = ok tt
check_delay (int z) = do
  reject (negative (exact z)) validation
  reject (exceeds (exact z) (seconds_limit max_time)) validation
check_delay (float x) = do
  reject (negative x) validation
  reject (not (is_finite x)) validation
  reject (exceeds x (seconds_limit max_time)) validation
check_delay _ = err validation

unfoldable pub check_declaration_id : Value → Outcome (Unit {0})
check_declaration_id null = ok tt
check_declaration_id v = do id ← identifier v; ok tt

-- The keyword arguments of `validate_schedule_options`.
pub record ScheduleOptions : Type 0 where
  pub declaration_id : Value
  pub timezone : Value
  pub catch_up : Value
  pub overlap : Value
  pub delay : Value
  pub start_at : Value

unfoldable pub validate_schedule_options : (ℕ → Bool) → ScheduleOptions → Outcome (Unit {0})
validate_schedule_options is_decimal o = do
  check_declaration_id o.declaration_id
  reject (not (is_timezone is_decimal o.timezone)) validation
  reject (not (is_policy catch_up_policies o.catch_up)) validation
  reject (not (is_none o.overlap) && not (is_policy overlap_policies o.overlap)) validation
  check_delay o.delay
  reject (bad_int 0 max_time o.start_at) validation
  reject (not (is_none o.delay) && not (is_none o.start_at)) validation

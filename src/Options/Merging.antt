-- ===== src/Options/Merging.antt =====
-- What merging the sources of options keeps, and what the merged options never combine.
use tay.Prelude.{◌≡◌, refl, true, false, ◌&&◌, ◌⊎◌, Option, none, some, arith, inl, inr}
use tay.Prelude.Outcome.{ok}
use tay.Text.{Text, codes}
use tay.Text.Laws.{same_iff}
use tay.Value.{name, odd, Value, null, dict, Fields, end, field, lookup, update}
use tay.Value.Laws.{or_else, is_some, has-lookup, lookup-put, named, lookup-update}
use tay.Options.{
  overlap, with_durability, merge_enqueue_options, validate_submission_options, given, known,
  check_ids, check_start, check_timeout,
}

-- The entry that the `durability` argument adds.
abbrev pub durability_entry : Value → Fields
durability_entry null = end
durability_entry d = field (name (codes "durability")) d end

no_overlap :
    (t : Text) (base fs : Fields)
    → overlap base fs ≡ false
    → is_some (lookup t fs) ≡ true
    → lookup t base ≡ none
unfolding overlap lookup
no_overlap t base end h k = cc
no_overlap t base (field (odd n) v fs) h k = ground (arith, no_overlap t base fs)
no_overlap t base (field (name s) v fs) h k =
    ground (arith, no_overlap t base fs, same_iff t s, has-lookup t base, has-lookup s base)

lookup-with_durability :
    (t : Text) (d : Value) (merged out : Fields)
    → with_durability d merged ≡ ok out
    → lookup t out ≡ or_else (lookup t merged) (lookup t (durability_entry d))
unfolding with_durability lookup
lookup-with_durability t null merged out h = ground arith
lookup-with_durability t d merged out h = ground (
  arith,
  has-lookup (codes "durability") merged,
  same_iff t (codes "durability"),
  lookup-put t (codes "durability") d merged,
)

-- The argument is refused where its option is there already.
with_durability-fresh :
    (t : Text) (d : Value) (merged out : Fields)
    → with_durability d merged ≡ ok out
    → is_some (lookup t (durability_entry d)) ≡ true
    → lookup t merged ≡ none
unfolding with_durability lookup
with_durability-fresh t null merged out h k = cc
with_durability-fresh t d merged out h k =
    ground (arith, has-lookup (codes "durability") merged, same_iff t (codes "durability"))

-- The first is the second, and the others are nothing.
abbrev pub From : Option Value → Option Value → Option Value → Option Value → Type 0
From m a b c = (m ≡ a) × (b ≡ none) × (c ≡ none)

one_source :
    (m a b c : Option Value)
    → m ≡ or_else a (or_else b c)
    → (is_some b ≡ true → a ≡ none)
    → (is_some c ≡ true → or_else a b ≡ none)
    → From m a b c ⊎ From m b a c ⊎ From m c a b
one_source m none none none e p q = inl (e, refl, refl)
one_source m (some x) none none e p q = inl (e, refl, refl)
one_source m none (some v) none e p q = inr (inl (e, refl, refl))
one_source m (some x) (some v) none e p q = absurd (cc (p refl))
one_source m none none (some w) e p q = inr (inr (e, refl, refl))
one_source m none (some v) (some w) e p q = absurd (cc (q refl))
one_source m (some x) b (some w) e p q = absurd (cc (q refl))

-- The combinations that a submission never holds.
abbrev pub Exclusive : Fields → Type 0
Exclusive options =
    ((given (codes "id") options && given (codes "submission_id") options) ≡ false)
    × ((given (codes "delay") options && given (codes "delay_ms") options) ≡ false)
    × ((given (codes "run_at") options && given (codes "delay") options) ≡ false)
    × ((given (codes "run_at") options && given (codes "delay_ms") options) ≡ false)
    × ((given (codes "timeout") options && given (codes "timeout_ms") options) ≡ false)

ids_exclusive :
    (options : Fields)
    → check_ids options ≡ ok tt
    → (given (codes "id") options && given (codes "submission_id") options) ≡ false
unfolding check_ids
ids_exclusive options h = ground arith

start_exclusive :
    (options : Fields)
    → check_start options ≡ ok tt
    → ((given (codes "delay") options && given (codes "delay_ms") options) ≡ false)
      × ((given (codes "run_at") options && given (codes "delay") options) ≡ false)
      × ((given (codes "run_at") options && given (codes "delay_ms") options) ≡ false)
unfolding check_start
start_exclusive options h = ground arith

timeout_exclusive :
    (options : Fields)
    → check_timeout options ≡ ok tt
    → (given (codes "timeout") options && given (codes "timeout_ms") options) ≡ false
unfolding check_timeout
timeout_exclusive options h = ground arith

validate_parts :
    (options : Fields)
    → validate_submission_options options ≡ ok tt
    → (known options ≡ true)
      × (check_ids options ≡ ok tt)
      × (check_start options ≡ ok tt)
      × (check_timeout options ≡ ok tt)
unfolding validate_submission_options
validate_parts options h = ground arith

pub validate-Exclusive :
    (options : Fields)
    → validate_submission_options options ≡ ok tt
    → (known options ≡ true) × Exclusive options
validate-Exclusive options h =
    let (k, ids, start, timeout) = validate_parts options h in
    let (a, b, c) = start_exclusive options start in
    (k, (ids_exclusive options ids, a, b, c, timeout_exclusive options timeout))

module _ (base keywords : Fields) (durability : Value) (merged : Fields) where
  -- The merged options have of each name what the options have, what the keyword arguments have or
  -- what the durability argument adds, and the other two have nothing of that name: no source
  -- replaces another, and where none has the name, the merged options have not. The merge succeeded,
  -- and the names of keyword arguments are distinct.
  pub merge_enqueue_options-lookup :
      (t : Text)
      → named keywords ≡ true
      → merge_enqueue_options (dict base) keywords durability ≡ ok merged
      → (From
          (lookup t merged)
          (lookup t base)
          (lookup t keywords)
          (lookup t (durability_entry durability)))
        ⊎ (From
            (lookup t merged)
            (lookup t keywords)
            (lookup t base)
            (lookup t (durability_entry durability)))
        ⊎ (From
            (lookup t merged)
            (lookup t (durability_entry durability))
            (lookup t base)
            (lookup t keywords))
  unfolding merge_enqueue_options
  merge_enqueue_options-lookup t n h =
      one_source _ _ _ _
        (ground (
          arith,
          lookup-with_durability t durability (update base keywords) merged,
          lookup-update t base keywords n,
          no_overlap t base keywords,
        ))
        (ground (arith, no_overlap t base keywords))
        (ground (
          arith,
          with_durability-fresh t durability (update base keywords) merged,
          lookup-update t base keywords n,
        ))

  -- Merged options are known options. They never combine an id with a submission id, a delay in
  -- seconds with one in milliseconds, a time to run at with either delay, or a timeout in seconds with
  -- one in milliseconds.
  pub merge_enqueue_options-Exclusive :
      (options : Value)
      → merge_enqueue_options options keywords durability ≡ ok merged
      → (known merged ≡ true) × Exclusive merged
  unfolding merge_enqueue_options
  merge_enqueue_options-Exclusive options h = validate-Exclusive merged (ground arith)

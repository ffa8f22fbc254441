-- ===== src/Table/Laws.antt =====
-- The laws of the client's dicts and sets.
use tay.Prelude.{
  suc, ◌≤◌, ◌≡◌, refl, Bool, true, false, not, ◌&&◌, ◌||◌, none, some, List, [], ◌∷◌, ◌++◌, arith,
  length, if◌then◌else◌,
}
use tay.Text.{Text, same, mem}
use tay.Text.Laws.{same_iff, same_sym}
use tay.Table.{Table, find, set, drop, keys, add, discard}

-- No text twice.
unfoldable pub nodup : List Text → Bool
unfolding mem
nodup [] = true
nodup (s ∷ ss) = not (mem s ss) && nodup ss

pub mem-discard : (t s : Text) (ss : List Text) → mem t ss ≡ false → mem t (discard s ss) ≡ false
unfolding mem discard
mem-discard t s [] h = refl
mem-discard t s (r ∷ ss) h = ground (arith, mem-discard t s ss)

pub nodup-discard : (t : Text) (ss : List Text) → nodup ss ≡ true → nodup (discard t ss) ≡ true
unfolding nodup discard
nodup-discard t [] h = refl
nodup-discard t (s ∷ ss) h = ground (arith, nodup-discard t ss, mem-discard s t ss)

-- What was discarded is gone, if it was there once.
pub mem-discard_self : (t : Text) (ss : List Text) → nodup ss ≡ true → mem t (discard t ss) ≡ false
unfolding mem discard nodup
mem-discard_self t [] h = refl
mem-discard_self t (s ∷ ss) h = ground (arith, mem-discard_self t ss, same_iff t s)

pub mem-add : (t s : Text) (ss : List Text) → mem t (add s ss) ≡ (same t s || mem t ss)
unfolding mem add
mem-add t s [] = refl
mem-add t s (r ∷ ss) = ground (arith, mem-add t s ss, same_iff s r)

pub nodup-add : (t : Text) (ss : List Text) → nodup ss ≡ true → nodup (add t ss) ≡ true
unfolding nodup add mem
nodup-add t [] h = refl
nodup-add t (s ∷ ss) h = ground (arith, nodup-add t ss, mem-add s t ss, same_sym s t)

pub add-of_mem : (t : Text) (ss : List Text) → mem t ss ≡ true → add t ss ≡ ss
unfolding mem add
add-of_mem t [] h = cc
add-of_mem t (s ∷ ss) h = ground (arith, add-of_mem t ss)

module _ {ℓ} {V : Type ℓ} where
  pub keys-set : (t : Text) (v : V) (d : Table V) → keys (set t v d) ≡ add t (keys d)
  unfolding keys set add
  keys-set t v [] = refl
  keys-set t v ((s, w) ∷ d) = ground (arith, keys-set t v d)

  pub keys-set_new :
      (t : Text) (v : V) (d : Table V) → find t d ≡ none → keys (set t v d) ≡ keys d ++ (t ∷ [])
  unfolding keys set find
  keys-set_new t v [] h = refl
  keys-set_new t v ((s, w) ∷ d) h = ground (arith, keys-set_new t v d)

  pub keys-drop : (t : Text) (d : Table V) → keys (drop t d) ≡ discard t (keys d)
  unfolding keys drop discard
  keys-drop t [] = refl
  keys-drop t ((s, w) ∷ d) = ground (arith, keys-drop t d)

  pub length-set :
      (t : Text) (v : V) (d : Table V) → find t d ≡ none → length (set t v d) ≡ suc (length d)
  unfolding find set
  length-set t v [] h = refl
  length-set t v ((s, w) ∷ d) h = ground (arith, length-set t v d)

  pub length-drop-le : (t : Text) (d : Table V) → length (drop t d) ≤ length d
  unfolding drop
  length-drop-le t [] = omega arith
  length-drop-le t ((s, w) ∷ d) = ground (arith, length-drop-le t d)

  pub find-set :
      (t s : Text) (v : V) (d : Table V)
      → find t (set s v d) ≡ (if same t s then some v else find t d)
  unfolding find set
  find-set t s v [] = refl
  find-set t s v ((r, w) ∷ d) =
      ground (arith, find-set t s v d, same_iff s r, same_iff t r, same_iff t s)

  pub mem-keys : (t : Text) (v : V) (d : Table V) → find t d ≡ some v → mem t (keys d) ≡ true
  unfolding find keys mem
  mem-keys t v [] h = cc
  mem-keys t v ((s, w) ∷ d) h = ground (arith, mem-keys t v d)

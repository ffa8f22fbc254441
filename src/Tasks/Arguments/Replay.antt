-- ===== src/Tasks/Arguments/Replay.antt =====
-- Calling a task with the arguments of a job binds them as the caller's call did.
use tay.Prelude.{
  ◌≡◌, refl, ap, Bool, true, false, ◌&&◌, Option, none, some, List, [], ◌∷◌, arith, Bool-cases, inl,
  inr,
}
use tay.Text.{Text}
use tay.Text.Laws.{same_refl}
use tay.Value.{
  Value, null, list, dict, Items, nil, cons, name, Fields, end, field, lookup, has, remove,
}
use tay.Schedules.Pages.{extend}
use tay.Tasks.Arguments.{
  Parameter, Kind, positional_only, positional_or_keyword, var_positional, keyword_only,
  var_keyword, bind, bind_as, entry, entry_of,
}

unfoldable pub labels : List Parameter → List Text
labels [] = []
labels (p ∷ ps) = p.label ∷ labels ps

abbrev pub by_name : Kind → Bool
by_name positional_or_keyword = true
by_name keyword_only = true
by_name _ = false

unfoldable pub all_by_name : List Parameter → Bool
all_by_name [] = true
all_by_name (p ∷ ps) = by_name p.kind && all_by_name ps

abbrev pub replayable_as : Kind → Bool → Bool → Bool
replayable_as positional_only rest named = rest
replayable_as var_keyword rest named = false
replayable_as _ rest named = named

-- Positional-only parameters, then perhaps `*args`, then parameters that have names; no `**kwargs`.
unfoldable pub replayable : List Parameter → Bool
unfolding all_by_name
replayable [] = true
replayable (p ∷ ps) = replayable_as p.kind (replayable ps) (all_by_name ps)

-- The arguments that are passed by position, and those that are passed by name.
abbrev pub positional_as : Kind → Value → Items → Items
positional_as positional_only v vs = cons v vs
positional_as var_positional (list ws) vs = extend ws vs
positional_as _ v vs = vs

unfoldable pub positional_of : List Parameter → Fields → Items
positional_of [] fs = nil
positional_of (p ∷ ps) end = nil
positional_of (p ∷ ps) (field k v fs) = positional_as p.kind v (positional_of ps fs)

abbrev pub keyword_as : Kind → Text → Value → Fields → Fields
keyword_as positional_or_keyword t v ks = field (name t) v ks
keyword_as keyword_only t v ks = field (name t) v ks
keyword_as _ t v ks = ks

unfoldable pub keyword_of : List Parameter → Fields → Fields
keyword_of [] fs = end
keyword_of (p ∷ ps) end = end
keyword_of (p ∷ ps) (field k v fs) = keyword_as p.kind p.label v (keyword_of ps fs)

-- The argument of `*args` is a list.
abbrev pub Shape : Kind → Value → Type 0
Shape var_positional (list vs) = Unit
Shape var_positional v = ⊥
Shape _ v = Unit

pub Shape-list : (v : Value) → Shape var_positional v → (ws : Items) × (v ≡ list ws)
Shape-list (list ws) s = (ws, refl)
Shape-list null s = elim s [ ]
Shape-list _ s = elim s [ ]

entry_inv :
    (t : Text) (v : Value) (o : Option Fields) (fs : Fields)
    → entry t v o ≡ some fs
    → (gs : Fields) × (o ≡ some gs) × (fs ≡ field (name t) v gs)
entry_inv t v none fs h = cc
entry_inv t v (some gs) fs h = (gs, refl, cc)

entry_of_inv :
    (t : Text) (w : Option Value) (o : Option Fields) (fs : Fields)
    → entry_of t w o ≡ some fs
    → (v : Value) × (gs : Fields) × (o ≡ some gs) × (fs ≡ field (name t) v gs)
entry_of_inv t none o fs h = cc
entry_of_inv t (some v) o fs h = let (gs, a, b) = entry_inv t v o fs h in (v, gs, a, b)

-- What one parameter's binding is.
abbrev pub Bound : Kind → Parameter → (Items → Fields → Option Fields) → Fields → Type 0
Bound k p rest fs =
    (v : Value) × (gs : Fields) × (args : Items) × (kwargs : Fields) × (rest args kwargs ≡ some gs)
    × (fs ≡ field (name p.label) v gs)
    × Shape k v

pub bind_as-Bound :
    (k : Kind) (p : Parameter) (rest : Items → Fields → Option Fields) (args : Items)
    (kwargs fs : Fields)
    → bind_as k p rest args kwargs ≡ some fs
    → Bound k p rest fs
bind_as-Bound positional_only p rest (cons w ws) kwargs fs h =
    let (gs, a, b) = entry_inv p.label w (rest ws kwargs) fs h in (w, gs, ws, kwargs, a, b, tt)
bind_as-Bound positional_only p rest nil kwargs fs h =
    let (v, gs, a, b) = entry_of_inv p.label p.default (rest nil kwargs) fs h in
    (v, gs, nil, kwargs, a, b, tt)
bind_as-Bound positional_or_keyword p rest (cons w ws) kwargs fs h =
    elim (Bool-cases (has p.label kwargs)) [
      | inl e ↦ absurd (ground arith)
      | inr e ↦
          let (gs, a, b) = entry_inv p.label w (rest ws kwargs) fs (rw e at h) in
          (w, gs, ws, kwargs, a, b, tt)
    ]
bind_as-Bound positional_or_keyword p rest nil kwargs fs h =
    let (v, gs, a, b) = entry_of_inv p.label _ (rest nil (remove p.label kwargs)) fs h in
    (v, gs, nil, remove p.label kwargs, a, b, tt)
bind_as-Bound var_positional p rest args kwargs fs h =
    let (gs, a, b) = entry_inv p.label (list args) (rest nil kwargs) fs h in
    (list args, gs, nil, kwargs, a, b, tt)
bind_as-Bound keyword_only p rest args kwargs fs h =
    let (v, gs, a, b) = entry_of_inv p.label _ (rest args (remove p.label kwargs)) fs h in
    (v, gs, args, remove p.label kwargs, a, b, tt)
bind_as-Bound var_keyword p rest args kwargs fs h =
    let (gs, a, b) = entry_inv p.label (dict kwargs) (rest args end) fs h in
    (dict kwargs, gs, args, end, a, b, tt)

by_name-positional :
    (ps : List Parameter) (fs : Fields) → all_by_name ps ≡ true → positional_of ps fs ≡ nil
unfolding all_by_name positional_of
by_name-positional [] fs h = refl
by_name-positional (p ∷ ps) end h = refl
by_name-positional (p ∷ ps) (field k v fs) h =
    step p.kind (ground arith) (by_name-positional ps fs (ground arith))
  where
    step :
        (k : Kind)
        → by_name k ≡ true
        → positional_of ps fs ≡ nil
        → positional_as k v (positional_of ps fs) ≡ nil
    step positional_or_keyword e h' = h'
    step keyword_only e h' = h'
    step positional_only e h' = cc
    step var_positional e h' = cc
    step var_keyword e h' = cc

pub extend-nil : (vs : Items) → extend vs nil ≡ vs
unfolding extend
extend-nil nil = refl
extend-nil (cons v vs) = ap (cons v) (extend-nil vs)

module _ (p : Parameter) (ps : List Parameter) (gs : Fields) (v : Value) where
  -- One parameter in front of parameters that are replayed.
  rebind_as :
      (k : Kind)
      → Shape k v
      → replayable_as k (replayable ps) (all_by_name ps) ≡ true
      → bind ps (positional_of ps gs) (keyword_of ps gs) ≡ some gs
      → bind_as k p
          (bind ps)
          (positional_as k v (positional_of ps gs))
          (keyword_as k p.label v (keyword_of ps gs))
        ≡ some (field (name p.label) v gs)
  unfolding lookup remove
  rebind_as positional_only s r h = rw h refl
  rebind_as positional_or_keyword s r h =
      let h' = rw (by_name-positional ps gs r) at h in
      rw (by_name-positional ps gs r, same_refl p.label) (rw h' refl)
  rebind_as keyword_only s r h = rw (same_refl p.label) (rw h refl)
  rebind_as var_positional s r h =
      let h' = rw (by_name-positional ps gs r) at h in
      let (ws, e) = Shape-list v s in rw (e, by_name-positional ps gs r, extend-nil) (rw h' refl)
  rebind_as var_keyword s r h = cc

by_name-replayable : (ps : List Parameter) → all_by_name ps ≡ true → replayable ps ≡ true
unfolding all_by_name replayable
by_name-replayable [] h = refl
by_name-replayable (p ∷ ps) h = step p.kind (ground arith)
  where
    step : (k : Kind) → by_name k ≡ true → replayable_as k (replayable ps) (all_by_name ps) ≡ true
    step positional_or_keyword e = ground arith
    step keyword_only e = ground arith
    step positional_only e = cc
    step var_positional e = cc
    step var_keyword e = cc

pub replayable-tail :
    (k : Kind) (ps : List Parameter)
    → replayable_as k (replayable ps) (all_by_name ps) ≡ true
    → replayable ps ≡ true
replayable-tail positional_only ps h = h
replayable-tail var_keyword ps h = cc
replayable-tail _ ps h = by_name-replayable ps h

pub rebind :
    (ps : List Parameter) (args : Items) (kwargs fs : Fields)
    → replayable ps ≡ true
    → bind ps args kwargs ≡ some fs
    → bind ps (positional_of ps fs) (keyword_of ps fs) ≡ some fs
unfolding bind positional_of keyword_of replayable
rebind [] nil end fs r h = h
rebind [] nil (field k v gs) fs r h = cc
rebind [] (cons v vs) kwargs fs r h = cc
rebind (p ∷ ps) args kwargs fs r h =
    let (v, gs, vs, ks, b, e, s) = bind_as-Bound p.kind p (bind ps) args kwargs fs h in
    rw e (rebind_as p ps gs v p.kind s r (rebind ps vs ks gs (replayable-tail p.kind ps r) b))

-- ===== src/Tasks/Arguments/Calls.antt =====
-- The call that `_call_from_arguments` makes, and the round trip of the arguments.
use tay.Prelude.{
  ◌≡◌, refl, ap, true, false, ◌||◌, some, List, [], ◌∷◌, arith, Option-cases, inl, inr,
}
use tay.Prelude.Outcome.{ok, ◌>>=◌}
use tay.Text.{Text, same, mem}
use tay.Text.Laws.{same_refl, same_sym}
use tay.Value.{Value, dict, Items, nil, cons, name, Fields, end, field, lookup, has, put}
use tay.Protocol.{normalize_json}
use tay.Protocol.Safe.{normalize_json-ok}
use tay.Protocol.Codec.Duplicates.{append}
use tay.Schedules.Pages.{extend}
use tay.Table.Laws.{nodup}
use tay.Tasks.Arguments.{
  Parameter, Kind, positional_only, positional_or_keyword, var_positional, keyword_only,
  var_keyword, bind, arguments_from_call, call_of, place, call_from_arguments,
}
use tay.Tasks.Arguments.Replay.{
  labels, replayable, replayable_as, replayable-tail, all_by_name, positional_as, positional_of,
  keyword_as, keyword_of, Shape, bind_as-Bound, rebind, Shape-list, extend-nil,
}

-- The arguments that stand under the labels of the parameters, in their order.
abbrev Agrees : Fields → List Parameter → Fields → Type 0
Agrees full [] end = Unit
Agrees full [] (field k v fs) = ⊥
Agrees full (p ∷ ps) end = ⊥
Agrees full (p ∷ ps) (field k v fs) =
    (lookup p.label full ≡ some v) × Shape p.kind v × Agrees full ps fs

-- None of the parameters has an argument yet.
abbrev Absent : List Parameter → Fields → Type 0
Absent [] ks = Unit
Absent (p ∷ ps) ks = (has p.label ks ≡ false) × Absent ps ks

extend_assoc : (us vs ws : Items) → extend (extend us vs) ws ≡ extend us (extend vs ws)
unfolding extend
extend_assoc nil vs ws = refl
extend_assoc (cons u us) vs ws = ap (cons u) (extend_assoc us vs ws)

append_assoc : (fs gs hs : Fields) → append (append fs gs) hs ≡ append fs (append gs hs)
unfolding append
append_assoc end gs hs = refl
append_assoc (field k v fs) gs hs = ap (field k v) (append_assoc fs gs hs)

put-append :
    (t : Text) (v : Value) (ks : Fields)
    → has t ks ≡ false
    → put t v ks ≡ append ks (field (name t) v end)
unfolding has put append
put-append t v end h = refl
put-append t v (field k w ks) h = ground (arith, put-append t v ks)

has-append :
    (t s : Text) (v : Value) (ks : Fields)
    → has t (append ks (field (name s) v end)) ≡ (has t ks || same t s)
unfolding has append
has-append t s v end = ground arith
has-append t s v (field k w ks) = ground (arith, has-append t s v ks)

Absent-append :
    (ps : List Parameter) (t : Text) (v : Value) (ks : Fields)
    → mem t (labels ps) ≡ false
    → Absent ps ks
    → Absent ps (append ks (field (name t) v end))
unfolding labels mem
Absent-append [] t v ks h a = tt
Absent-append (p ∷ ps) t v ks h (a, b) = (
  ground (arith, has-append p.label t v ks, same_sym t p.label),
  Absent-append ps t v ks (ground arith) b,
)

Agrees-behind :
    (t : Text) (w : Value) (full : Fields) (ps : List Parameter) (fs : Fields)
    → mem t (labels ps) ≡ false
    → Agrees full ps fs
    → Agrees (field (name t) w full) ps fs
unfolding labels mem lookup
Agrees-behind t w full [] end h a = tt
Agrees-behind t w full [] (field k v fs) h a = elim a [ ]
Agrees-behind t w full (p ∷ ps) end h a = elim a [ ]
Agrees-behind t w full (p ∷ ps) (field k v fs) h (a, b, c) =
    (ground (arith, same_sym t p.label), b, Agrees-behind t w full ps fs (ground arith) c)

bind-Agrees :
    (ps : List Parameter) (args : Items) (kwargs fs : Fields)
    → nodup (labels ps) ≡ true
    → bind ps args kwargs ≡ some fs
    → Agrees fs ps fs
unfolding bind labels nodup lookup
bind-Agrees [] nil end fs n h = let e : fs ≡ end = cc in rw e tt
bind-Agrees [] nil (field k v gs) fs n h = cc
bind-Agrees [] (cons v vs) kwargs fs n h = cc
bind-Agrees (p ∷ ps) args kwargs fs n h =
    let (v, gs, vs, ks, b, e, s) = bind_as-Bound p.kind p (bind ps) args kwargs fs h in
    rw e (
      rw (same_refl p.label) refl,
      s,
      Agrees-behind p.label v gs ps gs (ground arith) (bind-Agrees ps vs ks gs (ground arith) b),
    )

append-end : (fs : Fields) → append fs end ≡ fs
unfolding append
append-end end = refl
append-end (field k v fs) = ap (field k v) (append-end fs)

-- What the parameters behind one do, for any arguments that are placed already.
abbrev Continues : List Parameter → Fields → Fields → Type 0
Continues ps full fs =
    (positional : Items) (keyword : Fields)
    → Absent ps keyword
    → call_of ps full positional keyword
      ≡ ok (extend positional (positional_of ps fs), append keyword (keyword_of ps fs))

module _ (p : Parameter) (ps : List Parameter) (full fs : Fields) (v : Value) where
  placed :
      (k : Kind) (positional : Items) (keyword : Fields)
      → Shape k v
      → replayable_as k (replayable ps) (all_by_name ps) ≡ true
      → mem p.label (labels ps) ≡ false
      → has p.label keyword ≡ false
      → Absent ps keyword
      → Continues ps full fs
      → (place k p.label v positional keyword >>= λ x. call_of ps full x.0 x.1)
        ≡ ok (
          extend positional (positional_as k v (positional_of ps fs)),
          append keyword (keyword_as k p.label v (keyword_of ps fs)),
        )
  unfolding extend append
  placed positional_only vs ks s r m h a next =
      rw (next (extend vs (cons v nil)) ks a, extend_assoc) refl
  placed var_positional vs ks s r m h a next =
      let (ws, e) = Shape-list v s in rw (e, next (extend vs ws) ks a, extend_assoc) refl
  placed var_keyword vs ks s r m h a next = cc
  placed positional_or_keyword vs ks s r m h a next =
      let b = Absent-append ps p.label v ks m a in
      rw
        (
          put-append p.label v ks h,
          next vs (append ks (field (name p.label) v end)) b,
          append_assoc,
        )
        refl
  placed keyword_only vs ks s r m h a next =
      let b = Absent-append ps p.label v ks m a in
      rw
        (
          put-append p.label v ks h,
          next vs (append ks (field (name p.label) v end)) b,
          append_assoc,
        )
        refl

call_lem :
    (ps : List Parameter) (full fs : Fields)
    → nodup (labels ps) ≡ true
    → replayable ps ≡ true
    → Agrees full ps fs
    → Continues ps full fs
unfolding call_of positional_of keyword_of labels nodup replayable
call_lem [] full end n r a vs ks b = rw (extend-nil, append-end) refl
call_lem [] full (field k v fs) n r a vs ks b = elim a [ ]
call_lem (p ∷ ps) full end n r a vs ks b = elim a [ ]
call_lem (p ∷ ps) full (field k v fs) n r (found, s, rest) vs ks (new, b) = rw found (
    placed p ps full fs v p.kind vs ks s r (ground arith) new b
      (call_lem ps full fs (ground arith) (replayable-tail p.kind ps r) rest))

Absent-end : (ps : List Parameter) → Absent ps end
unfolding has
Absent-end [] = tt
Absent-end (p ∷ ps) = (refl, Absent-end ps)

-- A job of a task whose signature has no `**kwargs`, and no ordinary parameter before `*args`: the
-- worker calls the function, and its call binds every parameter, the defaults included, to the value
-- that it had in the call of the producer.
pub arguments_round_trip :
    (ps : List Parameter) (args : Items) (kwargs : Fields) (v : Value)
    → nodup (labels ps) ≡ true
    → replayable ps ≡ true
    → arguments_from_call (some ps) args kwargs ≡ ok v
    → (positional : Items) × (keyword : Fields) × (call_from_arguments (some ps) v
        ≡ ok (positional, keyword))
      × (arguments_from_call (some ps) positional keyword ≡ ok v)
unfolding arguments_from_call call_from_arguments extend append
arguments_round_trip ps args kwargs v n r h = elim (Option-cases (bind ps args kwargs)) [
  | inl e ↦ absurd (ground arith)
  | inr (fs, e) ↦
      let whole : normalize_json (dict fs) ≡ ok v = rw e at h in
      let same_value : v ≡ dict fs = normalize_json-ok _ v whole in
      let call =
        call_lem ps fs fs n r (bind-Agrees ps args kwargs fs n e) nil end (Absent-end ps) in
      (
        positional_of ps fs,
        keyword_of ps fs,
        rw same_value call,
        rw (rebind ps args kwargs fs r e) whole,
      )
]

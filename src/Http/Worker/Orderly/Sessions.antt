-- ===== src/Http/Worker/Orderly/Sessions.antt =====
-- Registration, retirement and revocation keep the invariant.
use tay.Prelude.{
  ◌≡◌, refl, Bool, Option, none, some, List, [], ◌∷◌, arith, length, Bool-cases, if_intro,
  Option-cases, inl, inr,
}
use tay.Prelude.Outcome.{Error, Outcome, ok, err, Outcome-cases, connection_lost}
use tay.Text.{Text, codes}
use tay.Text.Laws.{same_refl}
use tay.Value.{Value, null, str, Fields, end, get}
use tay.Table.{keys}
use tay.Http.Worker.{
  Worker, post, is_some, cancel_async, cancel_each, retire, no_tasks, register_session,
  worker_token, session_reply, declare_each, install, session_declared, to_declare, revoke,
  opened_with,
}
use tay.Http.Worker.Orderly.{IsOrderly, IsToken, SameState-IsOrderly, post-IsOrderly}

pub cancel_async-IsOrderly :
    (key : Text) (w : Worker) → IsOrderly w → IsOrderly (cancel_async key w)
unfolding cancel_async
cancel_async-IsOrderly key w i = SameState-IsOrderly (ground arith) i

cancel_each-IsOrderly : (ks : List Text) (w : Worker) → IsOrderly w → IsOrderly (cancel_each ks w)
unfolding cancel_each
cancel_each-IsOrderly [] w i = i
cancel_each-IsOrderly (key ∷ ks) w i =
    cancel_each-IsOrderly ks (cancel_async key w) (cancel_async-IsOrderly key w i)

pub retire-IsOrderly : (w : Worker) → IsOrderly w → IsOrderly (retire w)
unfolding retire
retire-IsOrderly w i = elim (Bool-cases (is_some w.token)) [
  | inl e ↦ rw e i
  | inr e ↦ rw e (cancel_each-IsOrderly (keys w.executions) w i)
]

pub register_session-IsOrderly : (w : Worker) → IsOrderly w → IsOrderly (register_session w).1
unfolding register_session
register_session-IsOrderly w i =
    if_intro (λ (r : Outcome Bool × Worker). IsOrderly r.1) w.closing _ _ i
      (if_intro (λ (r : Outcome Bool × Worker). IsOrderly r.1) (is_some w.token) _ _ i
        (if_intro (λ (r : Outcome Bool × Worker). IsOrderly r.1) (no_tasks w.tasks) _ _ i
          (post-IsOrderly (codes "POST") (codes "/workers") _ none w refl i)))

worker_token-length : (v : Value) (t : Text) → worker_token v ≡ ok t → length t ≡ 43
unfolding worker_token
worker_token-length (str s) t h = ground arith
worker_token-length null t h = cc
worker_token-length _ t h = cc

open-IsOrderly :
    (o : Option Text) (w : Worker) → IsToken o → IsOrderly w → IsOrderly (record w { opening = o })
open-IsOrderly o w t i = record {
  aligned = i.aligned;
  distinct = i.distinct;
  tracked = i.tracked;
  token = i.token;
  opening = t;
  fences = i.fences;
}

opened_with-IsOrderly :
    (v : Value) (w : Worker) → IsOrderly w → IsOrderly (opened_with (worker_token v) w).1
opened_with-IsOrderly v w i = elim (Outcome-cases (worker_token v)) [
  | inr (e, p) ↦ rw (p, opened_with) i
  | inl (t, p) ↦ rw (p, opened_with) (open-IsOrderly (some t) w (worker_token-length v t p) i)
]

pub session_reply-IsOrderly :
    (r : Outcome Fields) (w : Worker) → IsOrderly w → IsOrderly (session_reply r w).1
unfolding session_reply
session_reply-IsOrderly (err e) w i = i
session_reply-IsOrderly (ok reply) w i =
    if_intro (λ (r : Outcome (Unit {0}) × Worker). IsOrderly r.1) w.closing _ _ i
      (opened_with-IsOrderly (get (codes "worker_token") reply) w i)

revoke-IsOrderly :
    (token : Text) (e : Error) (w : Worker) → IsOrderly w → IsOrderly (revoke token e w).1
revoke-IsOrderly token e w i =
    post-IsOrderly (codes "DELETE") (codes "/workers") end (some token)
      (record w { opening = none }) (ground (arith, same_refl (codes "DELETE")))
      (open-IsOrderly none w tt i)

posted-IsOrderly :
    (fs : Fields) (w : Worker)
    → IsOrderly w
    → IsOrderly (post (codes "POST") (codes "/schedules") fs none w)
posted-IsOrderly fs w i = post-IsOrderly (codes "POST") (codes "/schedules") fs none w refl i

declare_each-IsOrderly :
    (ds : List Fields) (rs : List (Outcome Fields)) (w : Worker)
    → IsOrderly w
    → IsOrderly (declare_each ds rs w).1
unfolding declare_each
declare_each-IsOrderly [] rs w i = i
declare_each-IsOrderly (fs ∷ ds) [] w i = posted-IsOrderly fs w i
declare_each-IsOrderly (fs ∷ ds) (err e ∷ rs) w i = posted-IsOrderly fs w i
declare_each-IsOrderly (fs ∷ ds) (ok reply ∷ rs) w i =
    declare_each-IsOrderly ds rs (post (codes "POST") (codes "/schedules") fs none w)
      (posted-IsOrderly fs w i)

install-IsOrderly :
    (token : Text) (r : Outcome (Unit {0})) (w : Worker)
    → length token ≡ 43
    → IsOrderly w
    → IsOrderly (install token r w).1
install-IsOrderly token (err e) w t i = revoke-IsOrderly token e w i
install-IsOrderly token (ok u) w t i =
    if_intro (λ (r : Outcome (Unit {0}) × Worker). IsOrderly r.1) w.closing _ _
      (revoke-IsOrderly token connection_lost w i)
      (record {
        aligned = i.aligned;
        distinct = i.distinct;
        tracked = i.tracked;
        token = t;
        opening = tt;
        fences = i.fences;
      })

pub session_declared-IsOrderly :
    (rs : List (Outcome Fields)) (w : Worker) → IsOrderly w → IsOrderly (session_declared rs w).1
unfolding session_declared
session_declared-IsOrderly rs w i = elim (Option-cases w.opening) [
  | inl e ↦ rw (e, session_declared) i
  | inr (t, e) ↦
      let ds = to_declare w.withdrawn w.tasks in
      rw (e, session_declared)
        (install-IsOrderly t (declare_each ds rs w).0 _ (rw e at i.opening)
          (declare_each-IsOrderly ds rs w i))
]

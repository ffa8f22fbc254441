-- ===== src/Http/Worker/Orderly.antt =====
-- The invariant of the HTTP worker, and the requests that keep it.
pub mod Sessions
pub mod Activities
use tay.Prelude.{
  ℕ, ◌≡◌, refl, sym, ap, ◌∙◌, Bool, true, false, not, ◌&&◌, ◌||◌, Option, none, some, List, [], ◌∷◌,
  ◌++◌, ◌==◌, arith, length, if◌then◌else◌, all, Bool-cases, Option-cases, inl, inr,
}
use tay.Prelude.Outcome.{Error, Outcome, ok, err, Outcome-cases}
use tay.Text.{Text, codes, same, mem}
use tay.Text.Laws.{same_iff, same_refl}
use tay.Value.{Value, str, Fields, end, get}
use tay.Table.{Table, find, set, drop, keys, add, discard}
use tay.Table.Laws.{nodup, keys-set, keys-drop, nodup-add, nodup-discard, mem-keys, add-of_mem}
use tay.Http.Worker.{
  Worker, Execution, Phase, Sent, Action, post, same_token, or_token, is_some, worker_request,
  cancel_async, cancel_each, retire, register_session, worker_token, session_reply, declare_each,
  install, session_declared, to_declare, revoke,
}

-- A request bears no token, or the token of the session that it was sent in, or revokes a session.
abbrev pub fenced : Sent → Bool
fenced x =
    not (is_some x.bearer) || (same_token x.bearer x.session || same x.method (codes "DELETE"))

abbrev pub IsToken : Option Text → Type 0
IsToken none = Unit
IsToken (some t) = length t ≡ 43

-- The tasks that were created and have not finished are the entries of the table, in its order, so
-- each execution once, each with its flag; session tokens of 43 characters; no request but a
-- revocation that bears a token other than that of the session at that time.
pub record IsOrderly (w : Worker) : Type 0 where
  pub aligned : keys w.is_sync ≡ keys w.executions
  pub distinct : nodup (keys w.executions) ≡ true
  pub tracked : w.invoked ≡ keys w.executions
  pub token : IsToken w.token
  pub opening : IsToken w.opening
  pub fences : all fenced w.sent ≡ true

-- What concerns the invariant is the same.
pub record SameState (v w : Worker) : Type 0 where
  pub executions : w.executions ≡ v.executions
  pub is_sync : w.is_sync ≡ v.is_sync
  pub invoked : w.invoked ≡ v.invoked
  pub token : w.token ≡ v.token
  pub opening : w.opening ≡ v.opening
  pub sent : w.sent ≡ v.sent

pub SameState-IsOrderly : {v w : Worker} → SameState v w → IsOrderly v → IsOrderly w
SameState-IsOrderly s i = record {
  aligned = rw s.is_sync (rw s.executions i.aligned);
  distinct = rw s.executions i.distinct;
  tracked = rw s.executions (rw s.invoked i.tracked);
  token = rw s.token i.token;
  opening = rw s.opening i.opening;
  fences = rw s.sent i.fences;
}

pub post-IsOrderly :
    (method path : Text) (body : Fields) (bearer : Option Text) (w : Worker)
    → (not (is_some bearer) || (same_token bearer w.token || same method (codes "DELETE"))) ≡ true
    → IsOrderly w
    → IsOrderly (post method path body bearer w)
unfolding post
post-IsOrderly method path body bearer w h i = record {
  aligned = i.aligned;
  distinct = i.distinct;
  tracked = i.tracked;
  token = i.token;
  opening = i.opening;
  fences = ground (arith, i.fences);
}

same_token_refl : (o : Option Text) → same_token o o ≡ true
unfolding same_token
same_token_refl none = refl
same_token_refl (some t) = same_refl t

pub same_token-eq : (o p : Option Text) → same_token o p ≡ true → o ≡ p
unfolding same_token
same_token-eq none none h = refl
same_token-eq none (some t) h = cc
same_token-eq (some s) none h = cc
same_token-eq (some s) (some t) h = ap (λ x. some x) ((same_iff s t).0 h)

pub worker_request-IsOrderly :
    (method path : Text) (body : Fields) (session : Option Text) (w : Worker)
    → IsOrderly w
    → IsOrderly (worker_request method path body session w).1
unfolding worker_request
worker_request-IsOrderly method path body none w i = elim (Option-cases w.token) [
  | inl e ↦ rw (e, worker_request) i
  | inr (t, e) ↦
      rw (e, worker_request)
        (post-IsOrderly method path body (some t) w (ground (arith, same_token_refl (some t))) i)
]
worker_request-IsOrderly method path body (some s) w i =
    elim (Bool-cases (same_token (some s) w.token)) [
      | inl e ↦ rw e (post-IsOrderly method path body (some s) w (ground arith) i)
      | inr e ↦ rw e i
    ]

pub worker_request-executions :
    (method path : Text) (body : Fields) (session : Option Text) (w : Worker)
    → (worker_request method path body session w).1.executions ≡ w.executions
unfolding worker_request post
worker_request-executions method path body none w = ground arith
worker_request-executions method path body (some s) w = ground arith

-- ===== src/Client/Executions/Invariant.antt =====
-- The tables of executions: within the capacity, aligned, and empty in client mode.
use tay.Prelude.{
  ◌≢◌, ◌⊎◌, ℕ, suc, ◌≤◌, ◌≡◌, refl, ap, sym, ◌∙◌, true, false, Option, none, some, List, [], ◌∷◌,
  ◌++◌, arith, leb, length, leb-false, Bool-cases, Option-cases, inl, inr,
}
use tay.Prelude.Outcome.{Error, Outcome, ok, err}
use tay.Prelude.Outcome
use tay.Text.{Text, codes}
use tay.Value.{Value, dict, Fields, get, get_or, end}
use tay.Table.{Table, find, drop, keys, add, discard}
use tay.Table.Laws.{
  keys-set, keys-set_new, keys-drop, length-set, length-drop-le, nodup, nodup-add, nodup-discard,
}
use tay.Responses.{require_text}
use tay.Client.{World, Client, TaskInfo, Mode, client, embedded, worker, Action, ◌>>=◌, lift}
use tay.Client.Sending.{is_writer}
use tay.Client.Untouched.{
  Untouched, Untouched-refl, Untouched-trans, Leaves, Leaves-lift-bind, send_event-Untouched,
  execution_failure-Untouched,
}
use tay.Client.Executions.{
  begin, execution_finished, cancel_async_execution, cancel_on, detach_connection, is_running,
  execution_failure, start_execution, find_task, with_arguments, accept_checked, accept_execution,
  string, ids_fields, cancel_execution,
}

-- The tasks that were created and have not finished are the entries of the table, in its order: at
-- most `capacity`, no id twice, each with the connection it began on; a client that only submits jobs
-- runs none.
pub record IsBounded (c : Client) : Type 0 where
  pub fits : length c.executions ≤ c.capacity
  pub tracked : c.invoked ≡ keys c.executions
  pub aligned : keys c.connections ≡ keys c.executions
  pub distinct : nodup (keys c.executions) ≡ true
  pub idle : c.mode ≡ client → c.executions ≡ []

pub Untouched-IsBounded : {c d : Client} → Untouched c d → IsBounded c → IsBounded d
Untouched-IsBounded u b = record {
  fits = rw u.executions (rw u.capacity b.fits);
  tracked = rw u.executions (rw u.invoked b.tracked);
  aligned = rw u.executions (rw u.connections b.aligned);
  distinct = rw u.executions b.distinct;
  idle = λ h. u.executions ∙ b.idle (sym u.mode ∙ h);
}

-- Whether it returns or raises, the action keeps a property of the state, in a mode that executes.
abbrev Keeps : (Client → Type 0) → {A : Type 0} → Action A → Type 0
Keeps P m = (c : Client) → c.mode ≢ client → P c → P (m c).1

Keeps-lift-bind :
    (P : Client → Type 0) {A B : Type 0} (r : Outcome A) (f : A → Action B)
    → ((a : A) → Keeps P (f a))
    → Keeps P (lift r >>= f)
unfolding ◌>>=◌
Keeps-lift-bind P (ok a) f h c n b = h a c n b
Keeps-lift-bind P (err e) f h c n b = b

-- A property that sending leaves alone, and that the start of a new execution keeps, with room.
pub record IsStable (P : Client → Type 0) : Type 0 where
  pub untouched : (c d : Client) → Untouched c d → P c → P d
  pub begins :
      (id : Text) (task : TaskInfo) (c : Client)
      → c.mode ≢ client
      → find id c.executions ≡ none
      → suc (length c.executions) ≤ c.capacity
      → P c
      → P (begin id task c)

not_running : (o : Option TaskInfo) → is_running o ≡ false → o ≡ none
not_running none h = refl
not_running (some t) h = cc

Mode-cases : (m : Mode) → (m ≡ client) ⊎ (m ≢ client)
Mode-cases client = inl refl
Mode-cases embedded = inr (ground arith)
Mode-cases worker = inr (ground arith)

module _ (P : Client → Type 0) (stable : IsStable P) (world : World) (message : Fields) where
  start_execution-Keeps :
      (id reservation : Text) (task : TaskInfo)
      → Keeps P (start_execution world message id reservation task)
  unfolding start_execution
  start_execution-Keeps id reservation task c n b =
      elim (Bool-cases (is_running (find id c.executions))) [
        | inl running ↦ rw running (
            stable.untouched c _
              (send_event-Untouched world (codes "started") (ids_fields reservation id) none c) b)
        | inr new ↦ elim (Bool-cases (leb c.capacity (length c.executions))) [
          | inl full ↦
              rw (new, full)
                (stable.untouched c _
                  (execution_failure-Untouched world message
                    (Outcome.server (some (codes "over_capacity"))) c)
                  b)
          | inr room ↦
              rw (new, room)
                (stable.begins id task c n (not_running (find id c.executions) new)
                  (leb-false c.capacity (length c.executions) room) b)
        ]
      ]

  find_task-Keeps :
      (id reservation task_name : Text) → Keeps P (find_task world message id reservation task_name)
  unfolding find_task
  find_task-Keeps id reservation t c n b = elim (Option-cases (find t c.tasks)) [
    | inl e ↦
        rw (e, find_task)
          (stable.untouched c _ (execution_failure-Untouched world message Outcome.not_registered c)
            b)
    | inr (task, e) ↦ rw (e, find_task) (start_execution-Keeps id reservation task c n b)
  ]

  with_arguments-Keeps :
      (id reservation task_name : Text) (args : Value)
      → Keeps P (with_arguments world message id reservation task_name args)
  unfolding with_arguments
  with_arguments-Keeps id reservation t (dict fs) c n b = find_task-Keeps id reservation t c n b
  with_arguments-Keeps id reservation t _ c n b =
      stable.untouched c _ (execution_failure-Untouched world message Outcome.validation c) b

  accept_checked-Keeps : Keeps P (accept_checked world message)
  unfolding accept_checked
  accept_checked-Keeps =
      Keeps-lift-bind P (require_text (get (codes "execution_id") message)) _ λ id.
        Keeps-lift-bind P (require_text (get (codes "reservation_id") message)) _ λ reservation.
          Keeps-lift-bind P (require_text (get (codes "job_id") message)) _ λ job.
            Keeps-lift-bind P
              (string (get_or (codes "task") (get (codes "task_name") message) message)) _
              λ t. with_arguments-Keeps id reservation t (get_or (codes "args") (dict end) message)

  accept_client :
      (c : Client)
      → c.mode ≡ client
      → accept_execution world message c ≡ execution_failure world message Outcome.not_registered c
  unfolding accept_execution
  accept_client c h = ground arith

  accept_other :
      (c : Client)
      → c.mode ≢ client
      → accept_execution world message c ≡ accept_checked world message c
  unfolding accept_execution
  accept_other c h = ground arith

  pub accept_execution-keeps : (c : Client) → P c → P (accept_execution world message c).1
  accept_execution-keeps c b = elim (Mode-cases c.mode) [
    | inl e ↦ rw (accept_client c e) (
        stable.untouched c _ (execution_failure-Untouched world message Outcome.not_registered c) b)
    | inr n ↦ rw (accept_other c n) (accept_checked-Keeps c n b)
  ]

begin-IsBounded :
    (id : Text) (task : TaskInfo) (c : Client)
    → c.mode ≢ client
    → find id c.executions ≡ none
    → suc (length c.executions) ≤ c.capacity
    → IsBounded c
    → IsBounded (begin id task c)
unfolding begin
begin-IsBounded id task c n new room b = record {
  fits = omega (arith, length-set id task c.executions new);
  tracked =
      ap (λ (l : List Text). l ++ (id ∷ [])) b.tracked
      ∙ sym (keys-set_new id task c.executions new);
  aligned =
      keys-set id c.writer c.connections
      ∙ ap (add id) b.aligned
      ∙ sym (keys-set id task c.executions);
  distinct = rw keys-set (nodup-add id (keys c.executions) b.distinct);
  idle = λ h. absurd (n h);
}

IsBounded-stable : IsStable IsBounded
IsBounded-stable = record {
  untouched = λ c d u b. Untouched-IsBounded u b;
  begins = begin-IsBounded;
}

pub accept_execution-IsBounded :
    (world : World) (message : Fields) (c : Client)
    → IsBounded c
    → IsBounded (accept_execution world message c).1
accept_execution-IsBounded = accept_execution-keeps IsBounded IsBounded-stable

pub execution_finished-IsBounded :
    (id : Text) (c : Client) → IsBounded c → IsBounded (execution_finished id c)
unfolding execution_finished
execution_finished-IsBounded id c b = record {
  fits = omega (arith, length-drop-le id c.executions, b.fits);
  tracked = ap (discard id) b.tracked ∙ sym (keys-drop id c.executions);
  aligned =
      keys-drop id c.connections ∙ ap (discard id) b.aligned ∙ sym (keys-drop id c.executions);
  distinct = rw keys-drop (nodup-discard id (keys c.executions) b.distinct);
  idle = λ h. rw (b.idle h) (unfold drop in refl);
}

cancel_async_execution-Untouched :
    (id : Text) (c : Client) → Untouched c (cancel_async_execution id c)
unfolding cancel_async_execution
cancel_async_execution-Untouched id c = ground arith

pub cancel_on-Untouched :
    (w : ℕ) (d : Table (Option ℕ)) (c : Client) → Untouched c (cancel_on w d c)
unfolding cancel_on
cancel_on-Untouched w [] c = Untouched-refl c
cancel_on-Untouched w ((id, o) ∷ d) c = elim (Bool-cases (is_writer w o)) [
  | inl e ↦ rw e (
      Untouched-trans c _ _ (cancel_async_execution-Untouched id c)
        (cancel_on-Untouched w d (cancel_async_execution id c)))
  | inr e ↦ rw e (cancel_on-Untouched w d c)
]

pub cancel_execution-Untouched : (message : Fields) → Leaves (cancel_execution message)
unfolding cancel_execution
cancel_execution-Untouched message =
    Leaves-lift-bind (require_text (get (codes "execution_id") message)) _
      λ id c. cancel_async_execution-Untouched id c

pub detach_connection-cancel :
    (w : ℕ) (c : Client)
    → (d : Client) × Untouched c d
      × ((detach_connection w c ≡ d) ⊎ (detach_connection w c ≡ record d { writer = none }))
unfolding detach_connection
detach_connection-cancel w c =
    let d = cancel_on w c.connections c in
    elim (Bool-cases (is_writer w d.writer)) [
      | inl e ↦ (d, cancel_on-Untouched w c.connections c, inr (rw e))
      | inr e ↦ (d, cancel_on-Untouched w c.connections c, inl (rw e))
    ]

pub detach_connection-IsBounded :
    (w : ℕ) (c : Client) → IsBounded c → IsBounded (detach_connection w c)
unfolding detach_connection
detach_connection-IsBounded w c b =
    let d = cancel_on w c.connections c in
    let k = Untouched-IsBounded (cancel_on-Untouched w c.connections c) b in
    elim (Bool-cases (is_writer w d.writer)) [
      | inl e ↦ rw e (record {
        fits = k.fits;
        tracked = k.tracked;
        aligned = k.aligned;
        distinct = k.distinct;
        idle = k.idle;
      })
      | inr e ↦ rw e k
    ]

-- ===== src/Client/Runs/Refinement.antt =====
-- The steps of the client as moves of one request, and what follows for its answer.
use tay.Prelude.{
  ℕ, ◌+◌, ◌≡◌, refl, ap, ◌∙◌, ◌&&◌, none, List, [], ◌∷◌, arith, Bool-cases, Option-cases, inl, inr,
}
use tay.Prelude.Outcome.{Outcome, ok, err, connection_lost}
use tay.Text.{Text, codes}
use tay.Value.{Value, null, str, dict, Fields, get}
use tay.Responses.{equals}
use tay.Protocol.{normalize_json}
use tay.Protocol.Envelope.{as_object}
use tay.Client.{World, Client, TaskInfo, Action, ◌>>=◌, ◌>>◌, pure, lift}
use tay.Client.Sending.{is_writer, draw, envelope_of}
use tay.Client.Untouched.{send_event-Untouched, send_envelope-Untouched}
use tay.Client.Requests.{
  exchange_begin, drain_failed, exchange_end, unregister, register_pending, send_request,
}
use tay.Client.Executions.{begin, accept_execution, execution_finished, detach_connection}
use tay.Client.Executions.Invariant.{
  IsStable, accept_execution-keeps, cancel_execution-Untouched, detach_connection-cancel,
}
use tay.Client.Runs.{
  Event, received, requested, sending, undrained, waited, finished, connected, read_ended, detached,
  close_begun, close_cleared, close_ended, handle_message, handle_request_id, read_round, loop_on,
  close_begin, close_clear, close_end, step, run,
}
use tay.Client.Runs.Answers.{
  Status, answered, Move, stay, wait, leave, answer, Moves, here, next, status, kept-Move,
  fail_pending-Move, read_loop_end-Move, handle_reply-Move,
}

Moves-trans : {s u v : Status} → Moves s u → Moves u v → Moves s v
Moves-trans m here = m
Moves-trans m (next n x) = next (Moves-trans m n) x

answered-Move : {r : Outcome Fields} {s u : Status} → Move s u → s ≡ answered r → u ≡ answered r
answered-Move (stay e) h = e ∙ h
answered-Move (wait e f) h = cc
answered-Move (leave e f) h = cc
answered-Move (answer r e f) h = cc

answered-Moves : {r : Outcome Fields} {s u : Status} → Moves s u → s ≡ answered r → u ≡ answered r
answered-Moves here h = h
answered-Moves (next m x) h = answered-Move x (answered-Moves m h)

module _ (t : Text) (world : World) where
  exchange_end-settled : (id : Text) (c : Client) → (exchange_end world id c).1.settled ≡ c.settled
  unfolding exchange_end unregister
  exchange_end-settled id c = ground arith

  send_request-settled :
      (id : Text) (fs : Fields) (c : Client) → (send_request world id fs c).1.settled ≡ c.settled
  unfolding send_request unregister
  send_request-settled id fs c = ground (arith, send_envelope-Untouched world fs none c)

  register-settled :
      {A : Type 0} (id : Text) (a : A) (c : Client)
      → ((register_pending id >> pure a) c).1.settled ≡ c.settled
  unfolding register_pending ◌>>=◌
  register-settled id a c = elim (Option-cases c.writer) [
    | inl e ↦ rw (e, register_pending) refl
    | inr (w, e) ↦ rw (e, register_pending) refl
  ]

  exchange_begin-settled :
      (kind : Text) (fs : Fields) (c : Client)
      → (exchange_begin world kind fs c).1.settled ≡ c.settled
  unfolding exchange_begin draw ◌>>=◌
  exchange_begin-settled kind fs c = over (normalize_json (dict fs)) _ λ v.
      over (as_object v) _ λ gs.
        let id = world.uuid c.drawn in
        register-settled {A = Text × Fields} id (id, envelope_of kind id gs)
          (record c { drawn = c.drawn + 1 })
    where
      over :
          {A B : Type 0} (r : Outcome A) (f : A → Action B)
          → ((a : A) → (f a (record c { drawn = c.drawn + 1 })).1.settled ≡ c.settled)
          → ((lift r >>= f) (record c { drawn = c.drawn + 1 })).1.settled ≡ c.settled
      over (ok a) f h = h a
      over (err e) f h = refl

  accept-settled :
      (message : Fields) (c : Client) → (accept_execution world message c).1.settled ≡ c.settled
  accept-settled message c =
      accept_execution-keeps (λ d. d.settled ≡ c.settled) stable world message c refl
    where
      stable : IsStable (λ d. d.settled ≡ c.settled)
      stable = record {
        untouched = λ d e u s. u.settled ∙ s;
        begins = λ id task d n new room s. begun id task d s;
      }
        where
          begun :
              (id : Text) (task : TaskInfo) (d : Client)
              → d.settled ≡ c.settled
              → (begin id task d).settled ≡ c.settled
          begun id task d s = unfold begin in s

  handle_message-Move :
      (message : Fields) (c : Client)
      → Move (status t c) (status t (handle_message world message c).1)
  unfolding handle_message handle_request_id
  handle_message-Move message c =
      let kind = get (codes "type") message in
      elim (Bool-cases (equals kind (codes "execute"))) [
        | inl e ↦ rw e (kept-Move t c _ (accept-settled message c))
        | inr e ↦ elim (Bool-cases (equals kind (codes "cancel_execution"))) [
          | inl e' ↦ rw (e, e') (kept-Move t c _ (cancel_execution-Untouched message c).settled)
          | inr e' ↦ elim (Bool-cases (equals kind (codes "ping"))) [
            | inl p ↦
                rw (e, e', p)
                  (kept-Move t c _ (send_event-Untouched world (codes "pong") _ none c).settled)
            | inr p ↦ rw (e, e', p) (reply (get (codes "request_id") message))
          ]
        ]
      ]
    where
      reply : (v : Value) → Move (status t c) (status t (handle_request_id world v message c).1)
      reply (str id) = handle_reply-Move t world id message c
      reply null = stay refl
      reply _ = stay refl

  execution_finished-settled :
      (id : Text) (c : Client) → (execution_finished id c).settled ≡ c.settled
  unfolding execution_finished
  execution_finished-settled id c = refl

  detach-settled : (w : ℕ) (c : Client) → (detach_connection w c).settled ≡ c.settled
  detach-settled w c =
      let (d, u, shape) = detach_connection-cancel w c in
      elim shape [
        | inl e ↦ ap (λ (x : Client). x.settled) e ∙ u.settled
        | inr e ↦ ap (λ (x : Client). x.settled) e ∙ u.settled
      ]

  close_clear-Move : (c : Client) → Move (status t c) (status t (close_clear c))
  unfolding close_clear status
  close_clear-Move c = fail_pending-Move t connection_lost c

  read_round-Move :
      (w : ℕ) (message : Fields) (c : Client)
      → Moves (status t c) (status t (read_round world w message c))
  unfolding read_round
  read_round-Move w message c = elim (Bool-cases (c.running && is_writer w c.writer)) [
    | inl e ↦
        let (r, d) = handle_message world message c in
        rw e (after r d (next here (handle_message-Move message c)))
    | inr e ↦ rw e here
  ]
    where
      after :
          (r : Outcome (Unit {0})) (d : Client)
          → Moves (status t c) (status t d)
          → Moves (status t c) (status t (loop_on world w r d))
      after (ok u) d m = m
      after (err e) d m = next m (read_loop_end-Move t w d)

  step-Moves : (e : Event) (c : Client) → Moves (status t c) (status t (step world e c))
  unfolding step drain_failed unregister close_begin close_end
  step-Moves (received w message) c = read_round-Move w message c
  step-Moves (requested kind fs) c = next here (kept-Move t c _ (exchange_begin-settled kind fs c))
  step-Moves (sending id fs) c = next here (kept-Move t c _ (send_request-settled id fs c))
  step-Moves (undrained id) c = next here (kept-Move t c _ refl)
  step-Moves (waited id) c = next here (kept-Move t c _ (exchange_end-settled id c))
  step-Moves (finished id) c = next here (kept-Move t c _ (execution_finished-settled id c))
  step-Moves (connected w) c = next here (kept-Move t c _ refl)
  step-Moves (read_ended w) c = next here (read_loop_end-Move t w c)
  step-Moves (detached w) c = next here (kept-Move t c _ (detach-settled w c))
  step-Moves close_begun c = next here (kept-Move t c _ refl)
  step-Moves close_cleared c = next here (close_clear-Move c)
  step-Moves close_ended c = next here (kept-Move t c _ refl)

  run-Moves : (es : List Event) (c : Client) → Moves (status t c) (status t (run world es c))
  unfolding run
  run-Moves [] c = here
  run-Moves (e ∷ es) c = Moves-trans (step-Moves e c) (run-Moves es (step world e c))

  -- Once a request has its answer, no run changes it: no second reply, no loss of the connection and
  -- no closing gives the caller anything else.
  pub run-keeps_answer :
      (es : List Event) (c : Client) (r : Outcome Fields)
      → status t c ≡ answered r
      → status t (run world es c) ≡ answered r
  run-keeps_answer es c r h = answered-Moves (run-Moves es c) h

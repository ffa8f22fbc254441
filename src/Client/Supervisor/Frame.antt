-- ===== src/Client/Supervisor/Frame.antt =====
-- What the work of a client leaves of its connection.
use tay.Prelude.{
  ℕ, ◌+◌, ◌≡◌, ◌⊎◌, false, ◌&&◌, none, arith, Bool-cases, Option-cases, inl, inr, if◌then◌else◌,
}
use tay.Prelude.Outcome.{Outcome, ok, err}
use tay.Text.{Text, codes}
use tay.Value.{Value, null, str, dict, Fields, get}
use tay.Responses.{equals}
use tay.Protocol.{normalize_json}
use tay.Protocol.Envelope.{as_object}
use tay.Client.{World, Client, Action, TaskInfo, ◌>>=◌, ◌>>◌, pure, lift}
use tay.Client.Sending.{is_writer, draw, envelope_of}
use tay.Client.Untouched.{Untouched, send_envelope-Untouched, send_event-Untouched}
use tay.Client.Requests.{
  exchange_begin, drain_failed, exchange_end, handle_reply, read_loop_end, fail_pending, settle,
  unregister, register_pending, send_request,
}
use tay.Client.Executions.{begin, execution_finished, detach_connection, accept_execution}
use tay.Client.Executions.Invariant.{
  IsStable, accept_execution-keeps, cancel_execution-Untouched, cancel_on-Untouched,
}
use tay.Client.Runs.{handle_message, handle_request_id, read_round, loop_on, close_clear}

-- The connection is the same, and no handshake was completed.
pub record SameLink (c d : Client) : Type 0 where
  pub writer : d.writer ≡ c.writer
  pub running : d.running ≡ c.running
  pub connected : (d.connected ≡ c.connected) ⊎ (d.connected ≡ false)

Untouched-SameLink : {c d : Client} → Untouched c d → SameLink c d
Untouched-SameLink u = record {
  writer = u.writer;
  running = u.running;
  connected = inl u.connected;
}

SameLink-trans : (c d e : Client) → SameLink c d → SameLink d e → SameLink c e
SameLink-trans c d e p q = ground arith

pub read_loop_end-SameLink : (w : ℕ) (c : Client) → SameLink c (read_loop_end w c)
unfolding read_loop_end fail_pending
read_loop_end-SameLink w c = ground arith

pub execution_finished-SameLink : (id : Text) (c : Client) → SameLink c (execution_finished id c)
unfolding execution_finished
execution_finished-SameLink id c = ground arith

pub drain_failed-SameLink : (id : Text) (c : Client) → SameLink c (drain_failed id c)
unfolding drain_failed
drain_failed-SameLink id c = ground arith

pub close_clear-SameLink : (c : Client) → SameLink c (close_clear c)
unfolding close_clear fail_pending
close_clear-SameLink c = ground arith

module _ (world : World) where
  handle_reply-SameLink :
      (id : Text) (message : Fields) (c : Client) → SameLink c (handle_reply world id message c).1
  unfolding handle_reply settle unregister
  handle_reply-SameLink id message c = ground arith

  pub exchange_end-SameLink : (id : Text) (c : Client) → SameLink c (exchange_end world id c).1
  unfolding exchange_end unregister
  exchange_end-SameLink id c = ground arith

  pub send_request-SameLink :
      (id : Text) (fs : Fields) (c : Client) → SameLink c (send_request world id fs c).1
  unfolding send_request unregister
  send_request-SameLink id fs c = ground (arith, send_envelope-Untouched world fs none c)

  register-SameLink :
      {A : Type 0} (id : Text) (a : A) (c : Client)
      → SameLink c ((register_pending id >> pure a) c).1
  unfolding register_pending ◌>>=◌
  register-SameLink id a c = elim (Option-cases c.writer) [
    | inl e ↦ rw (e, register_pending) (ground arith)
    | inr (w, e) ↦ rw (e, register_pending) (ground arith)
  ]

  pub exchange_begin-SameLink :
      (kind : Text) (fs : Fields) (c : Client) → SameLink c (exchange_begin world kind fs c).1
  unfolding exchange_begin draw ◌>>=◌
  exchange_begin-SameLink kind fs c = over (normalize_json (dict fs)) _ λ v.
      over (as_object v) _ λ gs.
        let id = world.uuid c.drawn in
        ground (
          arith,
          register-SameLink {A = Text × Fields} id (id, envelope_of kind id gs)
              (record c { drawn = c.drawn + 1 }),
        )
    where
      over :
          {A B : Type 0} (r : Outcome A) (f : A → Action B)
          → ((a : A) → SameLink c (f a (record c { drawn = c.drawn + 1 })).1)
          → SameLink c ((lift r >>= f) (record c { drawn = c.drawn + 1 })).1
      over (ok a) f h = h a
      over (err e) f h = ground arith

  accept-SameLink :
      (message : Fields) (c : Client) → SameLink c (accept_execution world message c).1
  accept-SameLink message c =
      accept_execution-keeps (SameLink c) stable world message c (ground arith)
    where
      stable : IsStable (SameLink c)
      stable = record {
        untouched = λ d e u s. SameLink-trans c d e s (Untouched-SameLink u);
        begins = λ id task d n new room s. begun id task d s;
      }
        where
          begun :
              (id : Text) (task : TaskInfo) (d : Client)
              → SameLink c d
              → SameLink c (begin id task d)
          begun id task d s = unfold begin in ground arith

  handle_message-SameLink :
      (message : Fields) (c : Client) → SameLink c (handle_message world message c).1
  unfolding handle_message handle_request_id
  handle_message-SameLink message c =
      let kind = get (codes "type") message in
      elim (Bool-cases (equals kind (codes "execute"))) [
        | inl e ↦ rw e (accept-SameLink message c)
        | inr e ↦ elim (Bool-cases (equals kind (codes "cancel_execution"))) [
          | inl e' ↦ rw (e, e') (Untouched-SameLink (cancel_execution-Untouched message c))
          | inr e' ↦ elim (Bool-cases (equals kind (codes "ping"))) [
            | inl p ↦
                rw (e, e', p)
                  (Untouched-SameLink (send_event-Untouched world (codes "pong") _ none c))
            | inr p ↦ rw (e, e', p) (reply (get (codes "request_id") message))
          ]
        ]
      ]
    where
      reply : (v : Value) → SameLink c (handle_request_id world v message c).1
      reply (str id) = handle_reply-SameLink id message c
      reply null = ground arith
      reply _ = ground arith

  loop_on-SameLink :
      (w : ℕ) (r : Outcome (Unit {0})) (c : Client) → SameLink c (loop_on world w r c)
  loop_on-SameLink w (ok u) c = ground arith
  loop_on-SameLink w (err e) c = read_loop_end-SameLink w c

  pub read_round-SameLink :
      (w : ℕ) (message : Fields) (c : Client) → SameLink c (read_round world w message c)
  unfolding read_round
  read_round-SameLink w message c = elim (Bool-cases (c.running && is_writer w c.writer)) [
    | inl e ↦ rw e (
        SameLink-trans c _ _ (handle_message-SameLink message c)
          (loop_on-SameLink w (handle_message world message c).0 _))
    | inr e ↦ rw e (ground arith)
  ]

-- A detached connection is no longer the writer, and nothing else of the connection changes.
pub detach_connection-link :
    (w : ℕ) (c : Client)
    → ((detach_connection w c).writer ≡ (if is_writer w c.writer then none else c.writer))
      × ((detach_connection w c).running ≡ c.running)
      × ((detach_connection w c).connected ≡ c.connected)
unfolding detach_connection
detach_connection-link w c = let u = cancel_on-Untouched w c.connections c in ground arith

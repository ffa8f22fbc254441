-- ===== src/Client/Runs/Invariant.antt =====
-- The invariants of the client, over every run.
use tay.Prelude.{
  ℕ, ◌+◌, ◌≡◌, refl, sym, ◌∙◌, ◌&&◌, none, List, [], ◌∷◌, arith, Bool-cases, Option-cases, inl, inr,
}
use tay.Prelude.Outcome.{Outcome, ok, err, connection_lost}
use tay.Text.{Text, codes}
use tay.Value.{Value, null, str, dict, Fields, get}
use tay.Responses.{equals}
use tay.Protocol.{normalize_json}
use tay.Protocol.Envelope.{as_object}
use tay.Table.{keys}
use tay.Table.Laws.{nodup}
use tay.Client.{World, Client, Action, ◌>>=◌, ◌>>◌, pure, lift}
use tay.Client.Sending.{is_writer, draw, envelope_of}
use tay.Client.Untouched.{Untouched, send_envelope-Untouched, send_event-Untouched}
use tay.Client.Requests.{
  exchange_begin, drain_failed, exchange_end, handle_reply, read_loop_end, fail_pending, settle,
  unregister, register_pending, send_request,
}
use tay.Client.Requests.Invariant.{
  Distinct, IsCorrelated, Untouched-IsCorrelated, handle_reply-IsCorrelated,
  read_loop_end-IsCorrelated, exchange_begin-IsCorrelated, send_request-IsCorrelated,
  drain_failed-IsCorrelated, exchange_end-IsCorrelated, fail_pending-IsCorrelated,
  same-IsCorrelated,
}
use tay.Client.Executions.{begin, execution_finished, detach_connection}
use tay.Client.Executions.Invariant.{
  IsBounded, IsStable, Untouched-IsBounded, accept_execution-IsBounded, accept_execution-keeps,
  execution_finished-IsBounded, cancel_execution-Untouched, detach_connection-IsBounded,
  detach_connection-cancel,
}
use tay.Client.Runs.{
  Event, received, requested, sending, undrained, waited, finished, connected, read_ended, detached,
  close_begun, close_cleared, close_ended, handle_message, handle_request_id, read_round, loop_on,
  close_begin, close_clear, close_end, step, run,
}

-- Requests do not touch what concerns executions.
record SameWork (c d : Client) : Type 0 where
  mode : d.mode ≡ c.mode
  capacity : d.capacity ≡ c.capacity
  executions : d.executions ≡ c.executions
  connections : d.connections ≡ c.connections
  invoked : d.invoked ≡ c.invoked

SameWork-IsBounded : {c d : Client} → SameWork c d → IsBounded c → IsBounded d
SameWork-IsBounded u b = record {
  fits = rw u.executions (rw u.capacity b.fits);
  tracked = rw u.executions (rw u.invoked b.tracked);
  aligned = rw u.executions (rw u.connections b.aligned);
  distinct = rw u.executions b.distinct;
  idle = λ h. u.executions ∙ b.idle (sym u.mode ∙ h);
}

read_loop_end-SameWork : (w : ℕ) (c : Client) → SameWork c (read_loop_end w c)
unfolding read_loop_end fail_pending
read_loop_end-SameWork w c = ground arith

module _ (world : World) where
  handle_reply-SameWork :
      (id : Text) (message : Fields) (c : Client) → SameWork c (handle_reply world id message c).1
  unfolding handle_reply settle unregister
  handle_reply-SameWork id message c = ground arith

  exchange_end-SameWork : (id : Text) (c : Client) → SameWork c (exchange_end world id c).1
  unfolding exchange_end unregister
  exchange_end-SameWork id c = ground arith

  send_request-SameWork :
      (id : Text) (fs : Fields) (c : Client) → SameWork c (send_request world id fs c).1
  unfolding send_request unregister
  send_request-SameWork id fs c = ground (arith, send_envelope-Untouched world fs none c)

  register-SameWork :
      {A : Type 0} (id : Text) (a : A) (c : Client)
      → SameWork c ((register_pending id >> pure a) c).1
  unfolding register_pending ◌>>=◌
  register-SameWork id a c = elim (Option-cases c.writer) [
    | inl e ↦ rw (e, register_pending) (ground arith)
    | inr (w, e) ↦ rw (e, register_pending) (ground arith)
  ]

  exchange_begin-SameWork :
      (t : Text) (fs : Fields) (c : Client) → SameWork c (exchange_begin world t fs c).1
  unfolding exchange_begin draw ◌>>=◌
  exchange_begin-SameWork t fs c = over (normalize_json (dict fs)) _ λ v. over (as_object v) _ λ gs.
      let id = world.uuid c.drawn in
      ground (
        arith,
        register-SameWork {A = Text × Fields} id (id, envelope_of t id gs)
            (record c { drawn = c.drawn + 1 }),
      )
    where
      over :
          {A B : Type 0} (r : Outcome A) (f : A → Action B)
          → ((a : A) → SameWork c (f a (record c { drawn = c.drawn + 1 })).1)
          → SameWork c ((lift r >>= f) (record c { drawn = c.drawn + 1 })).1
      over (ok a) f h = h a
      over (err e) f h = ground arith

  drain_failed-SameWork : (id : Text) (c : Client) → SameWork c (drain_failed id c)
  unfolding drain_failed
  drain_failed-SameWork id c = ground arith

  IsCorrelated-stable : IsStable (IsCorrelated world)
  unfolding begin
  IsCorrelated-stable = record {
    untouched = λ c d u i. Untouched-IsCorrelated world u i;
    begins = λ id task c n new room i. same-IsCorrelated world refl refl refl i;
  }

  -- Both invariants of a state.
  pub record IsSound (c : Client) : Type 0 where
    pub bounded : IsBounded c
    pub correlated : IsCorrelated world c

  Untouched-IsSound : {c d : Client} → Untouched c d → IsSound c → IsSound d
  Untouched-IsSound u s = record {
    bounded = Untouched-IsBounded u s.bounded;
    correlated = Untouched-IsCorrelated world u s.correlated;
  }

  handle_request_id-IsSound :
      (v : Value) (message : Fields) (c : Client)
      → IsSound c
      → IsSound (handle_request_id world v message c).1
  unfolding handle_request_id
  handle_request_id-IsSound (str id) message c s = record {
    bounded = SameWork-IsBounded (handle_reply-SameWork id message c) s.bounded;
    correlated = handle_reply-IsCorrelated world id message c s.correlated;
  }
  handle_request_id-IsSound null message c s = s
  handle_request_id-IsSound _ message c s = s

  handle_message-IsSound :
      (message : Fields) (c : Client) → IsSound c → IsSound (handle_message world message c).1
  unfolding handle_message
  handle_message-IsSound message c s =
      let kind = get (codes "type") message in
      elim (Bool-cases (equals kind (codes "execute"))) [
        | inl e ↦ rw e (record {
          bounded = accept_execution-IsBounded world message c s.bounded;
          correlated =
              accept_execution-keeps (IsCorrelated world) IsCorrelated-stable world message c
                s.correlated;
        })
        | inr e ↦ elim (Bool-cases (equals kind (codes "cancel_execution"))) [
          | inl e' ↦ rw (e, e') (Untouched-IsSound (cancel_execution-Untouched message c) s)
          | inr e' ↦ elim (Bool-cases (equals kind (codes "ping"))) [
            | inl p ↦
                rw (e, e', p)
                  (Untouched-IsSound (send_event-Untouched world (codes "pong") _ none c) s)
            | inr p ↦
                rw (e, e', p)
                  (handle_request_id-IsSound (get (codes "request_id") message) message c s)
          ]
        ]
      ]

  read_loop_end-IsSound : (w : ℕ) (c : Client) → IsSound c → IsSound (read_loop_end w c)
  read_loop_end-IsSound w c s = record {
    bounded = SameWork-IsBounded (read_loop_end-SameWork w c) s.bounded;
    correlated = read_loop_end-IsCorrelated world w c s.correlated;
  }

  loop_on-IsSound :
      (w : ℕ) (r : Outcome (Unit {0})) (c : Client) → IsSound c → IsSound (loop_on world w r c)
  loop_on-IsSound w (ok u) c s = s
  loop_on-IsSound w (err e) c s = read_loop_end-IsSound w c s

  read_round-IsSound :
      (w : ℕ) (message : Fields) (c : Client) → IsSound c → IsSound (read_round world w message c)
  unfolding read_round
  read_round-IsSound w message c s = elim (Bool-cases (c.running && is_writer w c.writer)) [
    | inl e ↦ rw e (
        loop_on-IsSound w (handle_message world message c).0 _ (handle_message-IsSound message c s))
    | inr e ↦ rw e s
  ]

  close_clear-IsSound : (c : Client) → IsSound c → IsSound (close_clear c)
  unfolding close_clear keys nodup
  close_clear-IsSound c s = record {
    bounded = record {
      fits = omega arith;
      tracked = refl;
      aligned = refl;
      distinct = refl;
      idle = λ h. refl;
    };
    correlated =
        same-IsCorrelated world refl refl refl
          (fail_pending-IsCorrelated world connection_lost c s.correlated);
  }

  detached-IsCorrelated :
      (w : ℕ) (c : Client) → IsCorrelated world c → IsCorrelated world (detach_connection w c)
  detached-IsCorrelated w c i =
      let (d, u, shape) = detach_connection-cancel w c in
      let j = Untouched-IsCorrelated world u i in
      elim shape [ inl e ↦ rw e j | inr e ↦ rw e (same-IsCorrelated world refl refl refl j) ]

  step-IsSound :
      (distinct : Distinct world) (e : Event) (c : Client) → IsSound c → IsSound (step world e c)
  unfolding step execution_finished close_begin close_end
  step-IsSound u (received w message) c s = read_round-IsSound w message c s
  step-IsSound u (requested t fs) c s = record {
    bounded = SameWork-IsBounded (exchange_begin-SameWork t fs c) s.bounded;
    correlated = exchange_begin-IsCorrelated world u t fs c s.correlated;
  }
  step-IsSound u (sending id envelope) c s = record {
    bounded = SameWork-IsBounded (send_request-SameWork id envelope c) s.bounded;
    correlated = send_request-IsCorrelated world id envelope c s.correlated;
  }
  step-IsSound u (undrained id) c s = record {
    bounded = SameWork-IsBounded (drain_failed-SameWork id c) s.bounded;
    correlated = drain_failed-IsCorrelated world id c s.correlated;
  }
  step-IsSound u (waited id) c s = record {
    bounded = SameWork-IsBounded (exchange_end-SameWork id c) s.bounded;
    correlated = exchange_end-IsCorrelated world id c s.correlated;
  }
  step-IsSound u (finished id) c s = record {
    bounded = execution_finished-IsBounded id c s.bounded;
    correlated = same-IsCorrelated world refl refl refl s.correlated;
  }
  step-IsSound u (connected w) c s = record {
    bounded = SameWork-IsBounded (ground arith) s.bounded;
    correlated = same-IsCorrelated world refl refl refl s.correlated;
  }
  step-IsSound u (read_ended w) c s = read_loop_end-IsSound w c s
  step-IsSound u (detached w) c s = record {
    bounded = detach_connection-IsBounded w c s.bounded;
    correlated = detached-IsCorrelated w c s.correlated;
  }
  step-IsSound u close_begun c s = record {
    bounded = SameWork-IsBounded (ground arith) s.bounded;
    correlated = same-IsCorrelated world refl refl refl s.correlated;
  }
  step-IsSound u close_cleared c s = close_clear-IsSound c s
  step-IsSound u close_ended c s = record {
    bounded = SameWork-IsBounded (ground arith) s.bounded;
    correlated = same-IsCorrelated world refl refl refl s.correlated;
  }

  -- After any messages, requests, sends, timeouts, finished executions, connections, losses and parts
  -- of closings, in any order: the tasks that were created since the last closing and have not
  -- finished are the executions that the client counts, so that at most `capacity` run, none twice
  -- under one id and none in client mode, each with its connection; no request is pending twice or
  -- pending and settled at once; and no id that is still to be drawn is in use. The ids that `uuid4`
  -- draws are distinct, and the first state is sound.
  pub run-IsSound :
      (distinct : Distinct world) (es : List Event) (c : Client)
      → IsSound c
      → IsSound (run world es c)
  unfolding run
  run-IsSound u [] c s = s
  run-IsSound u (e ∷ es) c s = run-IsSound u es (step world e c) (step-IsSound u e c s)

-- ===== src/Client/Supervisor/Overtaken.antt =====
-- A new connection that the end of an earlier `close` overtakes.
use tay.Prelude.{
  ℕ, ◌≡◌, refl, ◌∙◌, Bool, true, false, Option, none, some, List, [], ◌∷◌, ◌+◌, arith, all,
  Bool-cases, if_intro, if_cases, inl, inr, subst, sym,
}
use tay.Prelude.Outcome.{Outcome, ok, err}
use tay.Text.{Text}
use tay.Value.{dict, Fields}
use tay.Protocol.{normalize_json}
use tay.Protocol.Envelope.{as_object}
use tay.Table.{Table}
use tay.Client.{World, Client, Action, ◌>>=◌, ◌>>◌, pure, lift}
use tay.Client.Sending.{is_writer, draw, envelope_of, send_envelope}
use tay.Client.Requests.{
  exchange_begin, exchange_end, send_request, register_pending, unregister, read_loop_end,
}
use tay.Client.Executions.{cancel_async_execution, cancel_on, detach_connection, execution_finished}
use tay.Client.Runs as Runs
use tay.Client.Supervisor.{
  watching, Link, ensure_event_loop, start, in_loop, launch, cancelled, gave_up, disconnect,
  supervise, noticed, Event, starting, closing, scheduled, refused, resumed, lost, accepted,
  answered, received, requested, sending, undrained, waited, finished, read_ended, left, listed,
  close_cleared, close_ended, work, step, run,
}

-- The client runs and its supervisor waits for the loss of the connection `w`, which is not the
-- client's any more and whose loss nobody has reported.
pub record IsStuck (w : ℕ) (s : Link) : Type 0 where
  pub phase : s.phase ≡ watching w
  pub running : s.client.running ≡ true
  pub writer : s.client.writer ≡ none
  pub unreported : s.client.lost ≡ false

-- Without a connection there is none afterwards, and no loss is reported.
record KeepsOff (c d : Client) : Type 0 where
  running : d.running ≡ c.running
  writer : d.writer ≡ c.writer
  lost : d.lost ≡ c.lost

-- Any event but another `close`, and a drain that fails, which takes a write before.
abbrev pub is_calm : Event → Bool
is_calm (closing current) = false
is_calm (undrained id) = false
is_calm _ = true

cancel_on-KeepsOff : (w : ℕ) (d : Table (Option ℕ)) (c : Client) → KeepsOff c (cancel_on w d c)
unfolding cancel_on cancel_async_execution
cancel_on-KeepsOff w [] c = ground arith
cancel_on-KeepsOff w ((id, o) ∷ d) c = elim (Bool-cases (is_writer w o)) [
  | inl e ↦ rw e (ground (arith, cancel_on-KeepsOff w d (cancel_async_execution id c)))
  | inr e ↦ rw e (cancel_on-KeepsOff w d c)
]

cancelled-KeepsOff : (o : Option ℕ) (c : Client) → c.writer ≡ none → KeepsOff c (cancelled o c)
unfolding cancelled detach_connection
cancelled-KeepsOff none c h = ground arith
cancelled-KeepsOff (some w) c h =
    let u = cancel_on-KeepsOff w c.connections (disconnect c) in ground arith

module _ (world : World) where
  exchange_begin-KeepsOff :
      (kind : Text) (fs : Fields) (c : Client)
      → c.writer ≡ none
      → KeepsOff c (exchange_begin world kind fs c).1
  unfolding exchange_begin draw register_pending ◌>>=◌
  exchange_begin-KeepsOff kind fs c h =
      over (normalize_json (dict fs)) _
        λ v. over (as_object v) _ λ gs. rw (h, register_pending) (ground arith)
    where
      over :
          {A B : Type 0} (r : Outcome A) (f : A → Action B)
          → ((a : A) → KeepsOff c (f a (record c { drawn = c.drawn + 1 })).1)
          → KeepsOff c ((lift r >>= f) (record c { drawn = c.drawn + 1 })).1
      over (ok a) f k = k a
      over (err e) f k = ground arith

  send_request-KeepsOff :
      (id : Text) (fs : Fields) (c : Client)
      → c.writer ≡ none
      → KeepsOff c (send_request world id fs c).1
  unfolding send_request send_envelope tay.Client.Sending.send_on unregister
  send_request-KeepsOff id fs c h = ground arith

  exchange_end-KeepsOff : (id : Text) (c : Client) → KeepsOff c (exchange_end world id c).1
  unfolding exchange_end unregister
  exchange_end-KeepsOff id c = ground arith

  read_round-KeepsOff :
      (v : ℕ) (message : Fields) (c : Client)
      → c.writer ≡ none
      → KeepsOff c (Runs.read_round world v message c)
  unfolding Runs.read_round
  read_round-KeepsOff v message c h = elim (Bool-cases c.running) [
    | inl e ↦ rw (e, h) (ground arith)
    | inr e ↦ rw (e, h) (ground arith)
  ]

  worked :
      (w : ℕ) (e : Runs.Event) (s : Link)
      → KeepsOff s.client (Runs.step world e s.client)
      → IsStuck w s
      → IsStuck w (work world e s)
  worked w e s k i = record {
    phase = i.phase;
    running = k.running ∙ i.running;
    writer = k.writer ∙ i.writer;
    unreported = k.lost ∙ i.unreported;
  }

  at_watch : (w : ℕ) (e : Event) (s : Link) → IsStuck w s → IsStuck w (supervise e (watching w) s)
  unfolding supervise noticed
  at_watch w lost s i =
      if_cases (IsStuck w) s.client.lost _ _ (λ h. absurd (cc (i.unreported))) (λ h. i)
  at_watch w scheduled s i = i
  at_watch w _ s i = i

  supervised : (w : ℕ) (e : Event) (s : Link) → IsStuck w s → IsStuck w (supervise e s.phase s)
  supervised w e s i = subst (λ p. IsStuck w (supervise e p s)) (sym i.phase) (at_watch w e s i)

  started : (w current : ℕ) (s : Link) → IsStuck w s → IsStuck w (start current s).1
  unfolding start
  started w current s i = by_loop (ensure_event_loop current s.loop)
    where
      by_loop : (r : Outcome (Option ℕ)) → IsStuck w (in_loop r launch s).1
      by_loop (err e) = i
      by_loop (ok l) =
          if_cases (IsStuck w) s.client.running _ _
            (λ h. record {
              phase = i.phase;
              running = i.running;
              writer = i.writer;
              unreported = i.unreported;
            })
            (λ h. absurd (cc (i.running)))

  gave_up-IsStuck : (w : ℕ) (o : Option ℕ) (s : Link) → IsStuck w s → IsStuck w (gave_up o s)
  unfolding gave_up
  gave_up-IsStuck w o s i =
      let k = cancelled-KeepsOff o s.client i.writer in
      if_intro (IsStuck w) (listed o s.retiring) _ s
        (record {
          phase = i.phase;
          running = k.running ∙ i.running;
          writer = k.writer ∙ i.writer;
          unreported = k.lost ∙ i.unreported;
        })
        i

  step-IsStuck :
      (w : ℕ) (e : Event) (s : Link) → is_calm e ≡ true → IsStuck w s → IsStuck w (step world e s)
  unfolding step
  step-IsStuck w (starting current) s c i = started w current s i
  step-IsStuck w (closing current) s c i = absurd (cc c)
  step-IsStuck w (undrained id) s c i = absurd (cc c)
  step-IsStuck w (received v message) s c i =
      worked w (Runs.received v message) s
        (unfold Runs.step in read_round-KeepsOff v message s.client i.writer) i
  step-IsStuck w (requested kind fs) s c i =
      worked w (Runs.requested kind fs) s
        (unfold Runs.step in exchange_begin-KeepsOff kind fs s.client i.writer) i
  step-IsStuck w (sending id fs) s c i =
      worked w (Runs.sending id fs) s
        (unfold Runs.step in send_request-KeepsOff id fs s.client i.writer) i
  step-IsStuck w (waited id) s c i =
      worked w (Runs.waited id) s (unfold Runs.step in exchange_end-KeepsOff id s.client) i
  step-IsStuck w (finished id) s c i =
      worked w (Runs.finished id) s (unfold Runs.step execution_finished in ground arith) i
  step-IsStuck w (read_ended v) s c i =
      worked w (Runs.read_ended v) s
        (let h = i.writer in unfold Runs.step read_loop_end in ground arith) i
  step-IsStuck w close_cleared s c i =
      worked w Runs.close_cleared s
        (unfold Runs.step Runs.close_clear tay.Client.Requests.fail_pending in ground arith) i
  step-IsStuck w close_ended s c i =
      let h = i.writer in
      worked w Runs.close_ended s (unfold Runs.step Runs.close_end in ground arith) i
  step-IsStuck w (left o) s c i = gave_up-IsStuck w o s i
  step-IsStuck w scheduled s c i = supervised w scheduled s i
  step-IsStuck w refused s c i = supervised w refused s i
  step-IsStuck w resumed s c i = supervised w resumed s i
  step-IsStuck w lost s c i = supervised w lost s i
  step-IsStuck w (accepted v) s c i = supervised w (accepted v) s i
  step-IsStuck w (answered r) s c i = supervised w (answered r) s i

  run-IsStuck :
      (w : ℕ) (es : List Event) (s : Link)
      → all is_calm es ≡ true
      → IsStuck w s
      → IsStuck w (run world es s)
  unfolding run
  run-IsStuck w [] s c i = i
  run-IsStuck w (e ∷ es) s c i =
      run-IsStuck w es (step world e s) (ground arith) (step-IsStuck w e s (ground arith) i)

  overtaken :
      (w : ℕ) (s : Link)
      → s.phase ≡ watching w
      → s.client.running ≡ true
      → s.client.lost ≡ false
      → IsStuck w (step world close_ended s)
  unfolding step Runs.step Runs.close_end
  overtaken w s p r l = record { phase = p; running = r; writer = refl; unreported = l }

  -- Where the last part of an earlier `close` runs while the client runs again and its supervisor waits
  -- for the loss of a new connection, the client loses that connection for good: whatever comes then,
  -- but another `close` and a drain that fails, which takes a write before, the client runs, has no
  -- connection, and its supervisor still waits for a loss that nobody has reported.
  pub close_ended-IsStuck :
      (w : ℕ) (es : List Event) (s : Link)
      → s.phase ≡ watching w
      → s.client.running ≡ true
      → s.client.lost ≡ false
      → all is_calm es ≡ true
      → IsStuck w (run world (close_ended ∷ es) s)
  unfolding run
  close_ended-IsStuck w es s p r l c =
      run-IsStuck w es (step world close_ended s) c (overtaken w s p r l)

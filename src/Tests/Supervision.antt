-- ===== src/Tests/Supervision.antt =====
-- The supervised client, and the agreement of the two clients, at concrete inputs.
use tay.Prelude.{◌<◌, ◌≡◌, ◌⊎◌, refl, false, true, none, some, List, [], ◌∷◌, ◌++◌, arith}
use tay.Prelude.Outcome.{Error, ok, err}
use tay.Text.{codes}
use tay.Number.{finite}
use tay.Value.{Value, null, str, Fields, end}
use tay.Client.Backoff.{float_end}
use tay.Client.Names.{named}
use tay.Client.Registration as Registration
use tay.Client.Supervisor.{
  Link, stopped, watching, lost, read_ended, start, supervise, step, gave_up, opening, Event,
  starting, closing, scheduled, refused, resumed, accepted, answered, left, close_cleared,
  close_ended, run,
}
use tay.Client.Supervisor.Delays.{pauses_of, refusals, refusals_delay}
use tay.Client.Supervisor.Overtaken.{IsStuck, close_ended-IsStuck}
use tay.Http.{request}
use tay.Http.Producer.{enqueue, handled}
use tay.Http.Producer.Agreement.{Submitted, enqueue_agrees}
use tay.Tests.Machine.{world, fresh_client}
use tay.Tests.Remote.{listener}

abbrev new_link : Link
new_link = record {
  client = record fresh_client { running = false };
  phase = stopped;
  delay = finite false 8;
  pauses = [];
  retiring = [];
  loop = none;
  initial_delay = finite false 8;
  max_delay = finite false 32;
}

abbrev attempts : List Event
attempts =
    starting 1
    ∷ scheduled
    ∷ refused
    ∷ resumed
    ∷ accepted 3
    ∷ answered (ok tt)
    ∷ closing 1
    ∷ starting 1
    ∷ left (some 3)
    ∷ close_cleared
    ∷ close_ended
    ∷ []

within_floats : 32 < float_end
unfolding float_end
within_floats = omega arith

abbrev opening_link : Link
opening_link = record new_link { client = fresh_client; phase = opening }

refusals_delay_example :
    ((run world (refusals 3) opening_link).pauses ≡ pauses_of 8 32 3 ++ [])
    × ((run world (refusals 3) opening_link).phase ≡ opening)
    × ((run world (refusals 3) opening_link).client.running ≡ true)
refusals_delay_example =
    refusals_delay world 8 32 3 opening_link (omega arith) within_floats refl refl refl refl

-- A client is closed and started again; the old supervisor ends, and the new one connects before the
-- first `close` comes to its end.
abbrev restart : List Event
restart =
    starting 1
    ∷ scheduled
    ∷ accepted 3
    ∷ answered (ok tt)
    ∷ closing 1
    ∷ starting 1
    ∷ left (some 3)
    ∷ close_cleared
    ∷ scheduled
    ∷ accepted 4
    ∷ answered (ok tt)
    ∷ []

restarted :
    ((run world restart new_link).phase ≡ watching 4)
    × ((run world restart new_link).client.running ≡ true)
    × ((run world restart new_link).client.lost ≡ false)
unfolding run step supervise start tay.Client.Supervisor.close gave_up
    tay.Client.Supervisor.cancelled tay.Client.Runs.step tay.Client.Runs.close_begin
    tay.Client.Runs.close_clear tay.Client.Requests.fail_pending
    tay.Client.Executions.detach_connection tay.Client.Executions.cancel_on
restarted = (refl, refl, refl)

close_ended-IsStuck_example :
    IsStuck 4
      (run world (close_ended ∷ read_ended 4 ∷ lost ∷ starting 1 ∷ []) (run world restart new_link))
close_ended-IsStuck_example =
    close_ended-IsStuck world 4 (read_ended 4 ∷ lost ∷ starting 1 ∷ []) (run world restart new_link)
      restarted.0 restarted.1 restarted.2 refl

abbrev work_name : Value
work_name = str (codes "work")

enqueue_agrees_example :
    ((e : Error) × (Registration.enqueue world (named work_name) null null end null fresh_client
        ≡ (err e, fresh_client))
      × (enqueue listener work_name null null end null 0 ≡ (err e, 0)))
    ⊎ ((payload : Fields) × (enqueue listener work_name null null end null 0 ≡ (
          let (r, s') = request listener (codes "POST") (codes "/jobs") (some payload) none 0 in
          (handled listener r, s')))
        × Submitted
            (codes "enqueue")
            payload
            fresh_client
            (Registration.enqueue world (named work_name) null null end null fresh_client))
enqueue_agrees_example =
    enqueue_agrees world listener work_name null null end null fresh_client 0 (ground arith)

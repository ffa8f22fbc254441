-- ===== src/Client/Untouched.antt =====
-- What sending leaves alone.
use tay.Prelude.{ℕ, ◌≤◌, ◌≡◌, Option, none, some, arith}
use tay.Prelude.Outcome.{Error, Outcome, ok, err}
use tay.Text.{Text, codes}
use tay.Value.{Fields, dict, get}
use tay.Protocol.{normalize_json}
use tay.Protocol.Envelope.{as_object}
use tay.Responses.{require_text}
use tay.Table.{add}
use tay.Client.{World, Client, Action, ◌>>=◌, continue, lift}
use tay.Client.Sending.{
  write_frame, send_on, send_envelope, draw, or_forget, send_tracked, send_event, chosen,
  envelope_of,
}
use tay.Client.Executions.{send_quietly, error_fields, execution_failure}

-- Everything but the log of what was sent, the ids of events and the loss of the connection.
pub record Untouched (c d : Client) : Type 0 where
  pub mode : d.mode ≡ c.mode
  pub capacity : d.capacity ≡ c.capacity
  pub tasks : d.tasks ≡ c.tasks
  pub running : d.running ≡ c.running
  pub connected : d.connected ≡ c.connected
  pub writer : d.writer ≡ c.writer
  pub pending : d.pending ≡ c.pending
  pub settled : d.settled ≡ c.settled
  pub executions : d.executions ≡ c.executions
  pub connections : d.connections ≡ c.connections
  pub invoked : d.invoked ≡ c.invoked
  pub drawn : c.drawn ≤ d.drawn

pub Untouched-refl : (c : Client) → Untouched c c
Untouched-refl c = ground arith

pub Untouched-trans : (c d e : Client) → Untouched c d → Untouched d e → Untouched c e
Untouched-trans c d e p q = ground arith

-- An action that changes nothing else, whether it returns or raises.
abbrev pub Leaves : {A : Type 0} → Action A → Type 0
Leaves m = (c : Client) → Untouched c (m c).1

Leaves-continue :
    {A B : Type 0} (r : Outcome A) (f : A → Action B)
    → ((a : A) → Leaves (f a))
    → Leaves (continue r f)
Leaves-continue (ok a) f h c = h a c
Leaves-continue (err e) f h c = Untouched-refl c

pub Leaves-bind :
    {A B : Type 0} (m : Action A) (f : A → Action B)
    → Leaves m
    → ((a : A) → Leaves (f a))
    → Leaves (m >>= f)
unfolding ◌>>=◌
Leaves-bind m f hm hf c = Untouched-trans c (m c).1 _ (hm c) (Leaves-continue (m c).0 f hf (m c).1)

pub Leaves-lift-bind :
    {A B : Type 0} (r : Outcome A) (f : A → Action B)
    → ((a : A) → Leaves (f a))
    → Leaves (lift r >>= f)
Leaves-lift-bind r f hf = Leaves-bind (lift r) f (λ c. Untouched-refl c) hf

module _ (world : World) where
  pub write_frame-Untouched :
      (w : ℕ) (fs : Fields) (c : Client) → Untouched c (write_frame world w fs c).1
  unfolding write_frame
  write_frame-Untouched w fs c = ground arith

  send_on-Untouched :
      (o : Option ℕ) (fs : Fields) (c : Client) → Untouched c (send_on world o fs c).1
  unfolding send_on
  send_on-Untouched none fs c = Untouched-refl c
  send_on-Untouched (some w) fs c = ground (arith, write_frame-Untouched w fs c)

  pub send_envelope-Untouched :
      (fs : Fields) (o : Option ℕ) (c : Client) → Untouched c (send_envelope world fs o c).1
  unfolding send_envelope
  send_envelope-Untouched fs o c = send_on-Untouched (chosen c.writer o) fs c

  or_forget-Untouched :
      (id : Text) (r : Outcome (Unit {0})) (c : Client) → Untouched c (or_forget world id r c).1
  unfolding or_forget
  or_forget-Untouched id (ok u) c = Untouched-refl c
  or_forget-Untouched id (err e) c = ground arith

  send_tracked-Untouched :
      (id : Text) (fs : Fields) (o : Option ℕ) → Leaves (send_tracked world id fs o)
  unfolding send_tracked
  send_tracked-Untouched id fs o c =
      let tracked : Client = record c { event_ids = add id c.event_ids } in
      let (r, sent) = send_envelope world fs o tracked in
      Untouched-trans c sent _
        (Untouched-trans c tracked sent (ground arith) (send_envelope-Untouched fs o tracked))
        (or_forget-Untouched id r sent)

  pub draw-Untouched : Leaves (draw world)
  unfolding draw
  draw-Untouched c = ground arith

  pub send_event-Untouched :
      (t : Text) (fs : Fields) (o : Option ℕ) → Leaves (send_event world t fs o)
  unfolding send_event
  send_event-Untouched t fs o = Leaves-bind (draw world) _ draw-Untouched λ id.
      Leaves-lift-bind (normalize_json (dict fs)) _ λ v.
        Leaves-lift-bind (as_object v) _ λ gs. send_tracked-Untouched id (envelope_of t id gs) o

  send_quietly-Untouched : (t : Text) (fs : Fields) → Leaves (send_quietly world t fs)
  unfolding send_quietly
  send_quietly-Untouched t fs c = send_event-Untouched t fs none c

  error_fields-Untouched : (e : Error) → Leaves (error_fields world e)
  unfolding error_fields
  error_fields-Untouched e c = Untouched-refl c

  pub execution_failure-Untouched :
      (message : Fields) (e : Error) → Leaves (execution_failure world message e)
  unfolding execution_failure
  execution_failure-Untouched message e =
      Leaves-lift-bind (require_text (get (codes "execution_id") message)) _ λ execution.
        Leaves-lift-bind (require_text (get (codes "reservation_id") message)) _ λ reservation.
          Leaves-bind (error_fields world e) _ (error_fields-Untouched e)
            λ details. send_quietly-Untouched (codes "failed") _

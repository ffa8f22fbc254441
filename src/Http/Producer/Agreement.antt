-- ===== src/Http/Producer/Agreement.antt =====
-- A job submitted over HTTP (`TayHTTP.enqueue`, clients/python/tay/http.py) and over the socket
-- (`Tay.enqueue`, clients/python/tay/client.py).
use tay.Prelude.{
  ℕ, ◌+◌, ◌≡◌, ◌≢◌, ◌⊎◌, refl, ap, ◌∙◌, Option, none, some, ◌∷◌, Option-cases, if_intro, inl, inr,
}
use tay.Prelude.Outcome.{Error, Outcome, ok, err, Outcome-cases}
use tay.Text.{Text, Bytes, codes}
use tay.Value.{Value, dict, Fields}
use tay.Table.{add}
use tay.Protocol.{normalize_json, validate_task_name}
use tay.Protocol.Frame.{encode_frame}
use tay.Protocol.Envelope.{as_object}
use tay.Protocol.Safe.{normalize_json-ok}
use tay.Options.{enqueue_payload}
use tay.Client as Client
use tay.Client.{World, Mode, client, embedded, worker, Action, lift}
use tay.Client.Sending.{envelope_of, draw, write_frame, send_on, send_envelope, chosen}
use tay.Client.Requests.{exchange, register_pending, send_request, sent_or_gone}
use tay.Client.Names.{TaskArgument, task_name, named}
use tay.Client.Registration as Registration
use tay.Http.{Listener, request}
use tay.Http.Producer.{enqueue, handled}

-- What a request gives: an error, or its id, with its envelope written on a connection.
abbrev pub Submitted : Text → Fields → Client.Client → Outcome Text × Client.Client → Type 0
Submitted kind payload c r =
    ((e : Error) × (r.0 ≡ err e))
    ⊎ ((id : Text) × (w : ℕ) × (r.0 ≡ ok id)
        × (r.1.sent ≡ (w, envelope_of kind id payload) ∷ c.sent))

-- What writing an envelope gives.
Written : Fields → Client.Client → Outcome (Unit {0}) × Client.Client → Type 0
Written envelope c r =
    ((e : Error) × (r.0 ≡ err e)) ⊎ ((w : ℕ) × (r.0 ≡ ok tt) × (r.1.sent ≡ (w, envelope) ∷ c.sent))

module _ (world : World) where
  write_frame-Written :
      (w : ℕ) (envelope : Fields) (c : Client.Client)
      → Written envelope c (write_frame world w envelope c)
  unfolding write_frame Written
  write_frame-Written w envelope c =
      if_intro (Written envelope c) _ _ _ (inl (Error.connection_lost, refl)) (
        if_intro (Written envelope c) _ _ _ (inr (w, refl, refl))
          (inl (Error.connection_lost, refl)))

  send_on-Written :
      (o : Option ℕ) (envelope : Fields) (c : Client.Client)
      → Written envelope c (send_on world o envelope c)
  unfolding send_on Written
  send_on-Written none envelope c = inl (Error.connection_lost, refl)
  send_on-Written (some w) envelope c =
      if_intro (Written envelope c) _ _ _ (inl (Error.connection_lost, refl))
        (framed (encode_frame world.json c.max_frame_bytes (dict envelope)))
    where
      framed :
          (r : Outcome Bytes)
          → Written envelope c
              (elim r [ err e ↦ (err e, c) | ok frame ↦ write_frame world w envelope c ])
      framed (err e) = inl (e, refl)
      framed (ok frame) = unfold Written in write_frame-Written w envelope c

  send_request-Submitted :
      (id kind : Text) (payload : Fields) (c : Client.Client)
      → Submitted kind payload c (send_request world id (envelope_of kind id payload) c)
  unfolding send_request send_envelope Written
  send_request-Submitted id kind payload c =
      let envelope = envelope_of kind id payload in
      concluded (send_on world (chosen c.writer none) envelope c)
        (send_on-Written (chosen c.writer none) envelope c)
    where
      concluded :
          (r : Outcome (Unit {0}) × Client.Client)
          → Written (envelope_of kind id payload) c r
          → Submitted kind payload c (sent_or_gone id r.0 r.1)
      concluded (ok u, d) (inl (e, h)) = cc
      concluded (ok u, d) (inr (w, h, sent)) = inr (id, w, refl, sent)
      concluded (err x, d) h = inl (x, refl)

  exchange-Submitted :
      (kind : Text) (payload : Fields) (c : Client.Client)
      → Submitted kind payload c (exchange world kind payload c)
  unfolding exchange draw register_pending as_object tay.Client.◌>>=◌
  exchange-Submitted kind payload c = elim (Outcome-cases (normalize_json (dict payload))) [
    | inr (e, h) ↦ inl (e, rw h refl)
    | inl (v, h) ↦
        let same : normalize_json (dict payload) ≡ ok (dict payload) =
          h ∙ ap ok (normalize_json-ok (dict payload) v h) in
        elim (Option-cases c.writer) [
          | inl n ↦ rw (same, n) (inl (Error.connection_lost, refl))
          | inr (w, n) ↦
              rw (same, n)
                (send_request-Submitted (world.uuid c.drawn) kind payload
                  (record c { drawn = c.drawn + 1; pending = add (world.uuid c.drawn) c.pending }))
        ]
  ]

  submits :
      (argument : TaskArgument) (args options : Value) (keywords : Fields) (durability : Value)
      (c : Client.Client)
      → c.mode ≢ worker
      → Registration.enqueue world argument args options keywords durability c
        ≡ Registration.submit world argument args options keywords durability c
  unfolding Registration.enqueue
  submits argument args options keywords durability c ready = in_mode c.mode ready
    where
      in_mode :
          (m : Mode)
          → m ≢ worker
          → (elim m as (λ x. Outcome Text × Client.Client) [
            | worker ↦ Client.raise Error.mode_error c
            | _ ↦ Registration.submit world argument args options keywords durability c
          ])
            ≡ Registration.submit world argument args options keywords durability c
      in_mode client n = refl
      in_mode embedded n = refl
      in_mode worker n = absurd (n refl)

module _ {S : Type 0} (world : World) (listener : Listener S) where
  -- The two clients agree on a submission, for a socket client that is not a worker: either both refuse it
  -- with the same error and send nothing, or both accept it with the same payload. The HTTP client then
  -- posts the payload to /jobs, and the socket client raises, or has written one envelope of the type
  -- "enqueue" with the payload.
  pub enqueue_agrees :
      (task args options : Value) (keywords : Fields) (durability : Value) (c : Client.Client)
      (s : S)
      → c.mode ≢ worker
      → ((e : Error) × (Registration.enqueue world (named task) args options keywords durability c
            ≡ (err e, c))
          × (enqueue listener task args options keywords durability s ≡ (err e, s)))
        ⊎ ((payload : Fields) × (enqueue listener task args options keywords durability s ≡ (
              let (r, s') = request listener (codes "POST") (codes "/jobs") (some payload) none s in
              (handled listener r, s')))
            × Submitted
                (codes "enqueue")
                payload
                c
                (Registration.enqueue world (named task) args options keywords durability c))
  unfolding enqueue Registration.submit task_name tay.Client.◌>>=◌
  enqueue_agrees task args options keywords durability c s ready =
      rw (submits world (named task) args options keywords durability c ready)
        (elim (Outcome-cases (validate_task_name task)) [
          | inr (e, h) ↦ inl (e, rw h refl, rw h refl)
          | inl (t, h) ↦ elim (Outcome-cases (enqueue_payload t args options keywords durability)) [
            | inr (e, k) ↦ inl (e, rw (h, k) refl, rw (h, k) refl)
            | inl (payload, k) ↦ inr (
              payload,
              rw (h, k) refl,
              rw (h, k) (exchange-Submitted world (codes "enqueue") payload c),
            )
          ]
        ])

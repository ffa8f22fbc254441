-- ===== src/Client/Requests/Invariant.antt =====
-- A request is pending or settled, never both, and is settled at most once.
use tay.Prelude.{
  ℕ, ◌+◌, ◌≤◌, ◌≡◌, refl, Bool, true, false, Option, none, some, List, [], ◌∷◌, arith, Bool-cases,
  Option-cases, inl, inr,
}
use tay.Prelude.Outcome.{Error, Outcome, ok, err, connection_lost}
use tay.Text.{Text, mem, same}
use tay.Text.Laws.{same_iff}
use tay.Value.{Fields, dict}
use tay.Protocol.{normalize_json}
use tay.Protocol.Envelope.{as_object}
use tay.Table.{Table, find, set, add, discard}
use tay.Table.Laws.{
  nodup, nodup-add, nodup-discard, mem-add, mem-discard, mem-discard_self, find-set,
}
use tay.Client.{World, Client, Action, ◌>>=◌, ◌>>◌, pure, lift}
use tay.Client.Sending.{is_writer, draw, envelope_of, send_envelope}
use tay.Client.Untouched.{Untouched, send_envelope-Untouched}
use tay.Client.Requests.{
  settle, is_done, fail_all, fail_pending, unregister, handle_reply, read_loop_end, is_event_reply,
  exchange_begin, drain_failed, exchange_end, send_request, register_pending, sent_or_gone,
}

-- `uuid4` repeats no id.
pub record Distinct (world : World) : Type 0 where
  pub apart : (m n : ℕ) → world.uuid m ≡ world.uuid n → m ≡ n

module _ (world : World) where
  -- No pending request twice, none that is settled, and no id to come that is pending or settled.
  pub record IsCorrelated (c : Client) : Type 0 where
    pub distinct : nodup c.pending ≡ true
    pub waiting : (id : Text) → mem id c.pending ≡ true → find id c.settled ≡ none
    pub fresh_pending : (k : ℕ) → c.drawn ≤ k → mem (world.uuid k) c.pending ≡ false
    pub fresh_settled : (k : ℕ) → c.drawn ≤ k → find (world.uuid k) c.settled ≡ none

  pub Untouched-IsCorrelated : {c d : Client} → Untouched c d → IsCorrelated c → IsCorrelated d
  Untouched-IsCorrelated u i = record {
    distinct = rw u.pending i.distinct;
    waiting = λ id h. rw u.settled (i.waiting id (rw u.pending at h));
    fresh_pending = λ k h. rw u.pending (i.fresh_pending k (omega (arith, u.drawn)));
    fresh_settled = λ k h. rw u.settled (i.fresh_settled k (omega (arith, u.drawn)));
  }

  pub unregister-IsCorrelated :
      (id : Text) (c : Client) → IsCorrelated c → IsCorrelated (unregister id c)
  unfolding unregister
  unregister-IsCorrelated id c i = record {
    distinct = nodup-discard id c.pending i.distinct;
    waiting = λ t h. i.waiting t (was_pending t h);
    fresh_pending = λ k h. mem-discard (world.uuid k) id c.pending (i.fresh_pending k h);
    fresh_settled = i.fresh_settled;
  }
    where
      was_pending : (t : Text) → mem t (discard id c.pending) ≡ true → mem t c.pending ≡ true
      was_pending t h = elim (Bool-cases (mem t c.pending)) [
        | inl e ↦ e
        | inr e ↦ cc (mem-discard t id c.pending e)
      ]

  -- Settling a request that is pending, and takes it off the pending ones.
  pub settle-IsCorrelated :
      (id : Text) (r : Outcome Fields) (c : Client)
      → mem id c.pending ≡ true
      → IsCorrelated c
      → IsCorrelated (settle id r (unregister id c))
  unfolding settle unregister
  settle-IsCorrelated id r c p i = record {
    distinct = nodup-discard id c.pending i.distinct;
    waiting = λ t h. still_waiting t h;
    fresh_pending = λ k h. mem-discard (world.uuid k) id c.pending (i.fresh_pending k h);
    fresh_settled = λ k h. ground (
      arith,
      find-set (world.uuid k) id r c.settled,
      same_iff (world.uuid k) id,
      i.fresh_pending k h,
      i.fresh_settled k h,
    );
  }
    where
      still_waiting :
          (t : Text) → mem t (discard id c.pending) ≡ true → find t (set id r c.settled) ≡ none
      still_waiting t h = ground (
        arith,
        find-set t id r c.settled,
        same_iff t id,
        mem-discard_self id c.pending i.distinct,
        mem-discard t id c.pending,
        i.waiting t,
      )

-- What the futures of some requests are after all of them were failed.
abbrev pub failed_or : Option (Outcome Fields) → Bool → Error → Option (Outcome Fields)
failed_or (some r) b e = some r
failed_or none true e = some (err e)
failed_or none false e = none

pub find-fail_all :
    (t : Text) (e : Error) (ids : List Text) (settled : Table (Outcome Fields))
    → find t (fail_all e ids settled) ≡ failed_or (find t settled) (mem t ids) e
unfolding fail_all mem
find-fail_all t e [] settled = ground arith
find-fail_all t e (id ∷ ids) settled = elim (Option-cases (find id settled)) [
  | inl p ↦ ground (
    arith,
    find-fail_all t e ids (set id (err e) settled),
    find-set t id (err e) settled,
    same_iff t id,
  )
  | inr (r, p) ↦ ground (arith, find-fail_all t e ids settled, same_iff t id)
]

-- `_fail_pending` leaves no request pending. Every request that was pending and waiting now has the
-- error, every future that was done keeps its result, and no other future is touched.
pub find-fail_pending :
    (t : Text) (e : Error) (c : Client)
    → ((fail_pending e c).pending ≡ [])
      × (find t (fail_pending e c).settled ≡ failed_or (find t c.settled) (mem t c.pending) e)
unfolding fail_pending
find-fail_pending t e c = (refl, find-fail_all t e c.pending c.settled)

module _ (world : World) where
  pub fail_pending-IsCorrelated :
      (e : Error) (c : Client) → IsCorrelated world c → IsCorrelated world (fail_pending e c)
  unfolding fail_pending mem nodup
  fail_pending-IsCorrelated e c i = record {
    distinct = refl;
    waiting = λ id h. cc;
    fresh_pending = λ k h. refl;
    fresh_settled = λ k h. ground (
      arith,
      find-fail_all (world.uuid k) e c.pending c.settled,
      i.fresh_settled k h,
      i.fresh_pending k h,
    );
  }

  pub same-IsCorrelated :
      {c d : Client}
      → d.pending ≡ c.pending
      → d.settled ≡ c.settled
      → d.drawn ≡ c.drawn
      → IsCorrelated world c
      → IsCorrelated world d
  same-IsCorrelated p s n i = record {
    distinct = rw p i.distinct;
    waiting = λ id h. rw s (i.waiting id (rw p at h));
    fresh_pending = λ k h. rw p (i.fresh_pending k (omega (arith, n)));
    fresh_settled = λ k h. rw s (i.fresh_settled k (omega (arith, n)));
  }

  pub read_loop_end-IsCorrelated :
      (w : ℕ) (c : Client) → IsCorrelated world c → IsCorrelated world (read_loop_end w c)
  unfolding read_loop_end
  read_loop_end-IsCorrelated w c i = elim (Bool-cases (is_writer w c.writer)) [
    | inl e ↦
        rw e (fail_pending-IsCorrelated connection_lost _ (same-IsCorrelated refl refl refl i))
    | inr e ↦ rw e i
  ]

  pub handle_reply-IsCorrelated :
      (id : Text) (message : Fields) (c : Client)
      → IsCorrelated world c
      → IsCorrelated world (handle_reply world id message c).1
  unfolding handle_reply
  handle_reply-IsCorrelated id message c i = elim (Bool-cases (is_event_reply id message c)) [
    | inl e ↦ rw e (same-IsCorrelated refl refl refl i)
    | inr e ↦ elim (Bool-cases (mem id c.pending)) [
      | inr n ↦ rw (e, n) (unregister-IsCorrelated world id c i)
      | inl p ↦ elim (Bool-cases (is_done id c.settled)) [
        | inl d ↦ rw (e, p, d) (unregister-IsCorrelated world id c i)
        | inr w ↦ rw (e, p, w) (settle-IsCorrelated world id _ c p i)
      ]
    ]
  ]

  pub exchange_end-IsCorrelated :
      (id : Text) (c : Client)
      → IsCorrelated world c
      → IsCorrelated world (exchange_end world id c).1
  unfolding exchange_end
  exchange_end-IsCorrelated id c i = elim (Option-cases (find id c.settled)) [
    | inl e ↦ rw (e, exchange_end) (unregister-IsCorrelated world id c i)
    | inr (r, e) ↦ rw (e, exchange_end) (unregister-IsCorrelated world id c i)
  ]

  -- An id that was drawn just now.
  record FreshFor (id : Text) (c : Client) : Type 0 where
    unsettled : find id c.settled ≡ none
    later : (k : ℕ) → c.drawn ≤ k → same (world.uuid k) id ≡ false

  register-IsCorrelated :
      (id : Text) (c : Client)
      → FreshFor id c
      → IsCorrelated world c
      → IsCorrelated world (record c { pending = add id c.pending })
  register-IsCorrelated id c f i = record {
    distinct = nodup-add id c.pending i.distinct;
    waiting =
        λ t h. ground (arith, mem-add t id c.pending, same_iff t id, i.waiting t, f.unsettled);
    fresh_pending = λ k h.
        ground (arith, mem-add (world.uuid k) id c.pending, f.later k h, i.fresh_pending k h);
    fresh_settled = i.fresh_settled;
  }

  pub send_request-IsCorrelated :
      (id : Text) (envelope : Fields) (c : Client)
      → IsCorrelated world c
      → IsCorrelated world (send_request world id envelope c).1
  unfolding send_request
  send_request-IsCorrelated id envelope c i =
      after (send_envelope world envelope none c).0 _
        (Untouched-IsCorrelated world (send_envelope-Untouched world envelope none c) i)
    where
      after :
          (r : Outcome (Unit {0})) (d : Client)
          → IsCorrelated world d
          → IsCorrelated world (sent_or_gone id r d).1
      after (ok u) d j = j
      after (err e) d j = unregister-IsCorrelated world id d j

  tail-IsCorrelated :
      {A : Type 0} (id : Text) (a : A) (c : Client)
      → FreshFor id c
      → IsCorrelated world c
      → IsCorrelated world ((register_pending id >> pure a) c).1
  unfolding register_pending ◌>>=◌
  tail-IsCorrelated id a c f i = elim (Option-cases c.writer) [
    | inl e ↦ rw (e, register_pending) i
    | inr (w, e) ↦ rw (e, register_pending) (register-IsCorrelated id c f i)
  ]

  lift-IsCorrelated :
      {A B : Type 0} (r : Outcome A) (f : A → Action B) (c : Client)
      → IsCorrelated world c
      → ((a : A) → IsCorrelated world (f a c).1)
      → IsCorrelated world ((lift r >>= f) c).1
  unfolding ◌>>=◌
  lift-IsCorrelated (ok a) f c i h = h a
  lift-IsCorrelated (err e) f c i h = i

  drawn-IsCorrelated :
      (c : Client) → IsCorrelated world c → IsCorrelated world (record c { drawn = c.drawn + 1 })
  drawn-IsCorrelated c i = record {
    distinct = i.distinct;
    waiting = i.waiting;
    fresh_pending = λ k h. i.fresh_pending k (omega arith);
    fresh_settled = λ k h. i.fresh_settled k (omega arith);
  }

  drawn-FreshFor :
      (c : Client)
      → Distinct world
      → IsCorrelated world c
      → FreshFor (world.uuid c.drawn) (record c { drawn = c.drawn + 1 })
  drawn-FreshFor c u i = record {
    unsettled = i.fresh_settled c.drawn (omega arith);
    later = λ k h. elim (Bool-cases (same (world.uuid k) (world.uuid c.drawn))) [
      | inr e ↦ e
      | inl e ↦ absurd (omega (arith, u.apart k c.drawn ((same_iff _ _).0 e)))
    ];
  }

  pub exchange_begin-IsCorrelated :
      (distinct : Distinct world) (message_type : Text) (fields : Fields) (c : Client)
      → IsCorrelated world c
      → IsCorrelated world (exchange_begin world message_type fields c).1
  unfolding exchange_begin draw ◌>>=◌
  exchange_begin-IsCorrelated u t fields c i =
      let d : Client = record c { drawn = c.drawn + 1 } in
      let j = drawn-IsCorrelated c i in
      lift-IsCorrelated (normalize_json (dict fields)) _ d j λ v.
        lift-IsCorrelated (as_object v) _ d j λ fs.
          tail-IsCorrelated (world.uuid c.drawn)
            (world.uuid c.drawn, envelope_of t (world.uuid c.drawn) fs) d (drawn-FreshFor c u i) j

  pub drain_failed-IsCorrelated :
      (id : Text) (c : Client) → IsCorrelated world c → IsCorrelated world (drain_failed id c)
  unfolding drain_failed
  drain_failed-IsCorrelated id c i =
      unregister-IsCorrelated world id _ (same-IsCorrelated refl refl refl i)

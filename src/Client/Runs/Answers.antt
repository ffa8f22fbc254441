-- ===== src/Client/Runs/Answers.antt =====
-- What a run does to the future of one request: an abstract request, and its moves.
use tay.Prelude.{
  ℕ, ◌≡◌, refl, Bool, true, false, Option, none, some, [], arith, Bool-cases, inl, inr,
}
use tay.Prelude.Outcome.{Error, Outcome, err, connection_lost}
use tay.Text.{Text, mem, same}
use tay.Text.Laws.{same_iff}
use tay.Value.{Fields}
use tay.Table.{find}
use tay.Table.Laws.{find-set}
use tay.Client.{World, Client}
use tay.Client.Sending.{is_writer}
use tay.Client.Requests.{
  handle_reply, read_loop_end, fail_pending, settle, unregister, is_done, is_event_reply, reply_of,
}
use tay.Client.Requests.Invariant.{failed_or, find-fail_pending}

-- A request as its caller sees it: nobody waits for it, or somebody does, or it has its answer.
pub data Status : Type 0 where
  idle waiting : Status
  answered : Outcome Fields → Status

-- What may happen to it: somebody starts or stops to wait, and a request that is waited for gets its
-- answer.
pub data Move (s u : Status) : Type 0 where
  stay : u ≡ s → Move s u
  wait : s ≡ idle → u ≡ waiting → Move s u
  leave : s ≡ waiting → u ≡ idle → Move s u
  answer : (r : Outcome Fields) → s ≡ waiting → u ≡ answered r → Move s u

pub data Moves (s : Status) : Status → Type 0 where
  here : Moves s s
  next : {t u : Status} → Moves s t → Move t u → Moves s u

abbrev pub status_of : Bool → Option (Outcome Fields) → Status
status_of b (some r) = answered r
status_of true none = waiting
status_of false none = idle

-- The request `t` of a client.
unfoldable pub status : Text → Client → Status
status t c = status_of (mem t c.pending) (find t c.settled)

status_of-Move : (b b' : Bool) (o : Option (Outcome Fields)) → Move (status_of b o) (status_of b' o)
status_of-Move b b' (some r) = stay refl
status_of-Move true true none = stay refl
status_of-Move true false none = leave refl refl
status_of-Move false true none = wait refl refl
status_of-Move false false none = stay refl

failed-Move :
    (b : Bool) (o : Option (Outcome Fields)) (e : Error)
    → Move (status_of b o) (status_of false (failed_or o b e))
failed-Move b (some r) e = stay refl
failed-Move true none e = answer (err e) refl refl
failed-Move false none e = stay refl

module _ (t : Text) where
  -- A step that settles nothing.
  pub kept-Move : (c d : Client) → d.settled ≡ c.settled → Move (status t c) (status t d)
  unfolding status
  kept-Move c d e = rw e (status_of-Move (mem t c.pending) (mem t d.pending) (find t c.settled))

  pub fail_pending-Move : (e : Error) (c : Client) → Move (status t c) (status t (fail_pending e c))
  unfolding status
  fail_pending-Move e c =
      let (p, s) = find-fail_pending t e c in
      rw (p, s) (unfold mem in failed-Move (mem t c.pending) (find t c.settled) e)

  pub read_loop_end-Move : (w : ℕ) (c : Client) → Move (status t c) (status t (read_loop_end w c))
  unfolding read_loop_end
  read_loop_end-Move w c = elim (Bool-cases (is_writer w c.writer)) [
    | inl e ↦ rw e (
        unfold status in
        fail_pending-Move connection_lost
          (record c { event_ids = []; connected = false; lost = true }))
    | inr e ↦ rw e (stay refl)
  ]

  settle-Move :
      (id : Text) (r : Outcome Fields) (c : Client)
      → mem id c.pending ≡ true
      → is_done id c.settled ≡ false
      → Move (status t c) (status t (settle id r (unregister id c)))
  unfolding status settle unregister is_done
  settle-Move id r c p n = elim (Bool-cases (same t id)) [
    | inl e ↦
        let q : t ≡ id = (same_iff t id).0 e in
        let o : find id c.settled ≡ none = ground arith in
        rw find-set (rw e (answer r (rw q (rw (p, o) refl)) refl))
    | inr e ↦ rw find-set (rw e (status_of-Move _ _ (find t c.settled)))
  ]

  module _ (world : World) where
    pub handle_reply-Move :
        (id : Text) (message : Fields) (c : Client)
        → Move (status t c) (status t (handle_reply world id message c).1)
    unfolding handle_reply
    handle_reply-Move id message c = elim (Bool-cases (is_event_reply id message c)) [
      | inl e ↦ rw e (kept-Move c _ refl)
      | inr e ↦ elim (Bool-cases (mem id c.pending)) [
        | inr n ↦ rw (e, n) (kept-Move c _ (unfold unregister in refl))
        | inl p ↦ elim (Bool-cases (is_done id c.settled)) [
          | inl d ↦ rw (e, p, d) (kept-Move c _ (unfold unregister in refl))
          | inr w ↦ rw (e, p, w) (settle-Move id (reply_of world message) c p w)
        ]
      ]
    ]

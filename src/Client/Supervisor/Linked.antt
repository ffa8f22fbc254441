-- ===== src/Client/Supervisor/Linked.antt =====
-- The invariant of a supervised client, and the steps of the supervisor that keep it.
use tay.Prelude.{
  ℕ, ◌*◌, ◌≤◌, ◌<◌, ◌≡◌, refl, ◌∙◌, true, false, none, some, ◌∷◌, ◌++◌, arith, if_intro, if_cases,
}
use tay.Prelude.Outcome.{ok, err}
use tay.Number.{finite}
use tay.Client.{Client}
use tay.Client.Backoff.{next_delay, float_end}
use tay.Client.Executions.{detach_connection}
use tay.Client.Supervisor.{
  Phase, created, opening, sleeping, greeting, watching, Link, begin_round, end_round, disconnect,
  opened, greeted, noticed, slept, unfinished, Event, scheduled, refused, resumed, lost, accepted,
  answered, supervise,
}
use tay.Client.Supervisor.Frame.{detach_connection-link}
use tay.Client.Supervisor.Held.{held, Fits, held-none, held-tail}
use tay.Client.Supervisor.Delays.{next_delay_finite, least}

-- The pause is a double from the first to the longest one.
pub record IsPaused (lo hi : ℕ) (s : Link) : Type 0 where
  pub first : s.initial_delay ≡ finite false lo
  pub longest : s.max_delay ≡ finite false hi
  pub pause : (n : ℕ) × (s.delay ≡ finite false n) × (lo ≤ n) × (n ≤ hi)

pub record IsLinked (lo hi : ℕ) (s : Link) : Type 0 where
  pub paused : IsPaused lo hi s
  pub fits : Fits s.phase s.client.running s.client.writer s.client.connected
  pub owned : held (unfinished s.phase ++ s.retiring) s.client.writer ≡ true

pub same_pause :
    {lo hi : ℕ} {s t : Link}
    → t.initial_delay ≡ s.initial_delay
    → t.max_delay ≡ s.max_delay
    → t.delay ≡ s.delay
    → IsPaused lo hi s
    → IsPaused lo hi t
same_pause a b d p =
    let (n, e, l, h) = p.pause in
    record { first = a ∙ p.first; longest = b ∙ p.longest; pause = (n, d ∙ e, l, h) }

module _ (lo hi : ℕ) where
  begin_round-IsLinked :
      (s : Link)
      → IsPaused lo hi s
      → s.client.connected ≡ false
      → held s.retiring s.client.writer ≡ true
      → IsLinked lo hi (begin_round s)
  unfolding begin_round
  begin_round-IsLinked s p c h =
      if_cases (IsLinked lo hi) s.client.running _ _
        (λ e. record {
          paused = same_pause refl refl refl p;
          fits = (e, c);
          owned = held-none s.client.writer s.retiring h;
        })
        (λ e. record { paused = same_pause refl refl refl p; fits = (e, c); owned = h })

  end_round-IsLinked :
      (c : Client) (s : Link)
      → IsPaused lo hi s
      → c.connected ≡ false
      → held s.retiring c.writer ≡ true
      → IsLinked lo hi (end_round c s)
  unfolding end_round
  end_round-IsLinked c s p k h =
      if_cases (IsLinked lo hi) c.running _ _
        (λ e. record { paused = same_pause refl refl refl p; fits = (e, k); owned = h })
        (λ e. record { paused = same_pause refl refl refl p; fits = (e, k); owned = h })

  module _ (ordered : lo ≤ hi) (bounded : hi < float_end) where
    next_delay-IsPaused :
        (s : Link)
        → IsPaused lo hi s
        → IsPaused lo hi (record s { delay = next_delay s.max_delay s.delay })
    next_delay-IsPaused s p =
        let (n, e, l, h) = p.pause in
        record {
          first = p.first;
          longest = p.longest;
          pause = (
            least (2 * n) hi,
            rw (p.longest, e) (next_delay_finite hi n bounded),
            ground arith,
            ground arith,
          );
        }

    detached-IsLinked :
        (w : ℕ) (s : Link)
        → IsPaused lo hi s
        → held (some w ∷ s.retiring) s.client.writer ≡ true
        → IsLinked lo hi (end_round (detach_connection w (disconnect s.client)) s)
    detached-IsLinked w s p h =
        let (writer, running, connected) = detach_connection-link w (disconnect s.client) in
        end_round-IsLinked _ s p connected
          (rw writer (held-tail (some w) s.client.writer s.retiring h))

    pub supervise-IsLinked :
        (e : Event) (p : Phase) (s : Link)
        → IsPaused lo hi s
        → Fits p s.client.running s.client.writer s.client.connected
        → held (unfinished p ++ s.retiring) s.client.writer ≡ true
        → s.phase ≡ p
        → IsLinked lo hi (supervise e p s)
    unfolding supervise opened greeted noticed slept
    supervise-IsLinked scheduled created s p f o h = begin_round-IsLinked s p f.1 o
    supervise-IsLinked (accepted w) opening s p f o h =
        if_cases (IsLinked lo hi) s.client.running _ _
          (λ e. record {
            paused = same_pause refl refl refl p;
            fits = (e, f.1, ground arith);
            owned = ground arith;
          })
          (λ e. absurd (cc (f.0)))
    supervise-IsLinked refused opening s p f o h =
        end_round-IsLinked (disconnect s.client) s p refl
          (held-tail none s.client.writer s.retiring o)
    supervise-IsLinked (answered (ok u)) (greeting w) s p f o h = record {
      paused = record {
        first = p.first;
        longest = p.longest;
        pause = (lo, p.first, omega arith, ordered);
      };
      fits = (f.0, f.2);
      owned = o;
    }
    supervise-IsLinked (answered (err x)) (greeting w) s p f o h = detached-IsLinked w s p o
    supervise-IsLinked lost (watching w) s p f o h =
        if_intro (IsLinked lo hi) s.client.lost _ s (detached-IsLinked w s p o)
          (record { paused = p; fits = rw h f; owned = rw h o })
    supervise-IsLinked resumed sleeping s p f o h =
        begin_round-IsLinked _ (next_delay-IsPaused s p) f.1 o
    supervise-IsLinked _ _ s p f o h = record { paused = p; fits = rw h f; owned = rw h o }

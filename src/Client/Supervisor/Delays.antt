-- ===== src/Client/Supervisor/Delays.antt =====
-- The pauses of `_connection_supervisor` in clients/python/tay/client.py, in a row of failed attempts.
use tay.Prelude.{
  ℕ, zero, suc, ◌*◌, ◌^◌, ◌≤◌, ◌<◌, ◌≡◌, refl, ap, sym, ◌∙◌, false, true, List, [], ◌∷◌, ◌++◌, ltb,
  arith, if◌then◌else◌, Bool-cases, inl, inr,
}
use tay.Number.{Float, finite}
use tay.Client.{World}
use tay.Client.Backoff.{below, float_end, doubled, next_delay}
use tay.Client.Supervisor.{opening, Link, Event, refused, resumed, supervise, step, run}

abbrev pub least : ℕ → ℕ → ℕ
least a b = if ltb b a then b else a

pub next_delay_finite :
    (hi n : ℕ)
    → hi < float_end
    → next_delay (finite false hi) (finite false n) ≡ finite false (least (2 * n) hi)
unfolding next_delay below doubled
next_delay_finite hi n h = elim (Bool-cases (ltb (2 * n) float_end)) [
  | inl e ↦ rw e (ground arith)
  | inr e ↦ rw e (ground arith)
]

pow_suc : (n : ℕ) → 2 ^ suc n ≡ 2 * 2 ^ n
pow_suc n = omega arith

double_least : (i hi n : ℕ) → least (2 * least (i * 2 ^ n) hi) hi ≡ least (i * 2 ^ suc n) hi
double_least i hi n =
    let e : i * 2 ^ suc n ≡ 2 * (i * 2 ^ n) = grind (arith, pow_suc n) in rw e (ground arith)

-- Attempts that are refused, each with the pause after it.
unfoldable pub refusals : ℕ → List Event
refusals zero = []
refusals (suc n) = refused ∷ resumed ∷ refusals n

-- The pauses after `k` failed attempts, last first: the first pause times 2 to the number of the
-- attempt, counted from 0, or the longest pause.
abbrev pub pauses_of : ℕ → ℕ → ℕ → List Float
pauses_of i hi zero = []
pauses_of i hi (suc k) = finite false (least (i * 2 ^ k) hi) ∷ pauses_of i hi k

module _ (world : World) where
  -- A state that tries to connect, with that pause next.
  abbrev pub Tries : ℕ → ℕ → Link → Type 0
  Tries hi n s =
      (s.phase ≡ opening)
      × (s.client.running ≡ true)
      × (s.max_delay ≡ finite false hi)
      × (s.delay ≡ finite false n)

  refusal-Tries :
      (hi n : ℕ) (s : Link)
      → hi < float_end
      → Tries hi n s
      → Tries hi (least (2 * n) hi) (step world resumed (step world refused s))
        × ((step world resumed (step world refused s)).pauses ≡ finite false n ∷ s.pauses)
  unfolding step supervise
  refusal-Tries hi n s h t = ground (arith, next_delay_finite hi n h)

  run-refusals :
      (k : ℕ) (s : Link)
      → run world (refusals (suc k)) s
        ≡ step world resumed (step world refused (run world (refusals k) s))
  unfolding run refusals
  run-refusals zero s = refl
  run-refusals (suc k) s = run-refusals k (step world resumed (step world refused s))

  refusals-Tries :
      (i hi k : ℕ) (s : Link)
      → hi < float_end
      → Tries hi (least (i * 2 ^ 0) hi) s
      → Tries hi (least (i * 2 ^ k) hi) (run world (refusals k) s)
        × ((run world (refusals k) s).pauses ≡ pauses_of i hi k ++ s.pauses)
  refusals-Tries i hi zero s h t = unfold run refusals in (t, refl)
  refusals-Tries i hi (suc k) s h t =
      let (u, p) = refusals-Tries i hi k s h t in
      let (v, q) = refusal-Tries hi _ (run world (refusals k) s) h u in
      rw run-refusals (
        rw (sym (double_least i hi k)) v,
        q ∙ ap (λ (l : List Float). finite false (least (i * 2 ^ k) hi) ∷ l) p,
      )

  -- A client that cannot connect keeps trying. In a row of failed attempts the pause that it sleeps
  -- after the first one is the first pause, and each further pause is twice the one before, up to the
  -- longest pause, where it stays. The two pauses are finite, positive doubles, the first not above
  -- the longest.
  pub refusals_delay :
      (i hi k : ℕ) (s : Link)
      → i ≤ hi
      → hi < float_end
      → s.max_delay ≡ finite false hi
      → s.delay ≡ finite false i
      → s.phase ≡ opening
      → s.client.running ≡ true
      → ((run world (refusals k) s).pauses ≡ pauses_of i hi k ++ s.pauses)
        × ((run world (refusals k) s).phase ≡ opening)
        × ((run world (refusals k) s).client.running ≡ true)
  refusals_delay i hi k s le h m d p r =
      let one : 2 ^ 0 ≡ 1 = refl in
      let start : i ≡ least (i * 2 ^ 0) hi = rw one (ground arith) in
      let (t, q) = refusals-Tries i hi k s h (p, r, m, d ∙ ap (finite false) start) in (q, t.0, t.1)

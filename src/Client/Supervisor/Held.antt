-- ===== src/Client/Supervisor/Held.antt =====
-- The connection of a client and the supervisors that have yet to detach it.
use tay.Prelude.{
  ℕ, ◌≡◌, refl, ap, ◌∙◌, Bool, true, false, Option, none, some, List, [], ◌∷◌, ◌++◌, ◌==◌, arith,
  Bool-cases, inl, inr, if◌then◌else◌,
}
use tay.Client.{Client}
use tay.Client.Sending.{is_writer}
use tay.Client.Supervisor.{
  Phase, stopped, created, opening, sleeping, greeting, watching, disconnect, unfinished, listed,
  removed, cancelled,
}
use tay.Client.Supervisor.Frame.{SameLink, detach_connection-link}

-- The connection is none, or one that a supervisor of the list has yet to detach.
abbrev pub held : List (Option ℕ) → Option ℕ → Bool
held l none = true
held l (some w) = listed (some w) l

-- The connection is none, or that one.
abbrev pub is_own : ℕ → Option ℕ → Bool
is_own w none = true
is_own w (some v) = w == v

-- What the place of the supervisor says of the connection.
abbrev pub Fits : Phase → Bool → Option ℕ → Bool → Type 0
Fits stopped running writer connected = (running ≡ false) × (connected ≡ false)
Fits (greeting w) running writer connected =
    (running ≡ true) × (connected ≡ false) × (is_own w writer ≡ true)
Fits (watching w) running writer connected = (running ≡ true) × (is_own w writer ≡ true)
Fits created running writer connected = (running ≡ true) × (connected ≡ false)
Fits opening running writer connected = (running ≡ true) × (connected ≡ false)
Fits sleeping running writer connected = (running ≡ true) × (connected ≡ false)

pub Fits-kept :
    (p : Phase) (c d : Client)
    → SameLink c d
    → Fits p c.running c.writer c.connected
    → Fits p d.running d.writer d.connected
Fits-kept stopped c d u f = ground arith
Fits-kept (greeting w) c d u f = ground arith
Fits-kept (watching w) c d u f = ground arith
Fits-kept created c d u f = ground arith
Fits-kept opening c d u f = ground arith
Fits-kept sleeping c d u f = ground arith

pub Fits-none :
    (p : Phase) (running connected : Bool) (writer : Option ℕ)
    → Fits p running writer connected
    → Fits p running none connected
Fits-none stopped r c w f = f
Fits-none (greeting v) r c w f = (f.0, f.1, refl)
Fits-none (watching v) r c w f = (f.0, refl)
Fits-none created r c w f = f
Fits-none opening r c w f = f
Fits-none sleeping r c w f = f

pub Fits-idle :
    (p : Phase) (running : Bool) (writer : Option ℕ) (connected : Bool)
    → Fits p running writer connected
    → running ≡ false
    → (p ≡ stopped) × (connected ≡ false)
Fits-idle stopped r w c f h = (refl, f.1)
Fits-idle (greeting v) r w c f h = absurd (cc (f.0))
Fits-idle (watching v) r w c f h = absurd (cc (f.0))
Fits-idle created r w c f h = absurd (cc (f.0))
Fits-idle opening r w c f h = absurd (cc (f.0))
Fits-idle sleeping r w c f h = absurd (cc (f.0))

-- What is left of a connection when that one is detached.
abbrev pub freed : Option ℕ → Option ℕ → Option ℕ
freed none writer = writer
freed (some w) writer = if is_writer w writer then none else writer

pub cancelled-link :
    (o : Option ℕ) (c : Client)
    → ((cancelled o c).writer ≡ freed o c.writer)
      × ((cancelled o c).running ≡ c.running)
      × ((cancelled o c).connected ≡ false)
unfolding cancelled
cancelled-link none c = (refl, refl, refl)
cancelled-link (some w) c = detach_connection-link w (disconnect c)

is_own-freed :
    (w : ℕ) (o writer : Option ℕ) → is_own w writer ≡ true → is_own w (freed o writer) ≡ true
is_own-freed w none writer h = h
is_own-freed w (some v) none h = refl
is_own-freed w (some v) (some x) h = ground arith

pub Fits-freed :
    (p : Phase) (running connected : Bool) (o writer : Option ℕ)
    → Fits p running writer connected
    → Fits p running (freed o writer) false
Fits-freed stopped r c o w f = (f.0, refl)
Fits-freed (greeting v) r c o w f = (f.0, refl, is_own-freed v o w f.2)
Fits-freed (watching v) r c o w f = (f.0, is_own-freed v o w f.1)
Fits-freed created r c o w f = (f.0, refl)
Fits-freed opening r c o w f = (f.0, refl)
Fits-freed sleeping r c o w f = (f.0, refl)

pub Fits-moved :
    (p : Phase) (c d : Client) (writer : Option ℕ)
    → d.writer ≡ writer
    → d.running ≡ c.running
    → d.connected ≡ false
    → Fits p c.running writer false
    → Fits p d.running d.writer d.connected
Fits-moved stopped c d w a b k f = (b ∙ f.0, k)
Fits-moved (greeting v) c d w a b k f = (b ∙ f.0, k, ap (is_own v) a ∙ f.2)
Fits-moved (watching v) c d w a b k f = (b ∙ f.0, ap (is_own v) a ∙ f.1)
Fits-moved created c d w a b k f = (b ∙ f.0, k)
Fits-moved opening c d w a b k f = (b ∙ f.0, k)
Fits-moved sleeping c d w a b k f = (b ∙ f.0, k)

listed-removed :
    (v w : ℕ) (l : List (Option ℕ))
    → listed (some v) l ≡ true
    → (w == v) ≡ false
    → listed (some v) (removed (some w) l) ≡ true
listed-removed v w [] h n = cc
listed-removed v w (none ∷ l) h n = listed-removed v w l h n
listed-removed v w (some x ∷ l) h n = ground (arith, listed-removed v w l)

listed-removed-none :
    (v : ℕ) (l : List (Option ℕ))
    → listed (some v) l ≡ true
    → listed (some v) (removed none l) ≡ true
listed-removed-none v [] h = cc
listed-removed-none v (none ∷ l) h = h
listed-removed-none v (some x ∷ l) h = ground (arith, listed-removed-none v l)

pub held-removed :
    (o writer : Option ℕ) (l : List (Option ℕ))
    → held l writer ≡ true
    → held (removed o l) (freed o writer) ≡ true
held-removed none none l h = refl
held-removed none (some v) l h = listed-removed-none v l h
held-removed (some w) none l h = refl
held-removed (some w) (some v) l h = elim (Bool-cases (w == v)) [
  | inl e ↦ rw e refl
  | inr e ↦ rw e (listed-removed v w l h e)
]

pub held-none :
    (writer : Option ℕ) (l : List (Option ℕ)) → held l writer ≡ true → held (none ∷ l) writer ≡ true
held-none none l h = refl
held-none (some v) l h = h

pub held-more :
    (x : ℕ) (writer : Option ℕ) (l : List (Option ℕ))
    → held l writer ≡ true
    → held (some x ∷ l) writer ≡ true
held-more x none l h = refl
held-more x (some v) l h = ground arith

pub held-extra :
    (x o writer : Option ℕ) (l : List (Option ℕ))
    → held (x ∷ l) writer ≡ true
    → held (x ∷ removed o l) (freed o writer) ≡ true
held-extra x o none l h = at o
  where
    at : (o : Option ℕ) → held (x ∷ removed o l) (freed o none) ≡ true
    at none = refl
    at (some w) = refl
held-extra none o (some v) l h =
    held-none (freed o (some v)) (removed o l) (held-removed o (some v) l h)
held-extra (some x) o (some v) l h = elim (Bool-cases (v == x)) [
  | inl e ↦ own o e
  | inr e ↦ held-more x (freed o (some v)) (removed o l) (held-removed o (some v) l (ground arith))
]
  where
    own : (o : Option ℕ) → (v == x) ≡ true → held (some x ∷ removed o l) (freed o (some v)) ≡ true
    own none e = rw e refl
    own (some w) e = ground arith

-- Where the supervisor itself holds something too.
pub held-under :
    (p : Phase) (o writer : Option ℕ) (l : List (Option ℕ))
    → held (unfinished p ++ l) writer ≡ true
    → held (unfinished p ++ removed o l) (freed o writer) ≡ true
held-under stopped o w l h = held-removed o w l h
held-under created o w l h = held-removed o w l h
held-under sleeping o w l h = held-removed o w l h
held-under opening o w l h = held-extra none o w l h
held-under (greeting v) o w l h = held-extra (some v) o w l h
held-under (watching v) o w l h = held-extra (some v) o w l h

-- Detaching what the first of the list holds leaves the rest.
pub held-tail :
    (o writer : Option ℕ) (l : List (Option ℕ))
    → held (o ∷ l) writer ≡ true
    → held l (freed o writer) ≡ true
held-tail none none l h = refl
held-tail none (some v) l h = h
held-tail (some w) none l h = refl
held-tail (some w) (some v) l h = ground arith

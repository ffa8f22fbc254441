-- ===== src/Client.antt =====
-- The socket client of clients/python/tay/client.py: its state, and the actions on it.
-- A method runs from one suspension to the next as one step; what runs between is another step.
pub mod Sending
pub mod Requests
pub mod Executions
pub mod Untouched
pub mod Runs
pub mod Names
pub mod Settings
pub mod Bootstrap
pub mod Activity
pub mod Registration
pub mod Handles
pub mod Backoff
pub mod Supervisor
use tay.Prelude.{ℕ, Bool, true, false, Option, none, some, List, [], if◌then◌else◌}
use tay.Prelude.Outcome.{Error, Outcome, ok, err, connection_lost}
use tay.Text.{Text}
use tay.Value.{Fields, Value}
use tay.Protocol.Codec.{Json}
use tay.Execution.{Raised}
use tay.Table.{Table}

pub data Mode : Type 0 where
  client embedded worker : Mode

-- A registered function, by identity, and whether it is a coroutine function.
pub record TaskInfo : Type 0 where
  pub function : ℕ
  pub is_coroutine : Bool

-- What the client takes from outside: the codec, `str` of a value, the texts of an exception, the
-- n-th `uuid4().hex`, the writers that are closing, and those whose `drain` succeeds.
pub record World : Type 0 where
  pub json : Json
  pub show : Value → Text
  pub describe : Error → Raised
  pub uuid : ℕ → Text
  pub closing : ℕ → Bool
  pub writes : ℕ → Bool

-- A connection is a number. `settled` holds the futures that are done, by request; a request that
-- is in `pending` and not in `settled` waits. `sent` lists the envelopes that were written, last
-- first, and `cancelled` the executions whose task was cancelled. `invoked` lists the tasks that
-- `_accept_execution` created and that have not finished, by execution id, since the last `close`.
pub record Client : Type 0 where
  pub mode : Mode
  pub capacity : ℕ
  pub max_frame_bytes : ℕ
  pub max_error_bytes : ℕ
  pub include_traceback : Bool
  pub tasks : Table TaskInfo
  pub registered : List Text
  pub declarations : Table Fields
  pub withdrawn : List Text
  pub running : Bool
  pub shutting : Bool
  pub connected : Bool
  pub lost : Bool
  pub writer : Option ℕ
  pub pending : List Text
  pub settled : Table (Outcome Fields)
  pub event_ids : List Text
  pub executions : Table TaskInfo
  pub is_sync : Table Bool
  pub connections : Table (Option ℕ)
  pub sent : List (ℕ × Fields)
  pub cancelled : List Text
  pub invoked : List Text
  pub drawn : ℕ

-- An action returns or raises, and leaves a state in both cases.
abbrev pub Action : Type 0 → Type 0
Action A = Client → Outcome A × Client

abbrev pub continue : {A B : Type 0} → Outcome A → (A → Action B) → Action B
continue (ok a) f c = f a c
continue (err e) f c = (err e, c)

infixl 5 ◌>>=◌ ◌>>◌
unfoldable pub ◌>>=◌ : {A B : Type 0} → Action A → (A → Action B) → Action B
◌>>=◌ m f c = let (r, c') = m c in continue r f c'

abbrev pub ◌>>◌ : {B : Type 0} → Action Unit → Action B → Action B
m >> n = m >>= λ _. n

abbrev pub pure : {A : Type 0} → A → Action A
pure a c = (ok a, c)

abbrev pub raise : {A : Type 0} → Error → Action A
raise e c = (err e, c)

abbrev pub lift : {A : Type 0} → Outcome A → Action A
lift r c = (r, c)

abbrev pub modify : (Client → Client) → Action Unit
modify f c = (ok tt, f c)

-- `with contextlib.suppress(ConnectionLost, OSError)`
unfoldable pub suppressed : Outcome (Unit {0}) → Outcome (Unit {0})
suppressed (err connection_lost) = ok tt
suppressed r = r

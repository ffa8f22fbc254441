-- ===== src/Prelude/Outcome.antt =====
-- clients/python/tay/errors.py, and the exceptions of the language that the client lets through.
-- An exception is the value `err e`. The text of its message is not modelled.
use mathlib.Core.Path.{◌≡◌, refl}
use mathlib.Core.Logic.{◌⊎◌, inl, inr}
use mathlib.Core.Bool.{Bool, true, false}
use mathlib.Core.List.{List}
use mathlib.Core.Option.{Option}
use Prim.Native.Nat.{ℕ}

-- `server` carries the code of a `ServerError`; its subclasses have constructors of their own.
pub data Error : Type 0 where
  validation protocol connection_lost registration not_registered mode_error : Error
  result_too_large runtime_error value_error connection_error struct_error type_error key_error
        timeout_error :
      Error
  server remote_task job_cancelled result_missing : Option (List ℕ) → Error

pub data Outcome {ℓ} (A : Type ℓ) : Type ℓ where
  ok : A → Outcome A
  err : Error → Outcome A

-- `if test: raise error`
abbrev pub reject : Bool → Error → Outcome (Unit {0})
reject false e = ok tt
reject true e = err e

infixl 5 ◌>>=◌ ◌>>◌
abbrev pub ◌>>=◌ {ℓ κ} : {A : Type ℓ} {B : Type κ} → Outcome A → (A → Outcome B) → Outcome B
err raised >>= next = err raised
ok result >>= next = next result

abbrev pub ◌>>◌ {ℓ} : {B : Type ℓ} → Outcome (Unit {0}) → Outcome B → Outcome B
check >> next = check >>= λ _. next

pub reject-eq-ok : (b : Bool) (e : Error) {u : Unit} → reject b e ≡ ok u → b ≡ false
reject-eq-ok true e h = cc
reject-eq-ok false e h = refl

pub Outcome-cases {ℓ} :
    {A : Type ℓ} (r : Outcome A) → ((a : A) × (r ≡ ok a)) ⊎ ((e : Error) × (r ≡ err e))
Outcome-cases (ok a) = inl (a, refl)
Outcome-cases (err e) = inr (e, refl)

-- A step that came before a success has succeeded.
pub bind_inversion {ℓ κ} :
    {X : Type ℓ} {Y : Type κ} (step : Outcome X) (next : X → Outcome Y) (y : Y)
    → (step >>= next) ≡ ok y
    → (x : X) × (step ≡ ok x) × (next x ≡ ok y)
bind_inversion (err raised) next y h = cc
bind_inversion (ok x) next y h = (x, refl, h)

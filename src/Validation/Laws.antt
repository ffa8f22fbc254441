-- ===== src/Validation/Laws.antt =====
-- The identifiers that the client accepts.
use tay.Prelude.{ap, subst, ℕ, ◌≤◌, ◌≡◌, ◌↔◌, false, some, arith, inl, inr, Option-cases}
use tay.Prelude.Outcome.{ok}
use tay.Text.{Text, is_empty, has_nul, utf8_size}
use tay.Value.{Value, null, str}
use tay.Validation.{identifier}

-- A text that is not empty, holds no NUL and has a UTF-8 form of at most 128 bytes.
pub record IsIdentifier (t : Text) : Type 0 where
  pub full : is_empty t ≡ false
  pub no_nul : has_nul t ≡ false
  pub size : ℕ
  pub encoded : utf8_size t ≡ some size
  pub fits : size ≤ 128

identifier-text : (t s : Text) → identifier (str t) ≡ ok s → (t ≡ s) × IsIdentifier t
unfolding identifier
identifier-text t s h = elim (Option-cases (utf8_size t)) [
  | inl e ↦ absurd (ground arith)
  | inr (n, e) ↦ (
    ground arith,
    record {
      full = ground arith;
      no_nul = ground arith;
      size = n;
      encoded = e;
      fits = ground arith;
    },
  )
]

identifier-IsIdentifier :
    (v : Value) (t : Text) → identifier v ≡ ok t → (v ≡ str t) × IsIdentifier t
unfolding identifier
identifier-IsIdentifier (str s) t h =
    let (e, p) = identifier-text s t h in (ap str e, subst IsIdentifier e p)
identifier-IsIdentifier null t h = cc
identifier-IsIdentifier _ t h = cc

IsIdentifier-identifier : (t : Text) → IsIdentifier t → identifier (str t) ≡ ok t
unfolding identifier
IsIdentifier-identifier t h = ground (arith, h.encoded)

-- `identifier` returns a value exactly when it is a non-empty text without NUL whose UTF-8 form has
-- at most 128 bytes.
pub identifier_exact :
    (v : Value) (t : Text) → (identifier v ≡ ok t) ↔ ((v ≡ str t) × IsIdentifier t)
identifier_exact v t = (identifier-IsIdentifier v t, λ h. rw h.0 (IsIdentifier-identifier t h.1))
